-- ===== src/Tests/Controller.antt =====
-- The DNSRecord controller.
use k8s_dns_manager.Prelude.{
  ◌≡◌, refl, ◌≢◌, ◌⊎◌, true, false, some, List, [], ◌∷◌, Text, codes, ok, All, length, text_eq, any,
}
use k8s_dns_manager.GoStrings.{has_suffix, to_lower}
use k8s_dns_manager.Api.{DnsRecord}
use k8s_dns_manager.Webhook.Default.{default, default_spec, default_a, enforce_fqdn}
use k8s_dns_manager.Ptr.{to_bool_d}
use k8s_dns_manager.Record.{to_rr, to_rr_a}
use k8s_dns_manager.Controllers.{Call, World, get, update, update_status, provide, exchange, event}
use k8s_dns_manager.Controllers.Server.{Server}
use k8s_dns_manager.Controllers.Finalizers.{record_finalizer, has_finalizer, remove_finalizer}
use k8s_dns_manager.Controllers.Records.{reconcile, question, status_moved}
use k8s_dns_manager.Controllers.Records.Safety.{IsGuarded, reconcile-IsGuarded}
use k8s_dns_manager.Controllers.Records.Deletion.{
  answer, deleted, released, released_after_provider, finalizers_after_deletion,
}
use k8s_dns_manager.Controllers.Records.Convergence.{Setting, IsSettled, with_spec, calls, round}
use k8s_dns_manager.Controllers.Records.Rounds.{three_rounds-IsSettled}
use k8s_dns_manager.Tests.Samples.{deps, a_rr, a_spec, a_record, key, reply, world}

abbrev other_finalizer : Text
other_finalizer = codes "example.org/other"

-- A record that is marked for deletion, with two finalizers.
abbrev dying : DnsRecord
dying = record a_record {
  metadata = record a_record.metadata {
    finalizers = record_finalizer ∷ other_finalizer ∷ [];
    deletion_timestamp = some 1;
  };
}

abbrev dying_world : World
dying_world = record world { on_get = λ log k. ok dying }

default-dying : to_rr deps (default deps dying) ≡ ok a_rr
unfolding to_rr to_rr_a default default_a enforce_fqdn to_lower has_suffix
default-dying = refl

held : has_finalizer dying.metadata.finalizers ≡ true
unfolding has_finalizer text_eq
held = refl

finalizers_after_deletion_example :
    (fins : List Text) × ((reconcile deps dying_world key []).1
      ≡ update (released deps dying_world key (default deps dying) fins)
        ∷ deleted deps dying_world key
        ∷ provide (default deps dying)
        ∷ get key
        ∷ [])
    × (((dying.metadata.finalizers ≡ record_finalizer ∷ []) × (fins ≡ []))
        ⊎ ((length dying.metadata.finalizers ≢ 1) × (has_finalizer fins ≡ true)))
finalizers_after_deletion_example =
    finalizers_after_deletion deps dying_world key dying a_rr refl refl default-dying held refl refl

-- The finalizers that the removal leaves.
abbrev remaining : List Text
remaining = record_finalizer ∷ other_finalizer ∷ other_finalizer ∷ []

remove_finalizer-dying : remove_finalizer dying.metadata.finalizers ≡ some remaining
unfolding remove_finalizer text_eq
remove_finalizer-dying = refl

abbrev dying_log : List Call
dying_log = deleted deps dying_world key ∷ provide (default deps dying) ∷ get key ∷ []

reconcile-dying :
    (reconcile deps dying_world key []).1
    ≡ update (released deps dying_world key (default deps dying) remaining) ∷ dying_log
unfolding reconcile to_rr to_rr_a default default_a enforce_fqdn to_lower has_suffix
    remove_finalizer text_eq status_moved
reconcile-dying = refl

released_after_provider_example :
    ((answer deps dying_world key dying).ok ≡ true)
    × (status_moved (answer deps dying_world key dying).changed.status (default deps dying).status
        ≡ false)
    × (remove_finalizer (answer deps dying_world key dying).changed.metadata.finalizers
        ≡ some remaining)
    × (released deps dying_world key (default deps dying) remaining
        ≡ released deps dying_world key (answer deps dying_world key dying).changed remaining)
    × (dying_log ≡ dying_log)
released_after_provider_example =
    released_after_provider deps dying_world key dying
      (released deps dying_world key (default deps dying) remaining) a_rr dying_log refl refl
      default-dying reconcile-dying

reconcile-IsGuarded_example : All IsGuarded (reconcile deps dying_world key []).1
reconcile-IsGuarded_example = reconcile-IsGuarded deps dying_world key

abbrev pub server : Server
server = record {
  apply = λ s c. elim c [
    | update r ↦ record r {
      status = s.status;
      metadata = record r.metadata { deletion_timestamp = s.metadata.deletion_timestamp };
    }
    | update_status r ↦ record s { status = r.status }
    | _ ↦ s
  ];
  update-spec = λ s r. refl;
  update-finalizers = λ s r. refl;
  update-deletion = λ s r. refl;
  update-status = λ s r. refl;
  update_status-spec = λ s r. refl;
  update_status-finalizers = λ s r. refl;
  update_status-deletion = λ s r. refl;
  update_status-status = λ s r. refl;
}

pub a_spec-defaulted : default_spec deps a_spec ≡ a_spec
unfolding default_spec default_a enforce_fqdn to_lower has_suffix
a_spec-defaulted = refl

pub a_spec-converts : to_rr deps (with_spec a_spec) ≡ ok a_rr
unfolding to_rr to_rr_a
a_spec-converts = refl

pub reply-found : any (λ v. deps.is_duplicate v a_rr) reply.answer ≡ true
unfolding text_eq
reply-found = refl

pub to_bool_d-wanted : to_bool_d a_spec.active true ≡ true
unfolding to_bool_d
to_bool_d-wanted = refl

abbrev pub setting : Setting
setting = record {
  deps = deps;
  world = world;
  server = server;
  req = key;
  spec = a_spec;
  rr = a_rr;
  answer = λ log. reply;
  defaulted = a_spec-defaulted;
  wanted = to_bool_d-wanted;
  converts = a_spec-converts;
  answers = λ log. refl;
  whole = λ log. refl;
  accepts = λ log c. refl;
  found = λ log. reply-found;
}

-- The object after one, two and three reconciliations.
abbrev next : DnsRecord → DnsRecord
next = round deps world server key

three_rounds-IsSettled_example :
    IsSettled deps a_rr (next (next (next a_record)))
    × (calls deps world key (next (next (next a_record)))
        ≡ event (codes "Success") (codes "record active")
          ∷ exchange (codes "udp") (question deps world a_rr)
          ∷ provide (next (next (next a_record)))
          ∷ get key
          ∷ [])
three_rounds-IsSettled_example =
    three_rounds-IsSettled setting a_record (record { same = refl; live = refl })
