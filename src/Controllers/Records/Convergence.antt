-- ===== src/Controllers/Records/Convergence.antt =====
-- Repeated reconciliation of a live DNSRecord, with the CoreDNS provider (pkg/provider/coredns),
-- which answers ok and changes nothing.
use k8s_dns_manager.Prelude.{
  ◌≡◌, sym, ◌∙◌, ap, true, false, none, some, List, [], ◌∷◌, ◌++◌, Text, codes, ok, text_eq,
  text_eq_refl, text_eq_iff, any, arith,
}
use k8s_dns_manager.Deps.{Deps, Rr}
use k8s_dns_manager.Ptr.{to_bool_d}
use k8s_dns_manager.Api.{DnsRecordSpec, DnsRecord, empty_metadata, empty_status}
use k8s_dns_manager.Webhook.Default.{default, default_spec}
use k8s_dns_manager.Record.{to_rr}
use k8s_dns_manager.Controllers.{
  Key, Message, Outcome, done, Reconciled, Call, get, update, update_status, provide, exchange,
  event, World,
}
use k8s_dns_manager.Controllers.Finalizers.{record_finalizer, has_finalizer}
use k8s_dns_manager.Controllers.Records.{
  record_state, question, lookup, verified, provided, converted, call_provider, reconcile,
  status_moved,
}
use k8s_dns_manager.Controllers.Server.{
  Server, Accepting, stored, stored_unwritten, is_write, writes,
}

pub has_finalizer-append : (fins : List Text) → has_finalizer (fins ++ record_finalizer ∷ []) ≡ true
unfolding has_finalizer
has_finalizer-append [] = ground (arith, text_eq_refl record_finalizer)
has_finalizer-append (v ∷ fins) = ground (arith, has_finalizer-append fins)

abbrev pub with_spec : DnsRecordSpec → DnsRecord
with_spec spec = record {
  api_version = [];
  kind = [];
  metadata = empty_metadata;
  spec = spec;
  status = empty_status;
}

pub to_rr-of_spec : (deps : Deps) (r s : DnsRecord) → r.spec ≡ s.spec → to_rr deps r ≡ to_rr deps s
unfolding to_rr
to_rr-of_spec deps r s e =
    ap (λ (x : DnsRecordSpec). unfold to_rr in to_rr deps (record s { spec = x })) e

-- The provider of noop.go.
unfoldable pub noop_provider : DnsRecord → Reconciled
noop_provider r = record { outcome = done; ok = true; changed = r }

-- The world in which the API server returns the stored object `s`, and the provider is noop.go's.
abbrev pub world_at : World → DnsRecord → World
world_at w s = record w { on_get = λ log k. ok s; on_provide = λ log r. noop_provider r }

-- The calls of one reconciliation.
unfoldable pub calls : Deps → World → Key → DnsRecord → List Call
calls deps w req s = (reconcile deps (world_at w s) req []).1

-- One reconciliation, and the writes that it makes.
unfoldable pub round : Deps → World → Server → Key → DnsRecord → DnsRecord
round deps w server req s = stored server w s (calls deps w req s)

-- The object is live and has the specification `spec`.
pub record IsLive (spec : DnsRecordSpec) (s : DnsRecord) : Type 0 where
  pub same : s.spec ≡ spec
  pub live : s.metadata.deletion_timestamp ≡ none

-- A reconciliation has nothing left to write: the finalizer is held, and the status prints the
-- record and says active.
pub record IsSettled (deps : Deps) (rr : Rr) (s : DnsRecord) : Type 0 where
  pub held : has_finalizer s.metadata.finalizers ≡ true
  pub printed : s.status.printed ≡ deps.rr_string rr
  pub active : s.status.active ≡ some true

-- A specification that the webhook has defaulted, that is active and is converted to `rr`, and a
-- verification server whose answers over UDP are whole and hold `rr`. No write to the API server fails.
pub record Setting : Type 0 where
  pub deps : Deps
  pub world : World
  pub server : Server
  pub req : Key
  pub spec : DnsRecordSpec
  pub rr : Rr
  pub answer : List Call → Message
  pub defaulted : default_spec deps spec ≡ spec
  pub wanted : to_bool_d spec.active true ≡ true
  pub converts : to_rr deps (with_spec spec) ≡ ok rr
  pub answers :
      (log : List Call)
      → world.on_exchange log (codes "udp") (question deps world rr) ≡ ok (answer log)
  pub whole : (log : List Call) → (answer log).truncated ≡ false
  pub accepts : Accepting world
  pub found : (log : List Call) → any (λ v. deps.is_duplicate v rr) (answer log).answer ≡ true

module _ (σ : Setting) where
  open σ use {deps, world as w, server, req, spec, rr}

  pub default_live : (s : DnsRecord) → IsLive spec s → default deps s ≡ s
  unfolding default
  default_live s l =
      λ i. record s { spec = (ap (default_spec deps) l.same ∙ σ.defaulted ∙ sym l.same) i }

  pub converts_live : (s : DnsRecord) → IsLive spec s → to_rr deps s ≡ ok rr
  converts_live s l = to_rr-of_spec deps s (with_spec spec) l.same ∙ σ.converts

  reconcile_live :
      (s : DnsRecord)
      → IsLive spec s
      → reconcile deps (world_at w s) req []
        ≡ converted deps (world_at w s) req s (ok rr) (get req ∷ [])
  unfolding reconcile
  reconcile_live s l = rw (default_live s l, converts_live s l)

  calls_live :
      (s : DnsRecord)
      → IsLive spec s
      → calls deps w req s ≡ (converted deps (world_at w s) req s (ok rr) (get req ∷ [])).1
  unfolding calls
  calls_live s l = ap (λ (x : Outcome × List Call). x.1) (reconcile_live s l)

  lookup_live :
      (s : DnsRecord) (log : List Call)
      → lookup deps (world_at w s) rr log
        ≡ (ok true, exchange (codes "udp") (question deps w rr) ∷ log)
  unfolding lookup
  lookup_live s log = rw (σ.answers log, σ.whole log, σ.found log)

  pub calls_free :
      (s : DnsRecord)
      → IsLive spec s
      → has_finalizer s.metadata.finalizers ≡ false
      → calls deps w req s
        ≡ update (record s {
          metadata = record s.metadata {
            finalizers = s.metadata.finalizers ++ record_finalizer ∷ [];
          };
        })
          ∷ get req
          ∷ []
  calls_free s l free = calls_live s l ∙ (unfold converted in rw (l.live, free))

  calls_held :
      (s : DnsRecord)
      → IsLive spec s
      → has_finalizer s.metadata.finalizers ≡ true
      → calls deps w req s
        ≡ (provided deps (world_at w s) rr s (noop_provider s) (provide s ∷ get req ∷ [])).1
  calls_held s l held = calls_live s l ∙ (unfold converted call_provider in rw (l.live, held))

  status_moved_self : (o : DnsRecord) → status_moved o.status o.status ≡ false
  unfolding status_moved
  status_moved_self o = ground (arith, text_eq_refl o.status.provider, text_eq_refl o.status.id)

  pub calls_unprinted :
      (s : DnsRecord)
      → IsLive spec s
      → has_finalizer s.metadata.finalizers ≡ true
      → text_eq s.status.printed (deps.rr_string rr) ≡ false
      → calls deps w req s
        ≡ update_status (record s { status = record s.status { printed = deps.rr_string rr } })
          ∷ provide s
          ∷ get req
          ∷ []
  calls_unprinted s l held new =
      calls_held s l held ∙ (unfold provided noop_provider in rw (status_moved_self s, new))

  calls_printed :
      (s : DnsRecord)
      → IsLive spec s
      → has_finalizer s.metadata.finalizers ≡ true
      → text_eq s.status.printed (deps.rr_string rr) ≡ true
      → calls deps w req s
        ≡ (verified deps
            (world_at w s)
            s
            (ok true)
            (exchange (codes "udp") (question deps w rr) ∷ provide s ∷ get req ∷ [])).1
  calls_printed s l held old =
      calls_held s l held
      ∙ (unfold provided noop_provider in
          rw (status_moved_self s, old, lookup_live s (provide s ∷ get req ∷ [])))

  pub calls_settled :
      (s : DnsRecord)
      → IsLive spec s
      → IsSettled deps rr s
      → calls deps w req s
        ≡ event (codes "Success") (codes "record active")
          ∷ exchange (codes "udp") (question deps w rr)
          ∷ provide s
          ∷ get req
          ∷ []
  calls_settled s l d =
      calls_printed s l d.held ((text_eq_iff _ _).1 d.printed)
      ∙ (unfold verified to_bool_d record_state in rw (d.active, l.same, σ.wanted))

  pub calls_inactive :
      (s : DnsRecord)
      → IsLive spec s
      → has_finalizer s.metadata.finalizers ≡ true
      → text_eq s.status.printed (deps.rr_string rr) ≡ true
      → to_bool_d s.status.active false ≡ false
      → calls deps w req s
        ≡ update_status (record s { status = record s.status { active = some true } })
          ∷ exchange (codes "udp") (question deps w rr)
          ∷ provide s
          ∷ get req
          ∷ []
  calls_inactive s l held old off = calls_printed s l held old ∙ (unfold verified in rw off)

  pub round_of_calls :
      (s : DnsRecord) (c : Call) (rest : List Call)
      → calls deps w req s ≡ c ∷ rest
      → is_write c ≡ true
      → writes rest ≡ 0
      → round deps w server req s ≡ server.apply s c
  unfolding round
  round_of_calls s c rest e h k =
      ap (stored server w s) e
      ∙ rw (h, σ.accepts rest c) (ap (λ x. server.apply x c) (stored_unwritten server w s rest k))
