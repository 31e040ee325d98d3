-- ===== src/Libdns/Rounds/Carried.antt =====
-- Rounds of the controller at an object whose record the zone has already.
use k8s_dns_manager.Prelude.{
  ◌≡◌, refl, ◌∙◌, ap, true, false, none, some, List, [], ◌∷◌, ◌++◌, Text, codes, ok, text_eq,
  text_eq_iff, length, ltb, Bool-cases, inl, inr, Option, Bool, not,
}
use k8s_dns_manager.GoStrings.{join}
use k8s_dns_manager.Ptr.{to_bool_d}
use k8s_dns_manager.Api.{DnsRecord, DnsRecordStatus}
use k8s_dns_manager.Controllers.{Call, get, update_status, provide, exchange}
use k8s_dns_manager.Controllers.Server.{stored, writes}
use k8s_dns_manager.Controllers.Finalizers.{has_finalizer}
use k8s_dns_manager.Controllers.Records.Providers.{calls_of_accepted}
use k8s_dns_manager.Controllers.Records.{question}
use k8s_dns_manager.Controllers.Records.Convergence.{
  Setting, IsLive, IsSettled, calls, round, converts_live, calls_unprinted, calls_inactive,
  calls_settled, round_of_calls,
}
use k8s_dns_manager.Controllers.Records.Rounds.{round_settled, is_active_cases, after_update_status}
use k8s_dns_manager.Libdns.{LibRecord, get_records}
use k8s_dns_manager.Libdns.Names.{make_record, fqdn_rec}
use k8s_dns_manager.Libdns.Provider.{Prov, Answer, accept, find_id, same_record, is_unwanted}
use k8s_dns_manager.Libdns.Provider.Stable.{IsStable}
use k8s_dns_manager.Libdns.Provider.Store.{Store, Unfailing, IsRead, is_foreign}
use k8s_dns_manager.Libdns.Provider.Repeats.{repeated}
use k8s_dns_manager.Libdns.Rounds.{State, answer_of, calls_of, client_after, round_of}

is_unwanted_active :
    (o : Option Bool) → to_bool_d o true ≡ true → (elim o [ none ↦ false | some b ↦ not b ]) ≡ false
unfolding to_bool_d
is_unwanted_active none e = refl
is_unwanted_active (some true) e = refl
is_unwanted_active (some false) e = cc

-- The provider, its client, whose GetRecords answers without an error, and the zone of a record
-- whose name has a registrable domain, and whose name and target are absolute and in the zone.
pub record Site (σ : Setting) : Type 0 where
  pub provider : Prov
  pub store : Store σ.deps provider
  pub unfailing : Unfailing provider
  pub domain : Text
  pub long : ltb (length (σ.deps.split_domain_name σ.rr.header.name)) 2 ≡ false
  pub registrable :
      σ.deps.domain (join (σ.deps.split_domain_name σ.rr.header.name) (codes ".")) ≡ ok domain
  pub stable :
      (id : Text)
      → IsStable σ.deps (σ.deps.fqdn domain) (make_record σ.deps σ.rr (σ.deps.fqdn domain) id)

module _ (σ : Setting) (t : Site σ) where
  open σ use {deps, world as w, server, req, spec, rr}
  open t use {provider as p, store, domain as d, long, registrable}

  abbrev pub zone : Text
  zone = deps.fqdn d

  -- The object is live and held, its status is the provider's, and the zone has the record of its id
  -- that reads as what is wanted.
  pub record IsCarried (x : State) : Type 0 where
    pub live : IsLive spec x.object
    pub held : has_finalizer x.object.metadata.finalizers ≡ true
    pub ours : is_foreign p x.object ≡ false
    pub there :
        (r : LibRecord) × (find_id x.object.status.id (store.contents x.client zone) ≡ some r)
        × (same_record deps p
              (fqdn_rec deps p.absolute_name r zone)
              (make_record deps rr zone x.object.status.id)
            ≡ true)

  pub live-IsRead : (s : DnsRecord) → IsLive spec s → IsRead deps s rr d
  live-IsRead s l = record { conversion = converts_live σ s l; long = long; domain = registrable }

  pub live-wanted : (s : DnsRecord) → IsLive spec s → is_unwanted s ≡ false
  unfolding is_unwanted to_bool_d
  live-wanted s l = rw (l.live, l.same) (is_unwanted_active spec.active σ.wanted)

  answer-carried :
      (x : State)
      → IsCarried x
      → answer_of deps p x x.object ≡ (accept x.object, get_records zone ∷ [])
  answer-carried x c =
      let (r, f, same) = c.there in
      repeated deps p store t.unfailing x.object rr d x.client r (live-IsRead x.object c.live)
        c.ours (live-wanted x.object c.live) f same

  -- A round in which the controller makes the calls that it makes with the provider of noop.go: what it
  -- leaves of the object, and the calls of the client.
  pub record IsPlainRound (x y : State) : Type 0 where
    pub live : IsLive spec y.object
    pub held : has_finalizer y.object.metadata.finalizers ≡ true
    pub same_id : y.object.status.id ≡ x.object.status.id
    pub same_provider : y.object.status.provider ≡ x.object.status.provider
    pub object : y.object ≡ round deps w server req x.object
    pub client : y.client ≡ (answer_of deps p x x.object).1 ++ x.client

  module _ (x : State) (l : IsLive spec x.object)
      (held : has_finalizer x.object.metadata.finalizers ≡ true)
      (plain : calls_of deps p w req x ≡ calls deps w req x.object) where
    round_of-object : (round_of deps p w req server x).object ≡ round deps w server req x.object
    unfolding round_of round
    round_of-object = ap (stored server w x.object) plain

    round_of-client :
        (rest : List Call)
        → calls deps w req x.object ≡ rest
        → (round_of deps p w req server x).client ≡ client_after deps p x rest
    unfolding round_of
    round_of-client rest e = ap (client_after deps p x) (plain ∙ e)

    -- A round that writes a status of the same provider and id.
    written_round :
        (r : DnsRecord) (rest : List Call)
        → calls deps w req x.object ≡ update_status r ∷ rest
        → writes rest ≡ 0
        → client_after deps p x (update_status r ∷ rest)
          ≡ (answer_of deps p x x.object).1 ++ x.client
        → r.status.id ≡ x.object.status.id
        → r.status.provider ≡ x.object.status.provider
        → IsPlainRound x (round_of deps p w req server x)
    written_round r rest e quiet h same_id same_provider =
        let (l', held', status) = after_update_status σ x.object r l held in
        let o = round_of-object ∙ round_of_calls σ x.object _ rest e refl quiet in
        record {
          live = rw o l';
          held = rw o held';
          same_id = rw o (ap (λ (y : DnsRecordStatus). y.id) status ∙ same_id);
          same_provider = rw o (ap (λ (y : DnsRecordStatus). y.provider) status ∙ same_provider);
          object = round_of-object;
          client = round_of-client _ e ∙ h;
        }

    pub plain_round : IsPlainRound x (round_of deps p w req server x)
    unfolding client_after
    plain_round =
        let s = x.object in
        let asked = exchange (codes "udp") (question deps w rr) ∷ provide s ∷ get req ∷ [] in
        elim (Bool-cases (text_eq s.status.printed (deps.rr_string rr))) [
          | inr new ↦
              written_round _ (provide s ∷ get req ∷ []) (calls_unprinted σ s l held new) refl refl
                refl refl
          | inl old ↦ elim (is_active_cases σ s.status.active) [
            | inl off ↦
                written_round _ asked (calls_inactive σ s l held old off) refl refl refl refl
            | inr on ↦
                let settled : IsSettled deps rr s = record {
                  held = held;
                  printed = (text_eq_iff _ _).0 old;
                  active = on;
                } in
                let o = round_of-object ∙ round_settled σ s l settled in
                record {
                  live = rw o l;
                  held = rw o held;
                  same_id = rw o refl;
                  same_provider = rw o refl;
                  object = round_of-object;
                  client = round_of-client _ (calls_settled σ s l settled);
                }
          ]
        ]

  -- At an object that is carried out the controller does what it does with the provider of noop.go.
  pub calls_of-carried :
      (x : State) → IsCarried x → calls_of deps p w req x ≡ calls deps w req x.object
  unfolding calls_of
  calls_of-carried x c =
      calls_of_accepted σ x.object c.live c.held (λ log r. (answer_of deps p x r).0)
        (ap (λ (a : Answer). a.0.ok) (answer-carried x c))
        (ap (λ (a : Answer). a.0.changed) (answer-carried x c))

  pub IsCarried-round :
      (x : State)
      → IsCarried x
      → IsPlainRound x (round_of deps p w req server x)
        × IsCarried (round_of deps p w req server x)
        × ((round_of deps p w req server x).client ≡ get_records zone ∷ x.client)
  IsCarried-round x c =
      let y = plain_round x c.live c.held (calls_of-carried x c) in
      let calls = y.client ∙ ap (λ (a : Answer). a.1 ++ x.client) (answer-carried x c) in
      let (r, f, same) = c.there in
      (
        y,
        record {
          live = y.live;
          held = y.held;
          ours = rw y.same_provider c.ours;
          there = (r, rw (y.same_id, calls, store.listing x.client zone zone) f, rw y.same_id same);
        },
        calls,
      )
