-- ===== src/Controllers/Records/Rounds.antt =====
-- The rounds of Controllers/Records/Convergence.antt, one after the other.
use k8s_dns_manager.Prelude.{
  ◌≡◌, refl, ◌∙◌, ap, Bool, true, false, ◌⊎◌, Option, none, some, ◌∷◌, [], codes, text_eq,
  text_eq_iff, Bool-cases, inl, inr,
}
use k8s_dns_manager.Ptr.{to_bool_d}
use k8s_dns_manager.Api.{DnsRecordStatus, DnsRecord}
use k8s_dns_manager.Controllers.{get, update, update_status, provide, exchange, event}
use k8s_dns_manager.Controllers.Server.{stored}
use k8s_dns_manager.Controllers.Finalizers.{has_finalizer}
use k8s_dns_manager.Controllers.Records.{question}
use k8s_dns_manager.Controllers.Records.Convergence.{
  Setting, IsLive, IsSettled, calls, round, has_finalizer-append, calls_free, calls_unprinted,
  calls_inactive, calls_settled, round_of_calls,
}

module _ (σ : Setting) where
  open σ use {deps, world as w, server, req, spec, rr}

  pub after_update :
      (s r : DnsRecord)
      → IsLive spec s
      → r.spec ≡ s.spec
      → has_finalizer r.metadata.finalizers ≡ true
      → IsLive spec (server.apply s (update r))
        × (has_finalizer (server.apply s (update r)).metadata.finalizers ≡ true)
  after_update s r l same held = (
    record {
      same = server.update-spec s r ∙ same ∙ l.same;
      live = server.update-deletion s r ∙ l.live;
    },
    ap has_finalizer (server.update-finalizers s r) ∙ held,
  )

  pub after_update_status :
      (s r : DnsRecord)
      → IsLive spec s
      → has_finalizer s.metadata.finalizers ≡ true
      → IsLive spec (server.apply s (update_status r))
        × (has_finalizer (server.apply s (update_status r)).metadata.finalizers ≡ true)
        × ((server.apply s (update_status r)).status ≡ r.status)
  after_update_status s r l held = (
    record {
      same = server.update_status-spec s r ∙ l.same;
      live = server.update_status-deletion s r ∙ l.live;
    },
    ap has_finalizer (server.update_status-finalizers s r) ∙ held,
    server.update_status-status s r,
  )

  -- the object is live, holds the finalizer and prints its record
  abbrev pub IsPrinted : DnsRecord → Type 0
  IsPrinted s =
      IsLive spec s
      × (has_finalizer s.metadata.finalizers ≡ true)
      × (s.status.printed ≡ deps.rr_string rr)

  pub is_active_cases : (o : Option Bool) → (to_bool_d o false ≡ false) ⊎ (o ≡ some true)
  unfolding to_bool_d
  is_active_cases none = inl refl
  is_active_cases (some true) = inr refl
  is_active_cases (some false) = inl refl

  pub round_settled :
      (s : DnsRecord) → IsLive spec s → IsSettled deps rr s → round deps w server req s ≡ s
  unfolding round
  round_settled s l d = ap (stored server w s) (calls_settled σ s l d)

  pub third_round :
      (s : DnsRecord)
      → IsPrinted s
      → IsLive spec (round deps w server req s) × IsSettled deps rr (round deps w server req s)
  third_round s (l, held, old) = elim (is_active_cases s.status.active) [
    | inl off ↦
        let r = record s { status = record s.status { active = some true } } in
        let (l', held', status') = after_update_status s r l held in
        rw
          (round_of_calls σ s _ _ (calls_inactive σ s l held ((text_eq_iff _ _).1 old) off) refl
            refl)
          (
            l',
            record {
              held = held';
              printed = ap (λ (x : DnsRecordStatus). x.printed) status' ∙ old;
              active = ap (λ (x : DnsRecordStatus). x.active) status';
            },
          )
    | inr on ↦
        let d : IsSettled deps rr s = record { held = held; printed = old; active = on } in
        rw (round_settled s l d) (l, d)
  ]

  pub second_round :
      (s : DnsRecord)
      → IsLive spec s
      → has_finalizer s.metadata.finalizers ≡ true
      → IsPrinted (round deps w server req s)
  second_round s l held = elim (Bool-cases (text_eq s.status.printed (deps.rr_string rr))) [
    | inl old ↦
        let (l', d) = third_round s (l, held, (text_eq_iff _ _).0 old) in (l', d.held, d.printed)
    | inr new ↦
        let r = record s { status = record s.status { printed = deps.rr_string rr } } in
        let (l', held', status') = after_update_status s r l held in
        rw (round_of_calls σ s _ _ (calls_unprinted σ s l held new) refl refl)
          (l', held', ap (λ (x : DnsRecordStatus). x.printed) status')
  ]

  first_round :
      (s : DnsRecord)
      → IsLive spec s
      → IsLive spec (round deps w server req s)
        × (has_finalizer (round deps w server req s).metadata.finalizers ≡ true)
  first_round s l = elim (Bool-cases (has_finalizer s.metadata.finalizers)) [
    | inl held ↦ let (l', held', _) = second_round s l held in (l', held')
    | inr free ↦
        rw (round_of_calls σ s _ _ (calls_free σ s l free) refl refl)
          (after_update s _ l refl (has_finalizer-append s.metadata.finalizers))
  ]

  -- With the CoreDNS provider, three reconciliations bring the stored object of a live, active
  -- DNSRecord that the webhook has defaulted, whatever its finalizers and status, to a settled
  -- one, if no write fails and the verification server answers with the record: it holds the
  -- finalizer, its status prints the record and says active. A further reconciliation then writes
  -- nothing and ends in the event Success.
  pub three_rounds-IsSettled :
      (s : DnsRecord)
      → IsLive spec s
      → let t = round deps w server req (round deps w server req (round deps w server req s)) in
        IsSettled deps rr t
        × (calls deps w req t
            ≡ event (codes "Success") (codes "record active")
              ∷ exchange (codes "udp") (question deps w rr)
              ∷ provide t
              ∷ get req
              ∷ [])
  three_rounds-IsSettled s l =
      let (l₁, held) = first_round s l in
      let (l₃, d) = third_round _ (second_round _ l₁ held) in (d, calls_settled σ _ l₃ d)
