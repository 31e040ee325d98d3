-- ===== src/Libdns/Rounds/Settled.antt =====
-- Two rounds of the controller with a libdns provider at a live object.
use k8s_dns_manager.Prelude.{
  ◌≡◌, refl, sym, ◌∙◌, ap, subst, true, false, none, some, List, [], ◌∷◌, ◌++◌, Text, codes, ok,
  text_eq_iff, arith, Bool-cases, inl, inr,
}
use k8s_dns_manager.Api.{DnsRecord, DnsRecordStatus}
use k8s_dns_manager.Controllers.{update_status, get, provide, exchange, event}
use k8s_dns_manager.Controllers.Server.{stored}
use k8s_dns_manager.Controllers.Finalizers.{has_finalizer}
use k8s_dns_manager.Controllers.Records.Providers.{calls_of_accepted, calls_of_changed}
use k8s_dns_manager.Controllers.Records.{question, status_moved}
use k8s_dns_manager.Controllers.Records.Convergence.{
  Setting, IsLive, IsSettled, calls, calls_settled,
}
use k8s_dns_manager.Controllers.Records.Rounds.{second_round, third_round, after_update_status}
use k8s_dns_manager.Libdns.{LibRecord, ClientCall, get_records, append_records}
use k8s_dns_manager.Libdns.Names.{make_record, fqdn_rec}
use k8s_dns_manager.Libdns.Provider.{Answer, with_status, listed, find_id, same_record}
use k8s_dns_manager.Libdns.Provider.Stable.{same_record-IsStable}
use k8s_dns_manager.Libdns.Provider.Store.{is_foreign, resumed, reconcile-listed}
use k8s_dns_manager.Libdns.Provider.Outcomes.{
  Achieved, Ensured, is_unwanted-not_IsUnwanted, listed-Achieved,
}
use k8s_dns_manager.Libdns.Rounds.{State, answer_of, calls_of, client_after, round_of}
use k8s_dns_manager.Libdns.Rounds.Carried.{
  Site, zone, live-IsRead, live-wanted, IsPlainRound, plain_round, calls_of-carried,
  IsCarried-round, IsCarried,
}

module _ (σ : Setting) (t : Site σ) where
  open σ use {deps, world as w, server, req, spec, rr}
  open t use {provider as p, store, domain as d, long, registrable}

  -- The first reconciliation with an answer that is ok.
  module _ (x : State) (l : IsLive spec x.object)
      (held : has_finalizer x.object.metadata.finalizers ≡ true)
      (ours : is_foreign p x.object ≡ false)
      (accepted : (answer_of deps p x x.object).0.ok ≡ true) where
    -- What is wanted of the client.
    abbrev wish : LibRecord
    wish = make_record deps rr (zone σ t) x.object.status.id

    ensured :
        Ensured deps
          (resumed p x.client)
          x.object
          (zone σ t)
          wish
          (store.contents x.client (zone σ t))
          (get_records (zone σ t) ∷ [])
          (answer_of deps p x x.object)
    ensured =
        let q = resumed p x.client in
        let recs = store.contents x.client (zone σ t) in
        let e : answer_of deps p x x.object
            ≡ listed deps q x.object rr (zone σ t) recs none (get_records (zone σ t) ∷ []) =
          reconcile-listed deps p store x.object rr d x.client t.unfailing
            (live-IsRead σ t x.object l) ours in
        let a =
          subst (Achieved deps q x.object rr (zone σ t) recs (get_records (zone σ t) ∷ [])) (sym e)
            (listed-Achieved deps q x.object rr (zone σ t) recs none (get_records (zone σ t) ∷ [])
              (subst (λ (b : Answer). b.0.ok ≡ true) e accepted)) in
        elim a [
          | inl (unwanted, _) ↦
              absurd (is_unwanted-not_IsUnwanted x.object (live-wanted σ t x.object l) unwanted)
          | inr (_, e') ↦ e'
        ]

    -- The object prints its record after a plain round.
    plain_printed : (y : State) → IsPlainRound σ t x y → y.object.status.printed ≡ deps.rr_string rr
    plain_printed y r =
        let (_, _, printed) = second_round σ x.object l held in
        ap (λ (o : DnsRecord). o.status.printed) r.object ∙ printed

    -- The client has created the record `y`, whose id the status of the object says.
    created_there :
        (z : State) (y : LibRecord) (log : List ClientCall)
        → p.client.on_append (log ++ x.client) (zone σ t) wish ≡ ok (y ∷ [])
        → z.object.status.id ≡ y.id
        → z.client ≡ append_records (zone σ t) wish ∷ (log ++ x.client)
        → (r : LibRecord) × (find_id z.object.status.id (store.contents z.client (zone σ t))
            ≡ some r)
          × (same_record deps p
                (fqdn_rec deps p.absolute_name r (zone σ t))
                (make_record deps rr (zone σ t) z.object.status.id)
              ≡ true)
    unfolding make_record
    created_there z y log made same_id calls = (
      y,
      rw (same_id, calls) (store.created (log ++ x.client) (zone σ t) wish y made),
      same_record-IsStable deps p (zone σ t) wish y (t.stable x.object.status.id)
          (store.populated (log ++ x.client) (zone σ t) wish y made),
    )

    same_status :
        (id : Text)
        → status_moved (with_status x.object p.name id).status x.object.status ≡ false
        → (p.name ≡ x.object.status.provider) × (id ≡ x.object.status.id)
    unfolding status_moved
    same_status id h =
        ground
          (arith, text_eq_iff p.name x.object.status.provider, text_eq_iff id x.object.status.id)

    own_status : (o : DnsRecord) → o.status.provider ≡ p.name → is_foreign p o ≡ false
    own_status o e = ground (arith, text_eq_iff o.status.provider p.name)

    -- What a round leaves.
    abbrev IsCarriedPrinted : State → Type 0
    IsCarriedPrinted z = IsCarried σ t z × (z.object.status.printed ≡ deps.rr_string rr)

    -- The status names another provider or id than before, and is written.
    moved_round :
        (y : LibRecord) (log : List ClientCall)
        → p.client.on_append (log ++ x.client) (zone σ t) wish ≡ ok (y ∷ [])
        → (answer_of deps p x x.object).0.changed ≡ with_status x.object p.name y.id
        → (answer_of deps p x x.object).1 ≡ append_records (zone σ t) wish ∷ log
        → status_moved (with_status x.object p.name y.id).status x.object.status ≡ true
        → IsCarriedPrinted (round_of deps p w req server x)
    unfolding calls_of round_of client_after
    moved_round y log made changed calls moved =
        let r = with_status x.object p.name y.id in
        let r' = record r { status = record r.status { printed = deps.rr_string rr } } in
        let e =
          calls_of_changed σ x.object l held (λ log v. (answer_of deps p x v).0) r accepted changed
            (rw moved refl) in
        let (l', held', status) = after_update_status σ x.object r' l held in
        let o =
          ap (stored server w x.object) e
          ∙ rw (σ.accepts (provide x.object ∷ get req ∷ []) (update_status r')) refl in
        let c = ap (client_after deps p x) e ∙ ap (λ a. a ++ x.client) calls in
        (
          record {
            live = rw o l';
            held = rw o held';
            ours =
                own_status (round_of deps p w req server x).object
                  (rw o (ap (λ (t : DnsRecordStatus). t.provider) status));
            there =
                created_there (round_of deps p w req server x) y log made
                  (rw o (ap (λ (t : DnsRecordStatus). t.id) status)) c;
          },
          rw o (ap (λ (t : DnsRecordStatus). t.printed) status),
        )

    -- The status stays what it was.
    still_round :
        (y : LibRecord) (log : List ClientCall)
        → p.client.on_append (log ++ x.client) (zone σ t) wish ≡ ok (y ∷ [])
        → (answer_of deps p x x.object).0.changed ≡ with_status x.object p.name y.id
        → (answer_of deps p x x.object).1 ≡ append_records (zone σ t) wish ∷ log
        → status_moved (with_status x.object p.name y.id).status x.object.status ≡ false
        → IsCarriedPrinted (round_of deps p w req server x)
    unfolding calls_of
    still_round y log made changed calls still =
        let (same_provider, same_id) = same_status y.id still in
        let same : with_status x.object p.name y.id ≡ x.object =
          λ i. with_status x.object (same_provider i) (same_id i) in
        let r = plain_round σ t x l held (
          calls_of_accepted σ x.object l held (λ log v. (answer_of deps p x v).0) accepted
            (changed ∙ same)) in
        (
          record {
            live = r.live;
            held = r.held;
            ours = rw r.same_provider ours;
            there =
                created_there (round_of deps p w req server x) y log made (r.same_id ∙ sym same_id)
                  (r.client ∙ ap (λ a. a ++ x.client) calls);
          },
          plain_printed (round_of deps p w req server x) r,
        )

    first_carried : IsCarriedPrinted (round_of deps p w req server x)
    first_carried = elim ensured [
      | inl (r, f, same, unchanged, calls) ↦
          let (y, c, _) =
            IsCarried-round σ t x
              (record { live = l; held = held; ours = ours; there = (r, f, same) }) in
          (c, plain_printed (round_of deps p w req server x) y)
      | inr (y, log, made, changed, calls) ↦
          elim (Bool-cases
            (status_moved (with_status x.object p.name y.id).status x.object.status)) [
              | inl moved ↦ moved_round y log made changed calls moved
              | inr still ↦ still_round y log made changed calls still
            ]
    ]

    -- With a libdns provider over a client that keeps what it documents and whose GetRecords
    -- answers without an error, where no write to the API server fails, let the stored object be
    -- an active DNSRecord that is live, defaulted, and holds the finalizer, whose name has a
    -- registrable domain, whose name and target are absolute and in the zone, whose status names no other provider, and for which the provider answers
    -- ok. Then two reconciliations bring it to rest, if the verification server answers with the
    -- record: the status prints the record and says active, the zone has the record of the
    -- status's id, which reads as what is wanted, and a further reconciliation writes nothing,
    -- ends in the event Success, and only lists the zone.
    pub two_rounds-IsSettled :
        let z = round_of deps p w req server (round_of deps p w req server x) in
        IsSettled deps rr z.object
        × IsCarried σ t z
        × (calls_of deps p w req z
            ≡ event (codes "Success") (codes "record active")
              ∷ exchange (codes "udp") (question deps w rr)
              ∷ provide z.object
              ∷ get req
              ∷ [])
        × ((round_of deps p w req server z).client ≡ get_records (zone σ t) ∷ z.client)
    two_rounds-IsSettled =
        let (c, printed) = first_carried in
        let y = round_of deps p w req server x in
        let (r, c', _) = IsCarried-round σ t y c in
        let (_, settled) = third_round σ y.object (c.live, c.held, printed) in
        let z = round_of deps p w req server y in
        let settled' : IsSettled deps rr z.object = rw r.object settled in
        let (_, _, listing) = IsCarried-round σ t z c' in
        (
          settled',
          c',
          calls_of-carried σ t z c' ∙ calls_settled σ z.object c'.live settled',
          listing,
        )
