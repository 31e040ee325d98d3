-- ===== src/Libdns/Provider/Contents.antt =====
-- What a zone has after a reconciliation of the libdns provider, over a client that keeps what it
-- documents.
use k8s_dns_manager.Prelude.{
  ◌≡◌, refl, sym, ◌∙◌, subst, true, false, inl, inr, none, some, List, [], ◌∷◌, Text, text_eq_iff,
  ◌⊎◌, arith,
}
use k8s_dns_manager.Deps.{Deps, Rr}
use k8s_dns_manager.Api.{DnsRecord}
use k8s_dns_manager.Libdns.{LibRecord, get_records}
use k8s_dns_manager.Libdns.Names.{make_record, fqdn_rec}
use k8s_dns_manager.Libdns.Provider.{
  Prov, Answer, with_status, find_id, same_record, listed, reconcile,
}
use k8s_dns_manager.Libdns.Provider.Outcomes.{Achieved, IsUnwanted, listed-Achieved}
use k8s_dns_manager.Libdns.Provider.Stable.{same_record-kept}
use k8s_dns_manager.Libdns.Provider.Store.{
  Store, Unfailing, is_foreign, IsRead, reconcile-IsRead, IsRead-of_ok,
}

module _ (deps : Deps) (p : Prov) (store : Store deps p) (unfailing : Unfailing p) where
  -- An answer with ok has achieved what it says in the contents of the zone.
  pub Achieved-of_ok :
      (rec : DnsRecord)
      → (reconcile deps p rec).0.ok ≡ true
      → (rr : Rr) × (d : Text) × IsRead deps rec rr d
        × (is_foreign p rec ≡ false)
        × Achieved deps p rec rr
            (deps.fqdn d)
            (store.contents [] (deps.fqdn d))
            (get_records (deps.fqdn d) ∷ [])
            (reconcile deps p rec)
  Achieved-of_ok rec h =
      let (rr, d, read, ours) = IsRead-of_ok deps p rec h in
      let zone = deps.fqdn d in
      let recs = store.contents [] zone in
      let e : reconcile deps p rec ≡ listed deps p rec rr zone recs none (get_records zone ∷ []) =
        reconcile-IsRead deps p rec rr d read ours
        ∙ rw (unfailing [] zone, store.lists [] zone (unfailing [] zone)) refl in
      (
        rr,
        d,
        read,
        ours,
        subst (Achieved deps p rec rr zone recs (get_records zone ∷ [])) (sym e) (
            listed-Achieved deps p rec rr zone recs none (get_records zone ∷ [])
              (subst (λ (a : Answer). a.0.ok ≡ true) e h)),
      )

  -- The record says what is wanted, as it is or once its names are made absolute.
  abbrev pub Says : Rr → Text → Text → LibRecord → Type 0
  Says rr zone id x =
      let want = make_record deps rr zone id in
      (same_record deps p x want ≡ true)
      ⊎ (same_record deps p (fqdn_rec deps p.absolute_name x zone) want ≡ true)

  -- What an answer with ok means for the zone: a record that is not wanted has nothing of its id there,
  -- and a wanted one has the record that the status names, which says what is wanted.
  abbrev pub IsCarriedOut : DnsRecord → Rr → Text → Answer → Type 0
  IsCarriedOut rec rr zone a =
      (IsUnwanted rec
        × (a.0.changed ≡ with_status rec [] [])
        × (find_id rec.status.id (store.contents a.1 zone) ≡ none))
      ⊎ ((¬ IsUnwanted rec)
          × ((x : LibRecord) × (find_id a.0.changed.status.id (store.contents a.1 zone) ≡ some x)
              × Says rr zone rec.status.id x))

  find_id-id : (i : Text) (vs : List LibRecord) (r : LibRecord) → find_id i vs ≡ some r → r.id ≡ i
  unfolding find_id
  find_id-id i [] r e = cc
  find_id-id i (v ∷ vs) r e = ground (arith, find_id-id i vs r, text_eq_iff v.id i)

  Achieved-IsCarriedOut :
      (rec : DnsRecord) (rr : Rr) (zone : Text) (a : Answer)
      → Achieved deps p rec rr zone (store.contents [] zone) (get_records zone ∷ []) a
      → IsCarriedOut rec rr zone a
  Achieved-IsCarriedOut rec rr zone a (inl (gone, (cleared, inl (absent, calls)))) =
      inl (gone, cleared, rw (calls, store.listing [] zone zone) absent)
  Achieved-IsCarriedOut rec rr zone a (inl (gone, (cleared, inr (r, f, done', calls)))) = inl (
    gone,
    cleared,
    rw (calls, sym (find_id-id rec.status.id (store.contents [] zone) r f))
        (store.deleted (get_records zone ∷ []) zone r done'),
  )
  Achieved-IsCarriedOut rec rr zone a (inr (wanted, inl (r, f, same, unchanged, calls))) =
      inr (wanted, (r, rw (unchanged, calls, store.listing [] zone zone) f, inr same))
  Achieved-IsCarriedOut rec rr zone a (inr (wanted, inr (x, log, made, changed, calls))) =
      let want = make_record deps rr zone rec.status.id in
      inr (
        wanted,
        (
          x,
          rw (changed, calls) (store.created log zone want x made),
          inl (same_record-kept deps p want x (store.populated log zone want x made)),
        ),
      )

  pub reconcile-IsCarriedOut :
      (rec : DnsRecord)
      → (reconcile deps p rec).0.ok ≡ true
      → (rr : Rr) × (d : Text) × IsRead deps rec rr d
        × IsCarriedOut rec rr (deps.fqdn d) (reconcile deps p rec)
  reconcile-IsCarriedOut rec h =
      let (rr, d, read, ours, a) = Achieved-of_ok rec h in
      (rr, d, read, Achieved-IsCarriedOut rec rr (deps.fqdn d) (reconcile deps p rec) a)
