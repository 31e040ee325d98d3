-- ===== src/Libdns/Provider/Outcomes.antt =====
-- What a reconciliation of the libdns provider has achieved, or left as it was.
use k8s_dns_manager.Prelude.{
  ◌≡◌, refl, is_some, true, false, not, ◌&&◌, ◌⊎◌, inl, inr, Option, none, some, List, [], ◌∷◌,
  Text, codes, Error, Result, ok, err, text_eq, arith, Bool-cases, length, ltb,
}
use k8s_dns_manager.GoStrings.{join}
use k8s_dns_manager.Deps.{Deps, Rr}
use k8s_dns_manager.Api.{DnsRecord}
use k8s_dns_manager.Record.{to_rr}
use k8s_dns_manager.Libdns.{LibRecord, ClientCall, get_records, append_records, delete_records}
use k8s_dns_manager.Libdns.Names.{make_record, fqdn_rec}
use k8s_dns_manager.Libdns.Provider.{
  Prov, Answer, with_status, find_id, is_unwanted, same_record, append, appended, removed, is_fatal,
  remove, create, recreate, update, ensure, listed, in_domain, converted, reconcile,
}

-- The record is marked for deletion, or deactivated.
abbrev pub IsUnwanted : DnsRecord → Type 0
IsUnwanted r = (is_some r.metadata.deletion_timestamp ≡ true) ⊎ (r.spec.active ≡ some false)

pub is_unwanted-IsUnwanted : (r : DnsRecord) → is_unwanted r ≡ true → IsUnwanted r
unfolding is_unwanted
is_unwanted-IsUnwanted r h = ground arith

pub is_unwanted-not_IsUnwanted : (r : DnsRecord) → is_unwanted r ≡ false → ¬ IsUnwanted r
unfolding is_unwanted
is_unwanted-not_IsUnwanted r h = ground arith

module _ (deps : Deps) (p : Prov) (rec : DnsRecord) where
  -- Either nothing of the id was listed or the client deleted it, and the status is cleared.
  abbrev pub Removed : Text → List LibRecord → List ClientCall → Answer → Type 0
  Removed zone recs log a =
      (a.0.changed ≡ with_status rec [] [])
      × (((find_id rec.status.id recs ≡ none) × (a.1 ≡ log))
          ⊎ ((r : LibRecord) × (find_id rec.status.id recs ≡ some r)
              × (p.client.on_delete log zone r ≡ none)
              × (a.1 ≡ delete_records zone r ∷ log)))

  -- The client has created the wanted record, alone, and the status says its id and this provider.
  abbrev pub Created : Text → LibRecord → Answer → Type 0
  Created zone want a =
      (x : LibRecord) × (log : List ClientCall) × (p.client.on_append log zone want ≡ ok (x ∷ []))
      × (a.0.changed ≡ with_status rec p.name x.id)
      × (a.1 ≡ append_records zone want ∷ log)

  -- A record of the id was listed that says what is wanted, the status stays, and nothing is called.
  abbrev pub UpToDate : Text → LibRecord → List LibRecord → List ClientCall → Answer → Type 0
  UpToDate zone want recs log a =
      (r : LibRecord) × (find_id rec.status.id recs ≡ some r)
      × (same_record deps p (fqdn_rec deps p.absolute_name r zone) want ≡ true)
      × (a.0.changed ≡ rec)
      × (a.1 ≡ log)

  appended-ok :
      (res : Result (List LibRecord))
      → (appended deps p rec res).ok ≡ true
      → (x : LibRecord) × (res ≡ ok (x ∷ []))
        × ((appended deps p rec res).changed ≡ with_status rec p.name x.id)
  unfolding appended
  appended-ok (err e) h = cc
  appended-ok (ok []) h = cc
  appended-ok (ok (x ∷ [])) h = (x, refl, refl)
  appended-ok (ok (x ∷ y ∷ xs)) h = cc

  append-Created :
      (zone : Text) (want : LibRecord) (log : List ClientCall)
      → (append deps p rec zone want log).0.ok ≡ true
      → Created zone want (append deps p rec zone want log)
  unfolding append
  append-Created zone want log h =
      let (x, e, c) = appended-ok (p.client.on_append log zone want) h in (x, log, e, c, refl)

  removed-ok :
      (res : Option Error)
      → (removed deps p rec res).ok ≡ true
      → (res ≡ none) × ((removed deps p rec res).changed ≡ with_status rec [] [])
  unfolding removed
  removed-ok none h = (refl, refl)
  removed-ok (some e) h = cc

  remove-Removed :
      (zone : Text) (recs : List LibRecord) (r : Option LibRecord) (log : List ClientCall)
      → find_id rec.status.id recs ≡ r
      → (remove deps p rec zone r log).0.ok ≡ true
      → Removed zone recs log (remove deps p rec zone r log)
  unfolding remove
  remove-Removed zone recs none log f h = (refl, inl (f, refl))
  remove-Removed zone recs (some r) log f h =
      let (e, c) = removed-ok (p.client.on_delete log zone r) h in (c, inr (r, f, e, refl))

  recreate-Created :
      (zone : Text) (want : LibRecord) (e : Option Error) (log : List ClientCall)
      → (recreate deps p rec zone want e log).0.ok ≡ true
      → Created zone want (recreate deps p rec zone want e log)
  unfolding recreate
  recreate-Created zone want none log h = append-Created zone want log h
  recreate-Created zone want (some e) log h = cc

  create-Created :
      (zone : Text) (want : LibRecord) (found : Option LibRecord) (log : List ClientCall)
      → (create deps p rec zone want found log).0.ok ≡ true
      → Created zone want (create deps p rec zone want found log)
  unfolding create
  create-Created zone want none log h = append-Created zone want log h
  create-Created zone want (some v) log h = cc

  abbrev pub Ensured : Text → LibRecord → List LibRecord → List ClientCall → Answer → Type 0
  Ensured zone want recs log a = UpToDate zone want recs log a ⊎ Created zone want a

  ensure-Ensured :
      (zone : Text) (want : LibRecord) (recs : List LibRecord) (r : Option LibRecord)
      (log : List ClientCall)
      → find_id rec.status.id recs ≡ r
      → (ensure deps p rec zone want recs r log).0.ok ≡ true
      → Ensured zone want recs log (ensure deps p rec zone want recs r log)
  unfolding ensure update
  ensure-Ensured zone want recs none log f h = inr (create-Created zone want _ log h)
  ensure-Ensured zone want recs (some r) log f h =
      let r' = fqdn_rec deps p.absolute_name r zone in
      elim (Bool-cases (same_record deps p r' want)) [
        | inl same ↦ rw same (inl (r, f, same, refl, refl))
        | inr old ↦ rw old (
            inr (
              recreate-Created zone want (p.client.on_delete log zone r')
                (delete_records zone r' ∷ log) (rw old at h)))
      ]

  -- What an answer with ok has achieved: without the wish for the record it is gone, and with it
  -- the record is there.
  abbrev pub Achieved : Rr → Text → List LibRecord → List ClientCall → Answer → Type 0
  Achieved rr zone recs log a =
      (IsUnwanted rec × Removed zone recs log a)
      ⊎ ((¬ IsUnwanted rec) × Ensured zone (make_record deps rr zone rec.status.id) recs log a)

  pub listed-Achieved :
      (rr : Rr) (zone : Text) (recs : List LibRecord) (e : Option Error) (log : List ClientCall)
      → (listed deps p rec rr zone recs e log).0.ok ≡ true
      → Achieved rr zone recs log (listed deps p rec rr zone recs e log)
  unfolding listed
  listed-Achieved rr zone recs e log h = elim (Bool-cases (is_fatal e rec.status.id)) [
    | inl fatal ↦ absurd (ground arith)
    | inr fine ↦ elim (Bool-cases (is_unwanted rec)) [
      | inl gone ↦
          rw (fine, gone)
            (inl (
              is_unwanted-IsUnwanted rec gone,
              remove-Removed zone recs _ log refl (rw (fine, gone) at h),
            ))
      | inr kept ↦
          rw (fine, kept)
            (inr (
              is_unwanted-not_IsUnwanted rec kept,
              ensure-Ensured zone (make_record deps rr zone rec.status.id) recs _ log refl
                  (rw (fine, kept) at h),
            ))
    ]
  ]

  in_domain-Achieved :
      (rr : Rr) (d : Result Text)
      → (in_domain deps p rec rr d).0.ok ≡ true
      → (zone : Text) × Achieved rr zone
          (p.client.on_get [] zone).0
          (get_records zone ∷ [])
          (in_domain deps p rec rr d)
  unfolding in_domain
  in_domain-Achieved rr (err e) h = cc
  in_domain-Achieved rr (ok d) h = (deps.fqdn d, listed-Achieved rr (deps.fqdn d) _ _ _ h)

  converted-Achieved :
      (r : Result Rr)
      → (converted deps p rec r).0.ok ≡ true
      → (rr : Rr) × (zone : Text) × (r ≡ ok rr)
        × Achieved rr zone
            (p.client.on_get [] zone).0
            (get_records zone ∷ [])
            (converted deps p rec r)
  unfolding converted
  converted-Achieved (err e) h = cc
  converted-Achieved (ok rr) h =
      let parts = deps.split_domain_name rr.header.name in
      elim (Bool-cases (ltb (length parts) 2)) [
        | inl short ↦ absurd (ground arith)
        | inr long ↦
            let (zone, a) =
              in_domain-Achieved rr (deps.domain (join parts (codes "."))) (rw long at h) in
            (rr, zone, refl, rw long a)
      ]

  -- A reconciliation that answers ok has done what the DNSRecord asks for, in the zone whose
  -- records it listed. A record that is marked for deletion or deactivated: no record of its id
  -- was listed or the client deleted it, and the provider and the id of the status are cleared.
  -- Any other record: either a record of its id was listed that, with its names made absolute,
  -- says what is wanted, and nothing is changed; or the client created the wanted record and no
  -- other, and the status names this provider and the id that the client gave.
  pub reconcile-Achieved :
      (reconcile deps p rec).0.ok ≡ true
      → (rr : Rr) × (zone : Text) × (to_rr deps rec ≡ ok rr)
        × Achieved rr zone
            (p.client.on_get [] zone).0
            (get_records zone ∷ [])
            (reconcile deps p rec)
  unfolding reconcile
  reconcile-Achieved h =
      elim (Bool-cases
        (not (text_eq rec.status.provider []) && not (text_eq rec.status.provider p.name))) [
          | inl foreign ↦ absurd (ground arith)
          | inr ours ↦ rw ours (converted-Achieved (to_rr deps rec) (rw ours at h))
        ]
