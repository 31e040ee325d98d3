-- ===== src/Libdns/Provider/Failures.antt =====
-- What a reconciliation of the libdns provider leaves of the DNSRecord when it does not answer ok.
use k8s_dns_manager.Prelude.{
  ◌≡◌, refl, true, not, ◌&&◌, ◌⊎◌, inl, inr, Option, none, some, List, [], ◌∷◌, Text, codes, Error,
  Result, ok, err, text_eq, Bool-cases, length, ltb,
}
use k8s_dns_manager.GoStrings.{join}
use k8s_dns_manager.Deps.{Deps, Rr}
use k8s_dns_manager.Api.{DnsRecord}
use k8s_dns_manager.Record.{to_rr}
use k8s_dns_manager.Controllers.{Reconciled}
use k8s_dns_manager.Libdns.{LibRecord, ClientCall, delete_records}
use k8s_dns_manager.Libdns.Names.{make_record, fqdn_rec}
use k8s_dns_manager.Libdns.Provider.{
  Prov, find_id, find_same, is_unwanted, is_fatal, same_record, append, appended, removed, remove,
  create, recreate, update, ensure, listed, in_domain, converted, reconcile,
}

module _ (deps : Deps) (p : Prov) (rec : DnsRecord) where
  -- the record is as it was, unless the answer is ok
  abbrev pub IsKept : Reconciled → Type 0
  IsKept r = (r.ok ≡ true) ⊎ (r.changed ≡ rec)

  appended-IsKept : (res : Result (List LibRecord)) → IsKept (appended deps p rec res)
  unfolding appended
  appended-IsKept (err e) = inr refl
  appended-IsKept (ok []) = inr refl
  appended-IsKept (ok (x ∷ [])) = inl refl
  appended-IsKept (ok (x ∷ y ∷ xs)) = inr refl

  append-IsKept :
      (zone : Text) (want : LibRecord) (log : List ClientCall)
      → IsKept (append deps p rec zone want log).0
  unfolding append
  append-IsKept zone want log = appended-IsKept (p.client.on_append log zone want)

  removed-IsKept : (res : Option Error) → IsKept (removed deps p rec res)
  unfolding removed
  removed-IsKept none = inl refl
  removed-IsKept (some e) = inr refl

  remove-IsKept :
      (zone : Text) (r : Option LibRecord) (log : List ClientCall)
      → IsKept (remove deps p rec zone r log).0
  unfolding remove
  remove-IsKept zone none log = inl refl
  remove-IsKept zone (some r) log = removed-IsKept (p.client.on_delete log zone r)

  recreate-IsKept :
      (zone : Text) (want : LibRecord) (e : Option Error) (log : List ClientCall)
      → IsKept (recreate deps p rec zone want e log).0
  unfolding recreate
  recreate-IsKept zone want none log = append-IsKept zone want log
  recreate-IsKept zone want (some e) log = inr refl

  create-IsKept :
      (zone : Text) (want : LibRecord) (found : Option LibRecord) (log : List ClientCall)
      → IsKept (create deps p rec zone want found log).0
  unfolding create
  create-IsKept zone want none log = append-IsKept zone want log
  create-IsKept zone want (some v) log = inr refl

  ensure-IsKept :
      (zone : Text) (want : LibRecord) (recs : List LibRecord) (r : Option LibRecord)
      (log : List ClientCall)
      → IsKept (ensure deps p rec zone want recs r log).0
  unfolding ensure update
  ensure-IsKept zone want recs none log =
      create-IsKept zone want (find_same deps p want zone recs) log
  ensure-IsKept zone want recs (some r) log =
      let r' = fqdn_rec deps p.absolute_name r zone in
      elim (Bool-cases (same_record deps p r' want)) [
        | inl same ↦ rw same (inl refl)
        | inr old ↦ rw old (
            recreate-IsKept zone want (p.client.on_delete log zone r')
              (delete_records zone r' ∷ log))
      ]

  listed-IsKept :
      (rr : Rr) (zone : Text) (recs : List LibRecord) (e : Option Error) (log : List ClientCall)
      → IsKept (listed deps p rec rr zone recs e log).0
  unfolding listed
  listed-IsKept rr zone recs e log = elim (Bool-cases (is_fatal e rec.status.id)) [
    | inl fatal ↦ rw fatal (inr refl)
    | inr fine ↦ elim (Bool-cases (is_unwanted rec)) [
      | inl gone ↦ rw (fine, gone) (remove-IsKept zone (find_id rec.status.id recs) log)
      | inr kept ↦
          rw (fine, kept)
            (ensure-IsKept zone (make_record deps rr zone rec.status.id) recs
              (find_id rec.status.id recs) log)
    ]
  ]

  in_domain-IsKept : (rr : Rr) (d : Result Text) → IsKept (in_domain deps p rec rr d).0
  unfolding in_domain
  in_domain-IsKept rr (err e) = inr refl
  in_domain-IsKept rr (ok d) = listed-IsKept rr (deps.fqdn d) _ _ _

  converted-IsKept : (r : Result Rr) → IsKept (converted deps p rec r).0
  unfolding converted
  converted-IsKept (err e) = inr refl
  converted-IsKept (ok rr) =
      elim (Bool-cases (ltb (length (deps.split_domain_name rr.header.name)) 2)) [
        | inl short ↦ rw short (inr refl)
        | inr long ↦ rw long (
            in_domain-IsKept rr
              (deps.domain (join (deps.split_domain_name rr.header.name) (codes "."))))
      ]

  -- A reconciliation that does not answer ok, for whatever reason and after whatever calls,
  -- returns the DNSRecord as it was.
  pub reconcile-IsKept : IsKept (reconcile deps p rec).0
  unfolding reconcile
  reconcile-IsKept =
      elim (Bool-cases
        (not (text_eq rec.status.provider []) && not (text_eq rec.status.provider p.name))) [
          | inl foreign ↦ rw foreign (inr refl)
          | inr ours ↦ rw ours (converted-IsKept (to_rr deps rec))
        ]
