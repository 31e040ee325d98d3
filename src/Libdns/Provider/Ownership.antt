-- ===== src/Libdns/Provider/Ownership.antt =====
-- What a reconciliation of the libdns provider may touch.
use k8s_dns_manager.Prelude.{
  ◌≡◌, refl, ◌⊎◌, inl, inr, Option, none, some, List, [], ◌∷◌, Text, Error, Result, ok, err,
  text_eq, text_eq_iff, All, arith, Bool-cases, codes,
}
use k8s_dns_manager.GoStrings.{join}
use k8s_dns_manager.Deps.{Deps, Rr}
use k8s_dns_manager.Api.{DnsRecord}
use k8s_dns_manager.Record.{to_rr}
use k8s_dns_manager.Libdns.{LibRecord, ClientCall, get_records, append_records, delete_records}
use k8s_dns_manager.Libdns.Names.{make_record, fqdn_rec}
use k8s_dns_manager.Libdns.Provider.{
  Prov, find_id, append, remove, create, recreate, update, ensure, listed, in_domain, converted,
  reconcile,
}

pub find_id-id :
    (id : Text) (vs : List LibRecord) (v : LibRecord) → find_id id vs ≡ some v → v.id ≡ id
unfolding find_id
find_id-id id [] v h = cc
find_id-id id (x ∷ vs) v h = ground (arith, find_id-id id vs v, text_eq_iff x.id id)

module _ (deps : Deps) (p : Prov) (rec : DnsRecord) where
  -- A call that changes records is about the id of the status.
  abbrev pub IsOwn : ClientCall → Type 0
  IsOwn (get_records _) = Unit
  IsOwn (append_records _ r) = r.id ≡ rec.status.id
  IsOwn (delete_records _ r) = r.id ≡ rec.status.id

  append-IsOwn :
      (zone : Text) (want : LibRecord) (log : List ClientCall)
      → want.id ≡ rec.status.id
      → All IsOwn log
      → All IsOwn (append deps p rec zone want log).1
  unfolding append
  append-IsOwn zone want log w h = (w, h)

  remove-IsOwn :
      (zone : Text) (r : Option LibRecord) (recs : List LibRecord) (log : List ClientCall)
      → find_id rec.status.id recs ≡ r
      → All IsOwn log
      → All IsOwn (remove deps p rec zone r log).1
  unfolding remove
  remove-IsOwn zone none recs log f h = h
  remove-IsOwn zone (some r) recs log f h = (find_id-id rec.status.id recs r f, h)

  update-IsOwn :
      (zone : Text) (want r : LibRecord) (log : List ClientCall)
      → want.id ≡ rec.status.id
      → r.id ≡ rec.status.id
      → All IsOwn log
      → All IsOwn (update deps p rec zone want r log).1
  unfolding update recreate append
  update-IsOwn zone want r log w own h = ground arith

  ensure-IsOwn :
      (zone : Text) (want : LibRecord) (recs : List LibRecord) (r : Option LibRecord)
      (log : List ClientCall)
      → want.id ≡ rec.status.id
      → find_id rec.status.id recs ≡ r
      → All IsOwn log
      → All IsOwn (ensure deps p rec zone want recs r log).1
  unfolding ensure create append
  ensure-IsOwn zone want recs none log w f h = ground arith
  ensure-IsOwn zone want recs (some r) log w f h =
      update-IsOwn zone want (fqdn_rec deps p.absolute_name r zone) log w
        (unfold fqdn_rec in find_id-id rec.status.id recs r f) h

  listed-IsOwn :
      (rr : Rr) (zone : Text) (recs : List LibRecord) (e : Option Error) (log : List ClientCall)
      → All IsOwn log
      → All IsOwn (listed deps p rec rr zone recs e log).1
  unfolding listed
  listed-IsOwn rr zone recs e log h = ground (
    arith,
    remove-IsOwn zone (find_id rec.status.id recs) recs log refl h,
    ensure-IsOwn zone (make_record deps rr zone rec.status.id) recs (find_id rec.status.id recs) log
        (unfold make_record in refl) refl h,
  )

  in_domain-IsOwn : (rr : Rr) (d : Result Text) → All IsOwn (in_domain deps p rec rr d).1
  unfolding in_domain
  in_domain-IsOwn rr (err e) = tt
  in_domain-IsOwn rr (ok d) = listed-IsOwn rr _ _ _ _ (tt, tt)

  converted-IsOwn : (r : Result Rr) → All IsOwn (converted deps p rec r).1
  unfolding converted
  converted-IsOwn (err e) = tt
  converted-IsOwn (ok rr) = ground (
    arith,
    in_domain-IsOwn rr (deps.domain (join (deps.split_domain_name rr.header.name) (codes "."))),
  )

  -- Every record that a reconciliation deletes or creates has the id of the DNSRecord's status,
  -- and a client is called only if the status names this provider or none.
  pub reconcile-IsOwn :
      All IsOwn (reconcile deps p rec).1
      × (((reconcile deps p rec).1 ≡ [])
          ⊎ ((rec.status.provider ≡ []) ⊎ (rec.status.provider ≡ p.name)))
  unfolding reconcile
  reconcile-IsOwn = elim (Bool-cases (text_eq rec.status.provider [])) [
    | inl free ↦ rw free (converted-IsOwn (to_rr deps rec), inr (inl ((text_eq_iff _ _).0 free)))
    | inr owned ↦ elim (Bool-cases (text_eq rec.status.provider p.name)) [
      | inl ours ↦
          rw (owned, ours) (converted-IsOwn (to_rr deps rec), inr (inr ((text_eq_iff _ _).0 ours)))
      | inr theirs ↦ rw (owned, theirs) (tt, inl refl)
    ]
  ]
