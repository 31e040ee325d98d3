-- ===== src/Controllers/Owners/Names.antt =====
-- The names of the records that a Service asks for are distinct.
use mathlib.Core.List.{append_cancel_left}
use k8s_dns_manager.Prelude.{
  ℕ, suc, ◌<◌, ◌≡◌, refl, ◌∙◌, ◌≢◌, none, List, [], ◌∷◌, Text, codes, Result, ok, err, text_eq_iff,
  All, arith,
}
use k8s_dns_manager.GoStrings.{replace_byte}
use k8s_dns_manager.GoStrings.ParseUint.{decimal_inj}
use k8s_dns_manager.Deps.{Deps}
use k8s_dns_manager.Api.{ObjectMeta, DnsRecord}
use k8s_dns_manager.Webhook.Default.{default}
use k8s_dns_manager.Controllers.Children.{Ownership, find, record_name, diff_records}
use k8s_dns_manager.Controllers.Children.Differences.{
  HasUniqueNames, Matches, after, diff_records-Matches,
}
use k8s_dns_manager.Controllers.Owners.{
  Service, address_record, address_loop, addresses_of, cons_result, service_records,
  service_annotation, ttl_of,
}

-- SetControllerReference documents that it sets the owner reference; the name, the specification
-- and the annotations stay.
pub record KeepsRecord (o : Ownership) : Type 0 where
  pub name :
      (owner : ObjectMeta) (r r' : DnsRecord)
      → o.set_controller owner r ≡ ok r'
      → r'.metadata.name ≡ r.metadata.name
  pub spec :
      (owner : ObjectMeta) (r r' : DnsRecord) → o.set_controller owner r ≡ ok r' → r'.spec ≡ r.spec
  pub annotations :
      (owner : ObjectMeta) (r r' : DnsRecord)
      → o.set_controller owner r ≡ ok r'
      → r'.metadata.annotations ≡ r.metadata.annotations

pub record_name_inj :
    (name typ host : Text) (i j : ℕ)
    → record_name name typ host i ≡ record_name name typ host j
    → i ≡ j
unfolding record_name
record_name_inj name typ host i j e = decimal_inj i j (
    append_cancel_left (codes "-") _ _ (
      append_cancel_left (replace_byte (replace_byte host b'.' (codes "-")) b'*' (codes "wildcard"))
        _ _
        (append_cancel_left (codes "-") _ _ (
          append_cancel_left typ _ _
            (append_cancel_left (codes "-") _ _ (append_cancel_left name _ _ e))))))

pub find-of_other :
    (n : Text) (rs : List DnsRecord) → All (λ r. n ≢ r.metadata.name) rs → find n rs ≡ none
unfolding find
find-of_other n [] h = refl
find-of_other n (r ∷ rs) h = ground (arith, find-of_other n rs h.1, text_eq_iff n r.metadata.name)

pub cons_result-eq-ok :
    (r : Result DnsRecord) (rs : Result (List DnsRecord)) (want : List DnsRecord)
    → cons_result r rs ≡ ok want
    → (v : DnsRecord) × (vs : List DnsRecord) × (r ≡ ok v) × (rs ≡ ok vs) × (want ≡ v ∷ vs)
cons_result-eq-ok (ok v) (ok vs) want e = (v, vs, refl, refl, ground arith)
cons_result-eq-ok (ok v) (err x) want e = cc
cons_result-eq-ok (err x) rs want e = cc

module _ (deps : Deps) (o : Ownership) (kept : KeepsRecord o) (annotation typ : Text)
    (owner : ObjectMeta) (host : Text) (ttl : ℕ) where
  abbrev name_at : ℕ → Text
  name_at = record_name owner.name typ host

  pub named :
      (i : ℕ) (ip : Text)
      → (default deps (address_record annotation typ owner host ttl i ip)).metadata.name ≡ name_at i
  unfolding default address_record
  named i ip = refl

  -- the records of a loop from index `i` on have names other than those of earlier indices
  names_from :
      (k i : ℕ) (ips : List Text) (want : List DnsRecord)
      → k < i
      → address_loop deps o annotation typ owner host ttl i ips ≡ ok want
      → All (λ r. name_at k ≢ r.metadata.name) want
  unfolding address_loop
  names_from k i [] want h e = let nil : want ≡ [] = ground arith in rw nil tt
  names_from k i (ip ∷ ips) want h e =
      let (v, vs, here, later, same) = cons_result-eq-ok _ _ want e in
      rw same (
        λ q.
            let i_is : k ≡ i =
              record_name_inj owner.name typ host k i (q ∙ kept.name owner _ v here ∙ named i ip) in
            omega arith,
        names_from k (suc i) ips vs (omega arith) later,
      )

  pub address_loop-HasUniqueNames :
      (i : ℕ) (ips : List Text) (want : List DnsRecord)
      → address_loop deps o annotation typ owner host ttl i ips ≡ ok want
      → HasUniqueNames want
  unfolding address_loop
  address_loop-HasUniqueNames i [] want e = let nil : want ≡ [] = ground arith in rw nil tt
  address_loop-HasUniqueNames i (ip ∷ ips) want e =
      let (v, vs, here, later, same) = cons_result-eq-ok _ _ want e in
      let v_named = kept.name owner _ v here ∙ named i ip in
      rw same (
        rw v_named (find-of_other (name_at i) vs (names_from i (suc i) ips vs (omega arith) later)),
        address_loop-HasUniqueNames (suc i) ips vs later,
      )

-- If SetControllerReference keeps what it documents, the diff of a Service's children with the
-- records that the Service asks for leaves, for each name, a record exactly if one is asked for,
-- and with the specification, annotations and owners asked for.
pub service_diff-Matches :
    (deps : Deps) (o : Ownership) (svc : Service) (hostname : Text) (got want : List DnsRecord)
    (n : Text)
    → KeepsRecord o
    → service_records deps o svc hostname ≡ ok want
    → Matches (after (diff_records got want) got n) (find n want)
unfolding service_records
service_diff-Matches deps o svc hostname got want n kept e = diff_records-Matches got want n (
    address_loop-HasUniqueNames deps o kept service_annotation (codes "svc") svc.metadata hostname
      (ttl_of svc.metadata) 0 (addresses_of svc.addresses) want e)
