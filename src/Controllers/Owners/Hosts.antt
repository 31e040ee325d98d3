-- ===== src/Controllers/Owners/Hosts.antt =====
-- The records that an Ingress asks for, by its hosts.
use mathlib.Core.List.{Memᴰ}
use k8s_dns_manager.Prelude.{
  ◌≡◌, refl, ap, sym, ◌∙◌, false, List, [], ◌∷◌, ◌++◌, Text, codes, Result, ok, err, All,
  All-append_first, All-append_last, text_eq, arith, Bool-cases, inl, inr,
}
use k8s_dns_manager.Deps.{Deps}
use k8s_dns_manager.Api.{DnsRecord}
use k8s_dns_manager.Controllers.Children.{Ownership}
use k8s_dns_manager.Controllers.Owners.{
  Ingress, append_result, address_loop, host_loop, ingress_records, ingress_annotation, ttl_of,
  addresses_of,
}

pub append_result-eq-ok :
    {A : Type 0} (r s : Result (List A)) (all : List A)
    → append_result r s ≡ ok all
    → (xs ys : List A) × (r ≡ ok xs) × (s ≡ ok ys) × (all ≡ xs ++ ys)
append_result-eq-ok (err e) s all h = cc
append_result-eq-ok (ok xs) (err e) all h = cc
append_result-eq-ok (ok xs) (ok ys) all h = (xs, ys, refl, refl, ground (arith, h))

module _ (deps : Deps) (o : Ownership) (ing : Ingress) where
  abbrev pub host_records : Text → Result (List DnsRecord)
  host_records host =
      address_loop deps o ingress_annotation (codes "ing") ing.metadata host (ttl_of ing.metadata) 0
        (addresses_of ing.addresses)

  -- The records of the host are among those of the hosts.
  host_loop-includes :
      (P : DnsRecord → Type 0) (host : Text) (hosts : List Text) (want : List DnsRecord)
      → Memᴰ host hosts
      → text_eq host [] ≡ false
      → host_loop deps o ing hosts ≡ ok want
      → All P want
      → (part : List DnsRecord) × (host_records host ≡ ok part) × All P part
  unfolding host_loop
  host_loop-includes P host [] want m full e there = elim m [ ]
  host_loop-includes P host (h ∷ hosts) want (Memᴰ.head same) full e there =
      let (xs, ys, first, rest, all) =
        append_result-eq-ok (host_records h) (host_loop deps o ing hosts) want
          (rw (sym (ap (λ t. text_eq t []) same) ∙ full) at e) in
      (xs, ap host_records same ∙ first, All-append_first P xs ys (rw all at there))
  host_loop-includes P host (h ∷ hosts) want (Memᴰ.tail m) full e there =
      elim (Bool-cases (text_eq h [])) [
        | inl empty ↦ host_loop-includes P host hosts want m full (rw empty at e) there
        | inr other ↦
            let (xs, ys, first, rest, all) =
              append_result-eq-ok (host_records h) (host_loop deps o ing hosts) want
                (rw other at e) in
            host_loop-includes P host hosts ys m full rest
              (All-append_last P xs ys (rw all at there))
      ]

  pub ingress_records-includes :
      (P : DnsRecord → Type 0) (host : Text) (want : List DnsRecord)
      → Memᴰ host ing.hosts
      → text_eq host [] ≡ false
      → ingress_records deps o ing ≡ ok want
      → All P want
      → (part : List DnsRecord) × (host_records host ≡ ok part) × All P part
  unfolding ingress_records
  ingress_records-includes P host want m full e there =
      host_loop-includes P host ing.hosts want m full e there
