-- ===== src/Libdns/Provider/Stable.antt =====
-- Which records of a zone FqdnRec of pkg/provider/libdns/libdns.go leaves as they are.
use k8s_dns_manager.Prelude.{
  ◌≡◌, refl, sym, subst, true, Text, [], ◌∷◌, codes, text_eq_refl, arith, Bool-cases, inl, inr,
}
use k8s_dns_manager.GoStrings.{has_suffix, replace}
use k8s_dns_manager.Deps.{Deps}
use k8s_dns_manager.Libdns.{LibRecord}
use k8s_dns_manager.Libdns.Names.{un_fqdn, unquote, is_one_of, fqdn, fqdn_value, fqdn_rec}
use k8s_dns_manager.Libdns.Provider.{Prov, same_record}

module _ (deps : Deps) where
  -- An absolute name, or a value that ends in one, in the zone.
  pub record IsInside (zone v : Text) : Type 0 where
    pub absolute : deps.fqdn v ≡ v
    pub ends : has_suffix v (deps.fqdn zone) ≡ true

  -- The names of the record are absolute and in the zone, and its value has no quotes or spaces at
  -- its ends and no quoted parts.
  pub record IsStable (zone : Text) (r : LibRecord) : Type 0 where
    pub name : IsInside zone r.name
    pub unquoted : unquote r.value ≡ r.value
    pub whole : replace r.value (codes "\" \"") [] ≡ r.value
    pub target :
        is_one_of r.rtype (codes "CNAME" ∷ codes "MX" ∷ codes "NS" ∷ codes "SRV" ∷ []) ≡ true
        → IsInside zone r.value

  module _ (absolute_name : Text → Text → Text) where
    fqdn-IsInside : (zone v : Text) → IsInside zone v → fqdn deps absolute_name v zone ≡ v
    unfolding fqdn
    fqdn-IsInside zone v i = elim (Bool-cases (has_suffix v (un_fqdn zone))) [
      | inl ends ↦ rw ends i.absolute
      | inr other ↦ rw (other, i.ends) refl
    ]

    fqdn_value-IsStable :
        (zone : Text) (r : LibRecord)
        → IsStable zone r
        → fqdn_value deps absolute_name r.rtype r.value zone ≡ r.value
    unfolding fqdn_value
    fqdn_value-IsStable zone r s =
        let texts = codes "A" ∷ codes "AAAA" ∷ codes "TXT" ∷ [] in
        let names = codes "CNAME" ∷ codes "MX" ∷ codes "NS" ∷ codes "SRV" ∷ [] in
        elim (Bool-cases (is_one_of r.rtype texts)) [
          | inl text ↦ rw (text, s.whole, s.unquoted) refl
          | inr no_text ↦ elim (Bool-cases (is_one_of r.rtype names)) [
            | inl named ↦
                rw (no_text, named, fqdn-IsInside zone r.value (s.target named), s.unquoted) refl
            | inr other ↦ rw (no_text, other) refl
          ]
        ]

  module _ (p : Prov) where
    same_record-id :
        (r : LibRecord) (id : Text) → same_record deps p (record r { id = id }) r ≡ true
    same_record-id r id =
        ground (arith, text_eq_refl r.name, text_eq_refl r.value, text_eq_refl r.rtype)

    -- A stable record that a client keeps under an id of its own reads as what was wanted.
    pub same_record-IsStable :
        (zone : Text) (want x : LibRecord)
        → IsStable zone want
        → x ≡ record want { id = x.id }
        → same_record deps p (fqdn_rec deps p.absolute_name x zone) want ≡ true
    unfolding fqdn_rec
    same_record-IsStable zone want x s e =
        subst (λ v. same_record deps p (fqdn_rec deps p.absolute_name v zone) want ≡ true) (sym e)
          (rw
            (
              fqdn-IsInside p.absolute_name zone want.name s.name,
              fqdn_value-IsStable p.absolute_name zone want s,
            )
            (same_record-id want x.id))

    -- As it was given it says what was wanted, stable or not.
    pub same_record-kept :
        (want x : LibRecord) → x ≡ record want { id = x.id } → same_record deps p x want ≡ true
    same_record-kept want x e =
        subst (λ v. same_record deps p v want ≡ true) (sym e) (same_record-id want x.id)
