-- ===== src/Coredns/Sync/Held.antt =====
-- The records of the table and the zones after `sync`.
use k8s_dns_manager.Prelude.{
  ℕ, ◌≡◌, ◌≢◌, ◌⊎◌, is_empty, refl, ap, ◌∙◌, subst, Option, none, some, List, [], ◌∷◌, Text, Error,
  All, text_eq, text_eq_iff, text_eq_refl, lookup, lookup-insert, arith, Bool-cases, inl, inr,
}
use k8s_dns_manager.Deps.{Deps, Ip, Rr, type_soa, type_ns}
use k8s_dns_manager.Coredns.{
  ZoneLib, Zones, Provider, default_hostmaster, default_ttl, default_apex,
}
use k8s_dns_manager.Coredns.Sync.{
  Place, malformed, unplaced, in_zone, place, enter, round_zones, fill, zone_of, with_soa,
  soa_record, with_address, complete, go_on, complete_all, sync, or_text, or_number,
}

-- What file.Zone documents of its records: a record that Insert takes is held from then on. An SOA
-- or NS record may be replaced by another one.
pub record Holding (lib : ZoneLib) : Type 1 where
  pub holds : lib.Zone → Rr → Type 0
  pub holds-insert :
      (z : lib.Zone) (r : Rr) → (lib.insert z r).1 ≡ none → holds (lib.insert z r).0 r
  pub holds-later :
      (z : lib.Zone) (r v : Rr)
      → v.header.rrtype ≢ type_soa
      → holds z v
      → holds (lib.insert z r).0 v
  pub holds-set_soa :
      (z : lib.Zone) (r v : Rr) → v.header.rrtype ≢ type_soa → holds z v → holds (lib.set_soa z r) v
  pub holds-set_ns :
      (z : lib.Zone) (rs : List Rr) (v : Rr)
      → v.header.rrtype ≢ type_ns
      → holds z v
      → holds (lib.set_ns z rs) v

All-lookup {ℓ κ} :
    {V : Type ℓ} (Q : V → Type κ) (t : Text) (m : List (Text × V)) (v : V)
    → All (λ kv. Q kv.1) m
    → lookup t m ≡ some v
    → Q v
unfolding lookup
All-lookup Q t [] v h e = cc
All-lookup Q t ((k, x) ∷ m) v h e = elim (Bool-cases (text_eq k t)) [
  | inl same ↦ let here : x ≡ v = ground arith in subst Q here h.0
  | inr other ↦ All-lookup Q t m v h.1 (rw other at e)
]

module _ (deps : Deps) (lib : ZoneLib) (hold : Holding lib) where
  -- A record that every zone takes, of no type that a zone replaces.
  pub record IsPlain (v : Rr) : Type 0 where
    pub accepted : (z : lib.Zone) → (lib.insert z v).1 ≡ none
    pub no_soa : v.header.rrtype ≢ type_soa
    pub no_ns : v.header.rrtype ≢ type_ns

  abbrev pub IsHeld : List (Text × lib.Zone) → Text → Rr → Type 0
  IsHeld table n v = (z : lib.Zone) × (lookup n table ≡ some z) × hold.holds z v

  enter-IsHeld :
      (n : Text) (v : Rr) (zs : Zones lib) → IsPlain v → IsHeld (enter deps lib n v zs).table n v
  unfolding enter
  enter-IsHeld n v zs p = (
    (lib.insert (zone_of deps lib n zs) v).0,
    ground (
      arith,
      lookup-insert n n (lib.insert (zone_of deps lib n zs) v).0 zs.table,
      text_eq_refl n,
    ),
    hold.holds-insert _ v (p.accepted _),
  )

  enter-keeps_IsHeld :
      (n k : Text) (r v : Rr) (zs : Zones lib)
      → IsPlain v
      → IsHeld zs.table n v
      → IsHeld (enter deps lib k r zs).table n v
  unfolding enter
  enter-keeps_IsHeld n k r v zs p (z, there, h) = elim (Bool-cases (text_eq k n)) [
    | inl same ↦
        let found : lookup k zs.table ≡ some z =
          ap (λ j. lookup j zs.table) ((text_eq_iff k n).0 same) ∙ there in
        (
          (lib.insert z r).0,
          rw
              (
                lookup-insert k n (lib.insert (zone_of deps lib k zs) r).0 zs.table,
                same,
                zone_of,
                found,
              )
              refl,
          hold.holds-later z r v p.no_soa h,
        )
    | inr other ↦ (
      z,
      rw (lookup-insert k n (lib.insert (zone_of deps lib k zs) r).0 zs.table, other) there,
      h,
    )
  ]

  round_zones-keeps_IsHeld :
      (n : Text) (p : Place) (r v : Rr) (zs : Zones lib)
      → IsPlain v
      → IsHeld zs.table n v
      → IsHeld (round_zones deps lib r p zs).table n v
  unfolding round_zones
  round_zones-keeps_IsHeld n (malformed _) r v zs p h = h
  round_zones-keeps_IsHeld n unplaced r v zs p h = h
  round_zones-keeps_IsHeld n (in_zone k) r v zs p h = enter-keeps_IsHeld n k r v zs p h

  fill-keeps_IsHeld :
      (n : Text) (v : Rr) (records : List (Text × Rr)) (zs : Zones lib) (merr : List Error)
      → IsPlain v
      → IsHeld zs.table n v
      → IsHeld (fill deps lib records zs merr).0.table n v
  unfolding fill
  fill-keeps_IsHeld n v [] zs merr p h = h
  fill-keeps_IsHeld n v ((_, r) ∷ records) zs merr p h =
      fill-keeps_IsHeld n v records _ _ p (round_zones-keeps_IsHeld n (place deps lib r) r v zs p h)

  -- A plain record is held by the zone of the name that it has its place in.
  abbrev pub IsThere : List (Text × lib.Zone) → Rr → Type 0
  IsThere table v = (n : Text) → place deps lib v ≡ in_zone n → IsPlain v → IsHeld table n v

  round_zones-IsHeld :
      (n : Text) (p : Place) (v : Rr) (records : List (Text × Rr)) (zs : Zones lib)
      (merr : List Error)
      → p ≡ in_zone n
      → IsPlain v
      → IsHeld (fill deps lib records (round_zones deps lib v p zs) merr).0.table n v
  unfolding round_zones
  round_zones-IsHeld n (malformed _) v records zs merr e p = cc
  round_zones-IsHeld n unplaced v records zs merr e p = cc
  round_zones-IsHeld n (in_zone k) v records zs merr e p =
      let same : n ≡ k = ground arith in
      subst (λ j. IsHeld (fill deps lib records (enter deps lib j v zs) merr).0.table n v) same
        (fill-keeps_IsHeld n v records (enter deps lib n v zs) merr p (enter-IsHeld n v zs p))

  fill-IsThere :
      (records : List (Text × Rr)) (zs : Zones lib) (merr : List Error)
      → All (λ kv. IsThere (fill deps lib records zs merr).0.table kv.1) records
  unfolding fill
  fill-IsThere [] zs merr = tt
  fill-IsThere ((_, v) ∷ records) zs merr = (
    λ n e p. round_zones-IsHeld n (place deps lib v) v records zs _ e p,
    fill-IsThere records _ _,
  )

  module _ (hostmaster apex : Text) (ttl : ℕ) (external : Option Ip) where
    with_address-keeps_IsHeld :
        (k : Text) (z : lib.Zone) (e : Option Ip) (v : Rr)
        → IsPlain v
        → hold.holds z v
        → hold.holds (with_address deps lib hostmaster apex ttl external k z e).0 v
    unfolding with_address
    with_address-keeps_IsHeld k z none v p h = h
    with_address-keeps_IsHeld k z (some ip) v p h = hold.holds-later z _ v p.no_soa h

    with_soa-keeps_IsHeld :
        (k : Text) (z : lib.Zone) (v : Rr)
        → IsPlain v
        → hold.holds z v
        → hold.holds (with_soa deps lib hostmaster apex ttl external k z) v
    unfolding with_soa
    with_soa-keeps_IsHeld k z v p h =
        let soa = soa_record deps lib hostmaster apex ttl external k in
        elim (lib.soa z) as (λ o. hold.holds (elim o [ none ↦ lib.set_soa z soa | some _ ↦ z ]) v) [
          | none ↦ hold.holds-set_soa z soa v p.no_soa h
          | some _ ↦ h
        ]

    complete-keeps_IsHeld :
        (k : Text) (z : lib.Zone) (v : Rr)
        → IsPlain v
        → hold.holds z v
        → hold.holds (complete deps lib hostmaster apex ttl external k z).0 v
    unfolding complete
    complete-keeps_IsHeld k z v p h =
        let z' = with_soa deps lib hostmaster apex ttl external k z in
        let h' = with_soa-keeps_IsHeld k z v p h in
        elim (Bool-cases (is_empty (lib.ns z'))) [
          | inl bare ↦
              rw bare
                (with_address-keeps_IsHeld k _ external v p (hold.holds-set_ns z' _ v p.no_ns h'))
          | inr full ↦ rw full h'
        ]

    -- the zones behind a round, whether the loop goes on or not
    go_on-IsHeld :
        (k : Text) (z : lib.Zone) (e : Option Error) (zs : List (Text × lib.Zone))
        (rest : List (Text × lib.Zone) × Option Error) (n : Text) (v : Rr)
        → ((k ≡ n) × hold.holds z v) ⊎ ((k ≢ n) × IsHeld zs n v × IsHeld rest.0 n v)
        → IsHeld (go_on deps lib hostmaster apex ttl external k z e zs rest).0 n v
    unfolding go_on lookup
    go_on-IsHeld k z none zs rest n v (inl (same, h)) = (z, ground (arith, text_eq_iff k n), h)
    go_on-IsHeld k z (some e) zs rest n v (inl (same, h)) = (z, ground (arith, text_eq_iff k n), h)
    go_on-IsHeld k z none zs rest n v (inr (other, old, (x, there, h))) =
        (x, ground (arith, text_eq_iff k n), h)
    go_on-IsHeld k z (some e) zs rest n v (inr (other, (x, there, h), new)) =
        (x, ground (arith, text_eq_iff k n), h)

    complete_all-IsHeld :
        (zs : List (Text × lib.Zone)) (n : Text) (v : Rr)
        → IsPlain v
        → IsHeld zs n v
        → IsHeld (complete_all deps lib hostmaster apex ttl external zs).0 n v
    unfolding complete_all lookup
    complete_all-IsHeld [] n v p (z, there, h) = cc
    complete_all-IsHeld ((k, x) ∷ zs) n v p (z, there, h) = elim (Bool-cases (text_eq k n)) [
      | inl same ↦
          let here : z ≡ x = ground arith in
          go_on-IsHeld k _ _ zs _ n v (
            inl (
              (text_eq_iff k n).0 same,
              complete-keeps_IsHeld k x v p (subst (λ y. hold.holds y v) here h),
            ))
      | inr other ↦
          let held : IsHeld zs n v = (z, rw other at there, h) in
          go_on-IsHeld k _ _ zs _ n v
            (inr (λ e. ground (arith, text_eq_iff k n), held, complete_all-IsHeld zs n v p held))
    ]

  -- After `sync` every record of the table of a type other than SOA and NS that every zone takes, and
  -- whose name has a registrable domain, is held by the zone of that domain.
  pub sync-IsThere :
      (p : Provider lib) (t : Text) (v : Rr)
      → lookup t p.records ≡ some v
      → IsThere (sync deps lib p).0.zones.table v
  unfolding sync
  sync-IsThere p t v e n placed plain =
      let zs = (fill deps lib p.records (record { table = []; names = [] }) []).0 in
      complete_all-IsHeld (or_text default_hostmaster p.hostmaster) (or_text default_apex p.apex)
        (or_number default_ttl p.ttl) p.external_address zs.table n v plain
        (All-lookup (λ x. IsThere zs.table x) t p.records v
          (fill-IsThere p.records (record { table = []; names = [] }) []) e n placed plain)
