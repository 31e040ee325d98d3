-- ===== src/Coredns/Sync/Names.antt =====
-- The list of zone names and the map of zones after `sync`.
use k8s_dns_manager.Prelude.{
  ℕ, ◌≡◌, refl, ◌∙◌, Bool, true, ◌||◌, Option, List, [], ◌∷◌, ◌++◌, Text, Error, All, any, is_some,
  text_eq, text_eq_iff, lookup, lookup-insert, arith, text_eq_refl, codes, All-map,
}
use k8s_dns_manager.Deps.{Deps, Ip, Rr}
use k8s_dns_manager.Coredns.{ZoneLib, Zones, Provider}
use k8s_dns_manager.Coredns.Sync.{
  Place, malformed, unplaced, in_zone, place, enter, round_zones, fill, zone_of, complete_all, sync,
  or_text, or_number,
}

-- The names hold the text.
abbrev pub is_listed : Text → List Text → Bool
is_listed n = any (λ k. text_eq k n)

is_listed-append :
    (n k : Text) (ks : List Text) → is_listed n (ks ++ k ∷ []) ≡ (is_listed n ks || text_eq k n)
is_listed-append n k [] = ground arith
is_listed-append n k (j ∷ ks) = ground (arith, is_listed-append n k ks)

module _ (deps : Deps) (lib : ZoneLib) where
  -- A name is listed exactly if the map has a zone of the name.
  abbrev pub NamesAgree : List (Text × lib.Zone) → List Text → Type 0
  NamesAgree table names = (n : Text) → is_some (lookup n table) ≡ is_listed n names

  enter-NamesAgree :
      (zone : Text) (v : Rr) (zs : Zones lib)
      → NamesAgree zs.table zs.names
      → NamesAgree (enter deps lib zone v zs).table (enter deps lib zone v zs).names
  unfolding enter
  enter-NamesAgree zone v zs h n = ground (
    arith,
    lookup-insert zone n (lib.insert (zone_of deps lib zone zs) v).0 zs.table,
    is_listed-append n zone zs.names,
    h n,
    h zone,
    text_eq_iff zone n,
  )

  round_zones-NamesAgree :
      (v : Rr) (p : Place) (zs : Zones lib)
      → NamesAgree zs.table zs.names
      → NamesAgree (round_zones deps lib v p zs).table (round_zones deps lib v p zs).names
  unfolding round_zones
  round_zones-NamesAgree v (malformed _) zs h = h
  round_zones-NamesAgree v unplaced zs h = h
  round_zones-NamesAgree v (in_zone zone) zs h = enter-NamesAgree zone v zs h

  fill-NamesAgree :
      (records : List (Text × Rr)) (zs : Zones lib) (merr : List Error)
      → NamesAgree zs.table zs.names
      → NamesAgree (fill deps lib records zs merr).0.table (fill deps lib records zs merr).0.names
  unfolding fill
  fill-NamesAgree [] zs merr h = h
  fill-NamesAgree ((_, v) ∷ records) zs merr h =
      fill-NamesAgree records _ _ (round_zones-NamesAgree v (place deps lib v) zs h)

  -- Rounds only add names.
  enter-keeps :
      (zone : Text) (v : Rr) (zs : Zones lib) (n : Text)
      → is_some (lookup n zs.table) ≡ true
      → is_some (lookup n (enter deps lib zone v zs).table) ≡ true
  unfolding enter
  enter-keeps zone v zs n h =
      ground (arith, lookup-insert zone n (lib.insert (zone_of deps lib zone zs) v).0 zs.table)

  enter_self :
      (zone : Text) (v : Rr) (zs : Zones lib)
      → is_some (lookup zone (enter deps lib zone v zs).table) ≡ true
  unfolding enter
  enter_self zone v zs = ground (
    arith,
    lookup-insert zone zone (lib.insert (zone_of deps lib zone zs) v).0 zs.table,
    text_eq_refl zone,
  )

  round_zones-keeps :
      (v : Rr) (p : Place) (zs : Zones lib) (n : Text)
      → is_some (lookup n zs.table) ≡ true
      → is_some (lookup n (round_zones deps lib v p zs).table) ≡ true
  unfolding round_zones
  round_zones-keeps v (malformed _) zs n h = h
  round_zones-keeps v unplaced zs n h = h
  round_zones-keeps v (in_zone zone) zs n h = enter-keeps zone v zs n h

  fill-keeps :
      (records : List (Text × Rr)) (zs : Zones lib) (merr : List Error) (n : Text)
      → is_some (lookup n zs.table) ≡ true
      → is_some (lookup n (fill deps lib records zs merr).0.table) ≡ true
  unfolding fill
  fill-keeps [] zs merr n h = h
  fill-keeps ((_, v) ∷ records) zs merr n h =
      fill-keeps records _ _ n (round_zones-keeps v (place deps lib v) zs n h)

  -- The zone of a record is in the map, if the record has one.
  abbrev pub IsPlaced : List (Text × lib.Zone) → Place → Type 0
  IsPlaced table (malformed _) = Unit
  IsPlaced table unplaced = Unit
  IsPlaced table (in_zone zone) = is_some (lookup zone table) ≡ true

  fill-here :
      (v : Rr) (p : Place) (records : List (Text × Rr)) (zs : Zones lib) (merr : List Error)
      → IsPlaced (fill deps lib records (round_zones deps lib v p zs) merr).0.table p
  unfolding round_zones
  fill-here v (malformed _) records zs merr = tt
  fill-here v unplaced records zs merr = tt
  fill-here v (in_zone zone) records zs merr = fill-keeps records _ merr zone (enter_self zone v zs)

  fill-IsPlaced :
      (records : List (Text × Rr)) (zs : Zones lib) (merr : List Error)
      → All (λ kv. IsPlaced (fill deps lib records zs merr).0.table (place deps lib kv.1)) records
  unfolding fill
  fill-IsPlaced [] zs merr = tt
  fill-IsPlaced ((_, v) ∷ records) zs merr =
      (fill-here v (place deps lib v) records zs _, fill-IsPlaced records _ _)

  module _ (hostmaster apex : Text) (ttl : ℕ) (external : Option Ip) where
    complete_all-keys :
        (zs : List (Text × lib.Zone)) (n : Text)
        → is_some (lookup n (complete_all deps lib hostmaster apex ttl external zs).0)
          ≡ is_some (lookup n zs)
    unfolding complete_all lookup
    complete_all-keys [] n = refl
    complete_all-keys ((k, z) ∷ zs) n = ground (arith, complete_all-keys zs n)

  empty-NamesAgree : NamesAgree [] []
  unfolding lookup
  empty-NamesAgree n = refl

  IsPlaced-of_keys :
      (t t' : List (Text × lib.Zone))
      → ((n : Text) → is_some (lookup n t') ≡ is_some (lookup n t))
      → (p : Place) → IsPlaced t p
      → IsPlaced t' p
  IsPlaced-of_keys t t' h (malformed _) q = tt
  IsPlaced-of_keys t t' h unplaced q = tt
  IsPlaced-of_keys t t' h (in_zone zone) q = h zone ∙ q

  -- After `sync`, whatever order the records have, the list of names holds exactly the names of
  -- the map of zones, and the map has the zone of every record whose name has a registrable
  -- domain.
  pub sync-NamesAgree :
      (p : Provider lib)
      → NamesAgree (sync deps lib p).0.zones.table (sync deps lib p).0.zones.names
        × All (λ kv. IsPlaced (sync deps lib p).0.zones.table (place deps lib kv.1)) p.records
  unfolding sync
  sync-NamesAgree p =
      let filled = fill deps lib p.records (record { table = []; names = [] }) [] in
      let keys =
        complete_all-keys (or_text (codes "hostmaster") p.hostmaster) (or_text (codes "dns") p.apex)
          (or_number 3600 p.ttl) p.external_address filled.0.table in
      (
        λ n.
            keys n
            ∙ fill-NamesAgree p.records (record { table = []; names = [] }) [] empty-NamesAgree n,
        All-map p.records (λ kv. IsPlaced-of_keys filled.0.table _ keys (place deps lib kv.1))
            (fill-IsPlaced p.records (record { table = []; names = [] }) []),
      )
