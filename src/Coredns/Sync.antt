-- ===== src/Coredns/Sync.antt =====
-- `sync` of pkg/coredns/k8s_dns/provider.go, while the mutex is held.
pub mod Names
pub mod Apexes
pub mod Held
use k8s_dns_manager.Prelude.{
  ℕ, Bool, true, false, not, ◌||◌, Option, none, some, List, [], ◌∷◌, ◌++◌, Text, codes, Error,
  malformed_name, Result, ok, err, length, ltb, ◌==◌, is_some, is_empty, text_eq, lookup, insert,
  if◌then◌else◌,
}
use k8s_dns_manager.GoStrings.{join}
use k8s_dns_manager.Deps.{Deps, Ip, Header, Rr, Rdata, type_soa, type_ns, type_a, class_inet}
use k8s_dns_manager.Coredns.{
  ZoneLib, Zones, Provider, default_hostmaster, default_ttl, default_apex,
}

-- What becomes of a record: a malformed name is an error, a name with no domain is only logged.
pub data Place : Type 0 where
  malformed : Text → Place
  unplaced : Place
  in_zone : Text → Place

abbrev pub or_text : Text → Text → Text
or_text d s = if text_eq s [] then d else s

abbrev pub or_number : ℕ → ℕ → ℕ
or_number d n = if n == 0 then d else n

module _ (deps : Deps) (lib : ZoneLib) where
  placed : Result Text → Place
  placed (err _) = unplaced
  placed (ok d) = in_zone (lib.normalize (deps.fqdn d))

  unfoldable pub place : Rr → Place
  unfolding placed
  place v =
      let parts = deps.split_domain_name v.header.name in
      if ltb (length parts) 2
      then malformed v.header.name
      else placed (deps.domain (join parts (codes ".")))

  -- `z, ok := p.zones.Z[zone]; if !ok { … }`
  pub zone_of : Text → Zones lib → lib.Zone
  zone_of zone zs = elim (lookup zone zs.table) [ none ↦ lib.new_zone zone | some z ↦ z ]

  -- One round of the first loop: a new zone is entered in the map and in the list of names, and the
  -- record is inserted in its zone, which the map holds by reference.
  unfoldable pub enter : Text → Rr → Zones lib → Zones lib
  unfolding zone_of
  enter zone v zs = record {
    table = insert zone (lib.insert (zone_of zone zs) v).0 zs.table;
    names = if is_some (lookup zone zs.table) then zs.names else zs.names ++ zone ∷ [];
  }

  abbrev error_list : Option Error → List Error
  error_list none = []
  error_list (some e) = e ∷ []

  -- The error that one round appends.
  round_errors : Rr → Place → Zones lib → List Error
  round_errors v (malformed n) zs = malformed_name n ∷ []
  round_errors v unplaced zs = []
  round_errors v (in_zone zone) zs = error_list (lib.insert (zone_of zone zs) v).1

  round_zones : Rr → Place → Zones lib → Zones lib
  round_zones v (in_zone zone) zs = enter zone v zs
  round_zones v _ zs = zs

  -- The first loop, over the records: the zones and the errors so far.
  unfoldable pub fill : List (Text × Rr) → Zones lib → List Error → Zones lib × List Error
  unfolding round_zones round_errors zone_of
  fill [] zs merr = (zs, merr)
  fill ((_, v) ∷ records) zs merr =
      fill records (round_zones v (place v) zs) (merr ++ round_errors v (place v) zs)

  module _ (hostmaster apex : Text) (ttl : ℕ) (external_address : Option Ip) where
    abbrev pub nameserver : Text → Text
    nameserver k = lib.join_names (codes "ns0" ∷ apex ∷ k ∷ [])

    abbrev header : Text → ℕ → Header
    header name rrtype = record { name = name; rrtype = rrtype; class = class_inet; ttl = ttl }

    abbrev soa_record : Text → Rr
    soa_record k = record {
      header = header k type_soa;
      rdata =
          Rdata.soa (nameserver k) (lib.join_names (hostmaster ∷ apex ∷ k ∷ [])) 1499347823 7200
            1800 86400 5;
    }

    abbrev ns_record : Text → Rr
    ns_record k = record { header = header k type_ns; rdata = Rdata.ns (nameserver k) }

    abbrev address_record : Text → Ip → Rr
    address_record k ip = record { header = header (nameserver k) type_a; rdata = Rdata.a ip }

    with_soa : Text → lib.Zone → lib.Zone
    with_soa k z = elim (lib.soa z) [ none ↦ lib.set_soa z (soa_record k) | some _ ↦ z ]

    with_address : Text → lib.Zone → Option Ip → lib.Zone × Option Error
    with_address k z none = (z, none)
    with_address k z (some ip) = lib.insert z (address_record k ip)

    -- One round of the second loop, on the zone of the name `k`.
    unfoldable pub complete : Text → lib.Zone → lib.Zone × Option Error
    unfolding with_soa with_address
    complete k z =
        let z' = with_soa k z in
        if not (is_empty (lib.ns z'))
        then (z', none)
        else with_address k (lib.set_ns z' (lib.ns z' ++ ns_record k ∷ [])) external_address

    -- The rest of the loop behind a round: none after an error of Insert.
    go_on :
        Text
        → lib.Zone
        → Option Error
        → List (Text × lib.Zone)
        → List (Text × lib.Zone) × Option Error
        → List (Text × lib.Zone) × Option Error
    go_on k z (some e) zs rest = ((k, z) ∷ zs, some e)
    go_on k z none zs rest = ((k, z) ∷ rest.0, rest.1)

    -- The second loop. It ends at an error of Insert, and leaves the zones behind as they were.
    unfoldable pub complete_all : List (Text × lib.Zone) → List (Text × lib.Zone) × Option Error
    unfolding go_on
    complete_all [] = ([], none)
    complete_all ((k, z) ∷ zs) = go_on k (complete k z).0 (complete k z).1 zs (complete_all zs)

  -- The new state, and the errors: that of Insert alone, or else those of the first loop.
  unfoldable pub sync : Provider lib → Provider lib × List Error
  sync p =
      let hostmaster = or_text default_hostmaster p.hostmaster in
      let ttl = or_number default_ttl p.ttl in
      let apex = or_text default_apex p.apex in
      let (zs, merr) = fill p.records (record { table = []; names = [] }) [] in
      let (table, e) = complete_all hostmaster apex ttl p.external_address zs.table in
      (
        record p {
          zones = record { table = table; names = zs.names };
          hostmaster = hostmaster;
          ttl = ttl;
          apex = apex;
        },
        elim e [ none ↦ merr | some e ↦ e ∷ [] ],
      )
