-- ===== src/Coredns.antt =====
-- The CoreDNS plugin (pkg/coredns/k8s_dns/provider.go and crds.go). The zones are those of CoreDNS's
-- plugin/file; a Go map is an association list, and a `range` over it takes its order, which the
-- theorems leave open.
pub mod Sync
pub mod Informer
pub mod Serve
pub mod Setup
pub mod Interleaved
pub mod System
use k8s_dns_manager.Prelude.{ℕ, Option, List, [], Text, codes, Error}
use k8s_dns_manager.Deps.{Ip, Rr}

-- file.Zone and what the program calls of CoreDNS: NewZone, Insert, which changes the zone and may
-- return an error, the fields SOA and NS, plugin.Name's Normalize, and dnsutil.Join.
pub record ZoneLib : Type 1 where
  pub Zone : Type 0
  pub new_zone : Text → Zone
  pub insert : Zone → Rr → Zone × Option Error
  pub soa : Zone → Option Rr
  pub ns : Zone → List Rr
  pub set_soa : Zone → Rr → Zone
  pub set_ns : Zone → List Rr → Zone
  pub normalize : Text → Text
  pub join_names : List Text → Text

-- file.Zones
pub record Zones (lib : ZoneLib) : Type 0 where
  pub table : List (Text × lib.Zone)
  pub names : List Text

-- The state of `provider`, which its mutex guards.
pub record Provider (lib : ZoneLib) : Type 0 where
  pub zones : Zones lib
  pub records : List (Text × Rr)
  pub external_address : Option Ip
  pub hostmaster : Text
  pub ttl : ℕ
  pub apex : Text

abbrev pub default_ttl : ℕ
default_ttl = 3600

abbrev pub default_hostmaster : Text
default_hostmaster = codes "hostmaster"

abbrev pub default_apex : Text
default_apex = codes "dns"

-- NewProvider, once the cache is there.
unfoldable pub new_provider : (lib : ZoneLib) → Option Ip → Provider lib
new_provider lib external_address = record {
  zones = record { table = []; names = [] };
  records = [];
  external_address = external_address;
  hostmaster = default_hostmaster;
  ttl = default_ttl;
  apex = default_apex;
}
