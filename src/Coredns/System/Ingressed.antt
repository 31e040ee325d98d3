-- ===== src/Coredns/System/Ingressed.antt =====
-- From an Ingress to the zones of the plugin: the records that the Ingress controller
-- (controllers/ingress_controller.go) asks for, when they are in the cluster.
use mathlib.Core.List.{Memᴰ}
use k8s_dns_manager.Prelude.{
  ◌≡◌, ◌⊎◌, true, false, Option, none, some, List, [], Text, codes, ok, text_eq, lookup, All,
}
use k8s_dns_manager.GoStrings.{to_lower, has_suffix}
use k8s_dns_manager.Deps.{Deps, Ip, Rr, type_a}
use k8s_dns_manager.Api.{DnsRecord}
use k8s_dns_manager.Controllers.Children.{Ownership}
use k8s_dns_manager.Controllers.Owners.{
  Ingress, ingress_records, ingress_annotation, addresses_of, ttl_of,
}
use k8s_dns_manager.Controllers.Owners.Names.{KeepsRecord}
use k8s_dns_manager.Controllers.Owners.Hosts.{ingress_records-includes}
use k8s_dns_manager.Controllers.Owners.Admission.{
  address_rr, address_loop-AreServed, addresses_of-full,
}
use k8s_dns_manager.Coredns.{ZoneLib}
use k8s_dns_manager.Coredns.Sync.{in_zone, place}
use k8s_dns_manager.Coredns.Sync.Held.{Holding, IsHeld}
use k8s_dns_manager.Coredns.System.{System, Reach}
use k8s_dns_manager.Coredns.System.Published.{AreServed-answered}

-- Let the plugin beside the cluster be in any state of a run in which no two DNSRecords are
-- converted to records with one text, no change turns a DNSRecord that is converted into one that
-- is not, or back, and each deletion is passed on with the last object. Let the cluster have, for
-- every DNSRecord that an Ingress asks for, one of the same specification, whatever its metadata
-- and status. For each host of the Ingress that is not empty, whose lower-case form has a
-- registrable domain in which it ends and whose A records have their place in the zone n, where
-- every address of the load balancer is empty or parses and zones accept A records: for each
-- address that is not empty the plugin's zone n holds the A record of the absolute lower-case host
-- for the address, with the TTL of the annotation, or 3600 where that is 0.
pub ingress_records-IsAnswered :
    (deps : Deps) (lib : ZoneLib) (hold : Holding lib) {address : Option Ip} {s : System lib}
    (reached : Reach deps lib address s)
    (accepts : (z : lib.Zone) (r : Rr) → r.header.rrtype ≡ type_a → (lib.insert z r).1 ≡ none)
    (o : Ownership) (ing : Ingress) (host domain n : Text) (want : List DnsRecord)
    (placed : (ip : Ip) → place deps lib (address_rr host (ttl_of ing.metadata) ip) ≡ in_zone n)
    → KeepsRecord o
    → Memᴰ host ing.hosts
    → text_eq host [] ≡ false
    → deps.domain (to_lower host) ≡ ok domain
    → has_suffix (to_lower host) domain ≡ true
    → All (λ a. (text_eq a [] ≡ true) ⊎ ((ip : Ip) × (deps.parse_ip a ≡ some ip))) ing.addresses
    → ingress_records deps o ing ≡ ok want
    → All
        (λ r. (k : Text) × (o : DnsRecord) × (lookup k s.cluster ≡ some o) × (o.spec ≡ r.spec))
        want
    → All
        (λ a.
          (ip : Ip) × (deps.parse_ip a ≡ some ip)
          × IsHeld deps lib hold s.plugin.zones.table n (address_rr host (ttl_of ing.metadata) ip))
        (addresses_of ing.addresses)
ingress_records-IsAnswered deps lib hold {s = s} reached accepts o ing host domain n want placed
      kept among full registrable ends parse e there =
    let (part, made, present) =
      ingress_records-includes deps o ing
        (λ r. (k : Text) × (o : DnsRecord) × (lookup k s.cluster ≡ some o) × (o.spec ≡ r.spec)) host
        want among full e there in
    AreServed-answered deps lib hold reached accepts host n (ttl_of ing.metadata) placed
      (addresses_of ing.addresses) part
      (address_loop-AreServed deps host domain registrable ends o ingress_annotation (codes "ing")
        ing.metadata (ttl_of ing.metadata) 0 (addresses_of ing.addresses) part kept
        (addresses_of-full deps ing.addresses parse) made)
      present
