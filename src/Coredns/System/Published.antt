-- ===== src/Coredns/System/Published.antt =====
-- From a Service to the zones of the plugin: the records that the Service controller
-- (controllers/service_controller.go) asks for, when they are in the cluster.
use k8s_dns_manager.Prelude.{
  ℕ, ◌≡◌, ◌∙◌, refl, ◌⊎◌, true, Option, none, some, List, [], ◌∷◌, Text, ok, text_eq, lookup, All,
  arith,
}
use k8s_dns_manager.GoStrings.{to_lower, has_suffix}
use k8s_dns_manager.Deps.{Deps, Ip, Rr, type_a}
use k8s_dns_manager.Api.{DnsRecord}
use k8s_dns_manager.Ptr.{to_bool_d}
use k8s_dns_manager.Controllers.Children.{Ownership}
use k8s_dns_manager.Controllers.Owners.{Service, service_records, addresses_of, ttl_of}
use k8s_dns_manager.Controllers.Owners.Names.{KeepsRecord}
use k8s_dns_manager.Controllers.Owners.Admission.{
  address_rr, IsServed, AreServed, service_records-AreServed,
}
use k8s_dns_manager.Controllers.Records.Convergence.{to_rr-of_spec}
use k8s_dns_manager.Coredns.{ZoneLib}
use k8s_dns_manager.Coredns.Sync.{in_zone, place}
use k8s_dns_manager.Coredns.Sync.Held.{Holding, IsPlain, IsHeld}
use k8s_dns_manager.Coredns.Informer.{is_active}
use k8s_dns_manager.Coredns.System.Admitted.{is_active-of_spec}
use k8s_dns_manager.Coredns.System.{System, Reach}
use k8s_dns_manager.Coredns.System.Served.{Reach-IsHeld}

module _ (deps : Deps) (lib : ZoneLib) (hold : Holding lib) {address : Option Ip} {s : System lib}
    (reached : Reach deps lib address s)
    (accepts : (z : lib.Zone) (r : Rr) → r.header.rrtype ≡ type_a → (lib.insert z r).1 ≡ none)
    (host n : Text) (ttl : ℕ)
    (placed : (ip : Ip) → place deps lib (address_rr host ttl ip) ≡ in_zone n) where
  -- A DNSRecord of this specification is in the cluster.
  abbrev pub IsThere : DnsRecord → Type 0
  IsThere r = (k : Text) × (o : DnsRecord) × (lookup k s.cluster ≡ some o) × (o.spec ≡ r.spec)

  -- The zone holds the A record of the host for the address.
  abbrev pub IsAnswered : Text → Type 0
  IsAnswered a =
      (ip : Ip) × (deps.parse_ip a ≡ some ip)
      × IsHeld deps lib hold s.plugin.zones.table n (address_rr host ttl ip)

  address-IsPlain : (ip : Ip) → IsPlain deps lib hold (address_rr host ttl ip)
  address-IsPlain ip = record {
    accepted = λ z. accepts z (address_rr host ttl ip) refl;
    no_soa = λ e. omega (arith, e);
    no_ns = λ e. omega (arith, e);
  }

  is_active-of_some : (r : DnsRecord) → r.spec.active ≡ some true → is_active deps r ≡ true
  unfolding is_active to_bool_d
  is_active-of_some r e = rw e refl

  answered : (a : Text) (r : DnsRecord) → IsServed deps host ttl a r → IsThere r → IsAnswered a
  answered a r served (k, o, there, same) = (
    served.ip,
    served.parsed,
    Reach-IsHeld deps lib hold reached k n o (address_rr host ttl served.ip) there
        (to_rr-of_spec deps o r same ∙ served.converted)
        (is_active-of_spec deps o r same ∙ is_active-of_some r served.active) (placed served.ip)
        (address-IsPlain served.ip),
  )

  pub AreServed-answered :
      (as' : List Text) (want : List DnsRecord)
      → AreServed deps host ttl as' want
      → All IsThere want
      → All IsAnswered as'
  AreServed-answered [] [] served there = tt
  AreServed-answered (a ∷ as') (r ∷ want) served there =
      (answered a r served.0 there.0, AreServed-answered as' want served.1 there.1)
  AreServed-answered [] (r ∷ want) served there = absurd served
  AreServed-answered (a ∷ as') [] served there = absurd served

-- Let the plugin beside the cluster be in any state of a run in which no two DNSRecords are
-- converted to records with one text, no change turns a DNSRecord that is converted into one that
-- is not, or back, and each deletion is passed on with the last object. Let the cluster have, for
-- every DNSRecord that a Service asks for, one of the same specification, whatever its metadata
-- and status, where the lower-case hostname has a registrable domain in which it ends, every
-- address of the load balancer is empty or parses, the A records of the host have their place in
-- the zone n, and zones accept A records. Then for each address of the Service that is not empty
-- the plugin's zone n holds the A record of the absolute lower-case hostname for the address, with
-- the TTL of the annotation, or 3600 where that is 0.
pub service_records-IsAnswered :
    (deps : Deps) (lib : ZoneLib) (hold : Holding lib) {address : Option Ip} {s : System lib}
    (reached : Reach deps lib address s)
    (accepts : (z : lib.Zone) (r : Rr) → r.header.rrtype ≡ type_a → (lib.insert z r).1 ≡ none)
    (o : Ownership) (svc : Service) (hostname domain n : Text) (want : List DnsRecord)
    (placed : (ip : Ip) → place deps lib (address_rr hostname (ttl_of svc.metadata) ip) ≡ in_zone n)
    → KeepsRecord o
    → deps.domain (to_lower hostname) ≡ ok domain
    → has_suffix (to_lower hostname) domain ≡ true
    → All (λ a. (text_eq a [] ≡ true) ⊎ ((ip : Ip) × (deps.parse_ip a ≡ some ip))) svc.addresses
    → service_records deps o svc hostname ≡ ok want
    → All
        (λ r. (k : Text) × (o : DnsRecord) × (lookup k s.cluster ≡ some o) × (o.spec ≡ r.spec))
        want
    → All
        (λ a.
          (ip : Ip) × (deps.parse_ip a ≡ some ip)
          × IsHeld deps lib hold s.plugin.zones.table n
              (address_rr hostname (ttl_of svc.metadata) ip))
        (addresses_of svc.addresses)
service_records-IsAnswered deps lib hold reached accepts o svc hostname domain n want placed kept
      registrable ends parse e there =
    AreServed-answered deps lib hold reached accepts hostname n (ttl_of svc.metadata) placed
      (addresses_of svc.addresses) want
      (service_records-AreServed deps o svc hostname domain want kept registrable ends parse e)
      there
