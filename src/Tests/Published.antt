-- ===== src/Tests/Published.antt =====
-- A Service whose record is in the cluster.
use mathlib.Core.List.{Memᴰ}
use k8s_dns_manager.Prelude.{
  ◌≡◌, refl, false, ◌∷◌, some, [], codes, ok, All, inl, inr, lookup, insert, text_eq, text_eq_refl,
}
use k8s_dns_manager.GoStrings.{has_suffix, join, to_lower}
use k8s_dns_manager.Deps.{Ip, Rr}
use k8s_dns_manager.Record.{to_rr, to_rr_a}
use k8s_dns_manager.Webhook.Default.{default, default_a, enforce_fqdn}
use k8s_dns_manager.Controllers.Owners.{address_record, addresses_of, ttl_of}
use k8s_dns_manager.Controllers.Owners.Admission.{address_rr}
use k8s_dns_manager.Coredns.Sync.{in_zone, place}
use k8s_dns_manager.Coredns.Sync.Held.{IsHeld}
use k8s_dns_manager.Coredns.Informer.{handle_add}
use k8s_dns_manager.Coredns.System.{System, IsApart, created, Reach, start, later, init}
use k8s_dns_manager.Coredns.System.Published.{service_records-IsAnswered}
use k8s_dns_manager.Coredns.System.Ingressed.{ingress_records-IsAnswered}
use k8s_dns_manager.Tests.Samples.{deps}
use k8s_dns_manager.Tests.Plugin.{lib}
use k8s_dns_manager.Tests.Owners.{
  host, site, site_record, ingress_records-site, web, web_record, want, ownership,
  ownership-KeepsRecord, service_records-web, host-registrable, host-ends,
}
use k8s_dns_manager.Tests.Cluster as Cluster
use k8s_dns_manager.Tests.Cluster.{lib-Holding, nothing-there}

abbrev web_rr : Rr
web_rr = address_rr host (ttl_of web.metadata) (codes "1.2.3.4")

web-converts : to_rr deps web_record ≡ ok web_rr
unfolding to_rr to_rr_a default default_a enforce_fqdn address_record to_lower has_suffix ttl_of
    lookup text_eq
web-converts = refl

abbrev published : System lib
published = record {
  cluster = insert Cluster.www web_record [];
  plugin = handle_add deps lib (init deps lib Cluster.address).plugin (some web_record);
}

web-IsApart : IsApart deps (λ k. lookup k []) Cluster.www web_record
unfolding lookup
web-IsApart = record { rr = web_rr; converted = web-converts; apart = λ j b x e c s. cc }

published-Reach : Reach deps lib Cluster.address published
published-Reach = later start (created Cluster.www web_record nothing-there web-IsApart)

web-there : lookup Cluster.www published.cluster ≡ some web_record
unfolding lookup insert text_eq
web-there = refl

web-placed :
    (ip : Ip)
    → place deps lib (address_rr host (ttl_of web.metadata) ip) ≡ in_zone (codes "example.org.")
unfolding place has_suffix join to_lower
web-placed ip = refl

service_records-IsAnswered_example :
    All
      (λ a.
        (ip : Ip) × (deps.parse_ip a ≡ some ip)
        × IsHeld deps lib lib-Holding published.plugin.zones.table
            (codes "example.org.")
            (address_rr host (ttl_of web.metadata) ip))
      (addresses_of web.addresses)
service_records-IsAnswered_example =
    service_records-IsAnswered deps lib lib-Holding published-Reach (λ z r e. refl) ownership web
      host (codes "example.org") (codes "example.org.") want web-placed ownership-KeepsRecord
      host-registrable host-ends (inl (text_eq_refl []), (inr (codes "1.2.3.4", refl), tt))
      service_records-web ((Cluster.www, web_record, web-there, refl), tt)

abbrev site_rr : Rr
site_rr = address_rr host (ttl_of site.metadata) (codes "1.2.3.4")

site-converts : to_rr deps site_record ≡ ok site_rr
unfolding to_rr to_rr_a default default_a enforce_fqdn address_record to_lower has_suffix ttl_of
    lookup text_eq
site-converts = refl

abbrev reached_site : System lib
reached_site = record {
  cluster = insert Cluster.www site_record [];
  plugin = handle_add deps lib (init deps lib Cluster.address).plugin (some site_record);
}

site-IsApart : IsApart deps (λ k. lookup k []) Cluster.www site_record
unfolding lookup
site-IsApart = record { rr = site_rr; converted = site-converts; apart = λ j b x e c s. cc }

reached_site-Reach : Reach deps lib Cluster.address reached_site
reached_site-Reach = later start (created Cluster.www site_record nothing-there site-IsApart)

site-there : lookup Cluster.www reached_site.cluster ≡ some site_record
unfolding lookup insert text_eq
site-there = refl

site-placed :
    (ip : Ip)
    → place deps lib (address_rr host (ttl_of site.metadata) ip) ≡ in_zone (codes "example.org.")
unfolding place has_suffix join to_lower
site-placed ip = refl

host-full : text_eq host [] ≡ false
unfolding text_eq
host-full = refl

ingress_records-IsAnswered_example :
    All
      (λ a.
        (ip : Ip) × (deps.parse_ip a ≡ some ip)
        × IsHeld deps lib lib-Holding reached_site.plugin.zones.table
            (codes "example.org.")
            (address_rr host (ttl_of site.metadata) ip))
      (addresses_of site.addresses)
ingress_records-IsAnswered_example =
    ingress_records-IsAnswered deps lib lib-Holding reached_site-Reach (λ z r e. refl) ownership
      site host (codes "example.org") (codes "example.org.") (site_record ∷ []) site-placed
      ownership-KeepsRecord (Memᴰ.head refl) host-full host-registrable host-ends
      (inr (codes "1.2.3.4", refl), tt) ingress_records-site
      ((Cluster.www, site_record, site-there, refl), tt)
