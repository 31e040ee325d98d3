-- ===== src/Tests/Owners.antt =====
-- The Service controller.
use k8s_dns_manager.Prelude.{
  ◌⊎◌, ◌≡◌, refl, inl, inr, true, not, List, [], ◌∷◌, codes, Text, ok, is_empty, text_eq, arith,
  is_some, lookup, if◌then◌else◌,
}
use k8s_dns_manager.GoStrings.{has_suffix, to_lower, replace_byte}
use k8s_dns_manager.Api.{DnsRecord, empty_metadata}
use k8s_dns_manager.Webhook.Default.{default}
use k8s_dns_manager.Controllers.{Call, World, done, create, update, delete}
use k8s_dns_manager.Controllers.Children.{Ownership, find, diff_records, children_of}
use k8s_dns_manager.Controllers.Children.Differences.{Matches, after}
use k8s_dns_manager.Controllers.Children.Writes.{made, Accepts}
use k8s_dns_manager.Controllers.Owners.{
  Service, Ingress, ingress_records, ingress_annotation, ignored_annotation, reconcile_ingress,
  hostname_annotation, service_annotation, load_balancer, address_record, address_loop,
  addresses_of, service_records, ttl_of, hostname_of, reconcile_service,
}
use k8s_dns_manager.Controllers.Owners.Ingresses.{
  IngressReads, ingress_reads, reconcile_ingress-made,
}
use k8s_dns_manager.Controllers.Owners.Apart.{AreApart, ingress_diff-Matches}
use k8s_dns_manager.Controllers.Owners.Names.{KeepsRecord, service_diff-Matches}
use k8s_dns_manager.Controllers.Owners.Withdrawal.{
  Reads, reads, IsWithdrawn, IsPublished, reconcile_service-made,
}
use k8s_dns_manager.Controllers.Watches.{passes_lem}
use k8s_dns_manager.Controllers.Watches as Watches
use k8s_dns_manager.Tests.Samples.{deps, a_record, key, world}

abbrev pub host : Text
host = codes "www.example.org"

abbrev pub address : Text
address = codes "1.2.3.4"

-- A load balancer with one address.
abbrev pub web : Service
web = record {
  metadata = record empty_metadata {
    name = codes "web";
    namespace = codes "default";
    annotations = (hostname_annotation, host) ∷ [];
  };
  service_type = load_balancer;
  addresses = [] ∷ address ∷ [];
}

-- A record is controlled if it has an annotation, and the reference stays out of sight.
abbrev pub ownership : Ownership
ownership = record {
  is_controlled_by = λ r owner. not (is_empty r.metadata.annotations);
  set_controller = λ owner r. ok (record r { kind = codes "DNSRecord" });
}

pub ownership-KeepsRecord : KeepsRecord ownership
ownership-KeepsRecord = record {
  name = λ owner r r' h. ground arith;
  spec = λ owner r r' h. ground arith;
  annotations = λ owner r r' h. ground arith;
}

abbrev pub web_record : DnsRecord
web_record =
    record (default deps (
      address_record service_annotation (codes "svc") web.metadata host (ttl_of web.metadata) 0
        address)) { kind = codes "DNSRecord" }

abbrev pub want : List DnsRecord
want = web_record ∷ []

pub service_records-web : service_records deps ownership web host ≡ ok want
unfolding service_records address_loop addresses_of text_eq
service_records-web = refl

service_diff-Matches_example :
    Matches
      (after (diff_records (a_record ∷ []) want) (a_record ∷ []) (codes "www"))
      (find (codes "www") want)
service_diff-Matches_example =
    service_diff-Matches deps ownership web host (a_record ∷ []) want (codes "www")
      ownership-KeepsRecord service_records-web

pub host-registrable : deps.domain (to_lower host) ≡ ok (codes "example.org")
unfolding to_lower has_suffix
host-registrable = refl

pub host-ends : has_suffix (to_lower host) (codes "example.org") ≡ true
unfolding to_lower has_suffix
host-ends = refl

-- The namespace has a record that the Service owned before.
abbrev stale : DnsRecord
stale = record a_record {
  metadata = record a_record.metadata { annotations = (service_annotation, codes "web") ∷ [] };
}

abbrev busy : World
busy = record world { on_list = λ log ns. ok (stale ∷ a_record ∷ []) }

stale-owned :
    children_of ownership service_annotation web.metadata (stale ∷ a_record ∷ []) ≡ ok (stale ∷ [])
unfolding children_of
stale-owned = refl

hostname_of-web : hostname_of deps ownership web ≡ host
unfolding hostname_of lookup has_suffix
hostname_of-web = refl

wanted : service_records deps ownership web (hostname_of deps ownership web) ≡ ok want
wanted = rw hostname_of-web service_records-web

busy-Reads : Reads deps ownership busy (λ log req. ok web) key web (stale ∷ [])
busy-Reads = record {
  items = stale ∷ a_record ∷ [];
  others = stale ∷ a_record ∷ [];
  fetched = refl;
  first = refl;
  second = refl;
  owned = stale-owned;
}

busy-Accepts : Accepts busy
busy-Accepts = record { deletes = λ log r. refl; creates = λ log r. refl; updates = λ log r. refl }

abbrev before : List Call
before = reads deps ownership busy (λ log req. ok web) key web

reconcile_service-made_example :
    (IsWithdrawn deps ownership busy (λ log req. ok web) key web
      × (reconcile_service deps ownership busy (λ log req. ok web) key []
          ≡ (done, made delete (stale ∷ []) before)))
    ⊎ (IsPublished deps ownership busy (λ log req. ok web) key web
        × (reconcile_service deps ownership busy (λ log req. ok web) key [] ≡ (
          done,
          made update (diff_records (stale ∷ []) want).update (
              made create
                (diff_records (stale ∷ []) want).add
                (made delete (diff_records (stale ∷ []) want).del before)),
        )))
reconcile_service-made_example =
    reconcile_service-made deps ownership busy (λ log req. ok web) key web (stale ∷ []) want
      busy-Reads busy-Accepts wanted

-- The Ingress of one host with one address.
abbrev pub site : Ingress
site = record {
  metadata = record empty_metadata { name = codes "web"; namespace = codes "default" };
  hosts = host ∷ [];
  addresses = address ∷ [];
}

abbrev pub site_record : DnsRecord
site_record =
    record (default deps (
      address_record ingress_annotation (codes "ing") site.metadata host (ttl_of site.metadata) 0
        address)) { kind = codes "DNSRecord" }

pub ingress_records-site : ingress_records deps ownership site ≡ ok (site_record ∷ [])
unfolding ingress_records address_loop addresses_of text_eq
ingress_records-site = refl

-- A record that the Ingress owned before.
abbrev old : DnsRecord
old = record a_record {
  metadata = record a_record.metadata { annotations = (ingress_annotation, codes "web") ∷ [] };
}

abbrev visited : World
visited = record world { on_list = λ log ns. ok (old ∷ a_record ∷ []) }

old-owned :
    children_of ownership ingress_annotation site.metadata (old ∷ a_record ∷ []) ≡ ok (old ∷ [])
unfolding children_of
old-owned = refl

visited-IngressReads : IngressReads deps ownership visited (λ log req. ok site) key site (old ∷ [])
visited-IngressReads = record {
  items = old ∷ a_record ∷ [];
  others = old ∷ a_record ∷ [];
  fetched = refl;
  first = refl;
  second = refl;
  owned = old-owned;
}

visited-Accepts : Accepts visited
visited-Accepts = record {
  deletes = λ log r. refl;
  creates = λ log r. refl;
  updates = λ log r. refl;
}

abbrev visits : List Call
visits = ingress_reads deps ownership visited (λ log req. ok site) key site

reconcile_ingress-made_example :
    reconcile_ingress deps ownership visited (λ log req. ok site) key [] ≡ (
      done,
      if is_some (lookup ignored_annotation site.metadata.annotations)
          then made delete (old ∷ []) visits
          else made update (diff_records (old ∷ []) (site_record ∷ [])).update (
              made create
                (diff_records (old ∷ []) (site_record ∷ [])).add
                (made delete (diff_records (old ∷ []) (site_record ∷ [])).del visits)),
    )
reconcile_ingress-made_example =
    reconcile_ingress-made deps ownership visited (λ log req. ok site) key site (old ∷ [])
      (site_record ∷ []) visited-IngressReads visited-Accepts ingress_records-site

-- The Service becomes one without a load balancer.
abbrev plain : Service
plain = record web { service_type = codes "ClusterIP" }

passes_lem_example :
    let e = Watches.updated (Watches.service web) (Watches.service plain) in
    Watches.IsPassed deps ownership (Watches.passes e) (Watches.services e)
passes_lem_example =
    passes_lem deps ownership (Watches.updated (Watches.service web) (Watches.service plain))

-- An Ingress of two hosts.
abbrev mail : Text
mail = codes "mail.example.org"

abbrev two_hosts : Ingress
two_hosts = record site { hosts = host ∷ [] ∷ mail ∷ [] }

abbrev record_for : Text → DnsRecord
record_for h =
    record (default deps (
      address_record ingress_annotation (codes "ing") site.metadata h (ttl_of site.metadata) 0
        address)) { kind = codes "DNSRecord" }

two_hosts-AreApart : AreApart two_hosts.hosts
unfolding replace_byte text_eq
two_hosts-AreApart = (inr (inl refl, (inr (λ e. ground (arith, e)), tt)), (inl refl, (inr tt, tt)))

ingress_records-two_hosts :
    ingress_records deps ownership two_hosts ≡ ok (record_for host ∷ record_for mail ∷ [])
unfolding ingress_records address_loop addresses_of text_eq
ingress_records-two_hosts = refl

ingress_diff-Matches_example :
    Matches
      (after
        (diff_records (a_record ∷ []) (record_for host ∷ record_for mail ∷ []))
        (a_record ∷ [])
        (codes "www"))
      (find (codes "www") (record_for host ∷ record_for mail ∷ []))
ingress_diff-Matches_example =
    ingress_diff-Matches deps ownership two_hosts (a_record ∷ [])
      (record_for host ∷ record_for mail ∷ []) (codes "www") ownership-KeepsRecord
      two_hosts-AreApart ingress_records-two_hosts
