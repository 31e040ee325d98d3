-- ===== src/Controllers/Owners.antt =====
-- IngressReconciler.Reconcile and ServiceReconciler.Reconcile (controllers/ingress_controller.go,
-- controllers/service_controller.go). Of the two resources the
-- fields that are read; `fetch` is the answer of the API server to the first Get.
pub mod Names
pub mod Admission
pub mod Withdrawal
pub mod Ingresses
pub mod Ttl
pub mod Hosts
pub mod Apart
use k8s_dns_manager.Prelude.{
  ℕ, suc, Bool, true, false, not, ◌&&◌, ◌||◌, Option, none, some, List, [], ◌∷◌, ◌++◌, Text, codes,
  Error, not_found, Result, ok, err, is_some, text_eq, lookup, if◌then◌else◌,
}
use k8s_dns_manager.GoStrings.ParseUint.{parse_uint32}
use k8s_dns_manager.Deps.{Deps}
use k8s_dns_manager.Api.{ARecord, ObjectMeta, DnsRecord, empty_spec, empty_status, empty_metadata}
use k8s_dns_manager.Webhook.Default.{default}
use k8s_dns_manager.Controllers.{
  Key, Outcome, done, failed, Call, get, list, World, Run, ◌>>=◌, pure,
}
use k8s_dns_manager.Controllers.Children.{
  Ownership, record_name, delete_all, or_fail, reconcile_child_records, child_records,
}

pub record Ingress : Type 0 where
  pub metadata : ObjectMeta
  pub hosts : List Text
  pub addresses : List Text

pub record Service : Type 0 where
  pub metadata : ObjectMeta
  pub service_type : Text
  pub addresses : List Text

abbrev pub hostname_annotation : Text
hostname_annotation = codes "dns.linka.cloud/hostname"

abbrev pub ttl_annotation : Text
ttl_annotation = codes "dns.linka.cloud/ttl"

abbrev pub ignored_annotation : Text
ignored_annotation = codes "dns.linka.cloud/ignore"

abbrev pub ingress_annotation : Text
ingress_annotation = codes "dns.linka.cloud/ingress"

abbrev pub service_annotation : Text
service_annotation = codes "dns.linka.cloud/service"

abbrev pub load_balancer : Text
load_balancer = codes "LoadBalancer"

-- The TTL annotation, or 0 where it is missing or no number of 32 bits.
unfoldable pub ttl_of : ObjectMeta → ℕ
ttl_of m = elim (lookup ttl_annotation m.annotations) [
  | none ↦ 0
  | some v ↦ elim (parse_uint32 v) [ none ↦ 0 | some i ↦ i ]
]

-- The load balancer's addresses that are not empty.
unfoldable pub addresses_of : List Text → List Text
addresses_of [] = []
addresses_of (v ∷ vs) = (if not (text_eq v []) then v ∷ [] else []) ++ addresses_of vs

-- A record of the two controllers before its defaults, for the address of index `i`.
unfoldable pub address_record : Text → Text → ObjectMeta → Text → ℕ → ℕ → Text → DnsRecord
address_record annotation typ owner host ttl i address = record {
  api_version = [];
  kind = [];
  metadata = record empty_metadata {
    name = record_name owner.name typ host i;
    namespace = owner.namespace;
    annotations = (annotation, owner.name) ∷ [];
  };
  spec = record empty_spec {
    a = some (record { name = host; class = 0; ttl = ttl; target = address });
  };
  status = empty_status;
}

abbrev pub cons_result {ℓ} : {A : Type ℓ} → Result A → Result (List A) → Result (List A)
cons_result (err e) rs = err e
cons_result (ok r) (err e) = err e
cons_result (ok r) (ok rs) = ok (r ∷ rs)

abbrev pub append_result {ℓ} : {A : Type ℓ} → Result (List A) → Result (List A) → Result (List A)
append_result (err e) ss = err e
append_result (ok rs) (err e) = err e
append_result (ok rs) (ok ss) = ok (rs ++ ss)

module _ (deps : Deps) (o : Ownership) where
  -- The loop over the addresses, from index `i`.
  unfoldable pub address_loop :
      Text → Text → ObjectMeta → Text → ℕ → ℕ → List Text → Result (List DnsRecord)
  address_loop annotation typ owner host ttl i [] = ok []
  address_loop annotation typ owner host ttl i (ip ∷ ips) =
      cons_result
        (o.set_controller owner (default deps (address_record annotation typ owner host ttl i ip)))
        (address_loop annotation typ owner host ttl (suc i) ips)

  unfoldable pub service_records : Service → Text → Result (List DnsRecord)
  service_records svc hostname =
      address_loop service_annotation (codes "svc") svc.metadata hostname (ttl_of svc.metadata) 0
        (addresses_of svc.addresses)

  -- The loop over the rules of an Ingress.
  unfoldable pub host_loop : Ingress → List Text → Result (List DnsRecord)
  host_loop ing [] = ok []
  host_loop ing (host ∷ hosts) =
      let rest = host_loop ing hosts in
      if text_eq host []
      then rest
      else append_result
          (address_loop ingress_annotation (codes "ing") ing.metadata host (ttl_of ing.metadata) 0
            (addresses_of ing.addresses))
          rest

  unfoldable pub ingress_records : Ingress → Result (List DnsRecord)
  unfolding host_loop
  ingress_records ing = host_loop ing ing.hosts

  -- The hostname annotation, or "" where it is missing or has no registrable domain.
  unfoldable pub hostname_of : Service → Text
  hostname_of svc = elim (lookup hostname_annotation svc.metadata.annotations) [
    | none ↦ []
    | some v ↦ elim (deps.domain v) [ ok _ ↦ v | err _ ↦ [] ]
  ]

  -- The records of the service are withdrawn.
  unfoldable pub is_withdrawn : Service → Bool
  unfolding hostname_of
  is_withdrawn svc =
      is_some (lookup ignored_annotation svc.metadata.annotations)
      || not (text_eq svc.service_type load_balancer)
      || text_eq (hostname_of svc) []

  children_after :
      World → ObjectMeta → Text → Result (List DnsRecord) → Run (Result (List DnsRecord))
  children_after w owner annotation (err e) = pure (err e)
  children_after w owner annotation (ok _) = child_records o w owner annotation

  -- The error of a List whose items are not used, then `childRecords`.
  unfoldable pub children : World → ObjectMeta → Text → Key → Run (Result (List DnsRecord))
  unfolding children_after
  children w owner annotation req log =
      children_after w owner annotation (w.on_list log req.namespace) (list req.namespace ∷ log)

  withdraw : World → List DnsRecord → Run Outcome
  withdraw w got = do deletion ← delete_all w got; or_fail deletion (pure done)

  publish : World → List DnsRecord → Result (List DnsRecord) → Run Outcome
  publish w got (err e) = pure (failed e)
  publish w got (ok want) = reconcile_child_records w got want

  service_with : World → Service → Result (List DnsRecord) → Run Outcome
  service_with w svc (err e) = pure (failed e)
  service_with w svc (ok got) =
      if is_withdrawn svc
      then withdraw w got
      else publish w got (service_records svc (hostname_of svc))

  service_fetched : World → Key → Result Service → Run Outcome
  service_fetched w req (err (not_found _)) = pure done
  service_fetched w req (err e) = pure (failed e)
  service_fetched w req (ok svc) = do
    got ← children w svc.metadata service_annotation req
    service_with w svc got

  unfoldable pub reconcile_service : World → (List Call → Key → Result Service) → Key → Run Outcome
  unfolding service_fetched service_with publish withdraw
  reconcile_service w fetch req log = service_fetched w req (fetch log req) (get req ∷ log)

  ingress_with : World → Ingress → Result (List DnsRecord) → Run Outcome
  ingress_with w ing (err e) = pure (failed e)
  ingress_with w ing (ok got) =
      if is_some (lookup ignored_annotation ing.metadata.annotations)
      then withdraw w got
      else publish w got (ingress_records ing)

  ingress_fetched : World → Key → Result Ingress → Run Outcome
  ingress_fetched w req (err (not_found _)) = pure done
  ingress_fetched w req (err e) = pure (failed e)
  ingress_fetched w req (ok ing) = do
    got ← children w ing.metadata ingress_annotation req
    ingress_with w ing got

  unfoldable pub reconcile_ingress : World → (List Call → Key → Result Ingress) → Key → Run Outcome
  unfolding ingress_fetched ingress_with publish withdraw
  reconcile_ingress w fetch req log = ingress_fetched w req (fetch log req) (get req ∷ log)
