-- ===== src/Controllers/Owners/Admission.antt =====
-- The records that a Service asks for pass the webhook and are converted by ToRR.
use k8s_dns_manager.Prelude.{
  ℕ, suc, ◌≡◌, ◌∙◌, ap, true, false, none, some, List, [], ◌∷◌, ◌++◌, Text, codes, ok, text_eq, All,
  arith, Bool-cases, inl, inr, ◌⊎◌,
}
use k8s_dns_manager.GoStrings.{to_lower, has_suffix}
use k8s_dns_manager.GoStrings.Laws.{has_suffix-append}
use k8s_dns_manager.Deps.{Deps, Ip, Rr, Rdata, type_a}
use k8s_dns_manager.Api.{ARecord, ObjectMeta, DnsRecordSpec, DnsRecord, empty_spec}
use k8s_dns_manager.Webhook.Default.{or_default, enforce_fqdn, default_a, default}
use k8s_dns_manager.Webhook.Validate.{validate_a, validate}
use k8s_dns_manager.Record.{to_rr_a, to_rr}
use k8s_dns_manager.Controllers.Children.{Ownership}
use k8s_dns_manager.Controllers.Owners.{
  Service, address_record, address_loop, addresses_of, service_records, service_annotation, ttl_of,
}
use k8s_dns_manager.Controllers.Owners.Names.{KeepsRecord, cons_result-eq-ok}

-- The A record of a host for an address: absolute, lower case, of class IN, with the TTL or 3600.
abbrev pub address_rr : Text → ℕ → Ip → Rr
address_rr host ttl ip = record {
  header = record {
    name = to_lower host ++ codes ".";
    rrtype = type_a;
    class = 1;
    ttl = or_default 3600 ttl;
  };
  rdata = Rdata.a ip;
}

module _ (deps : Deps) where
  -- The webhook admits the DNSRecord, which is active and stands for the host's A record of the address.
  pub record IsServed (host : Text) (ttl : ℕ) (address : Text) (r : DnsRecord) : Type 0 where
    pub ip : Ip
    pub active : r.spec.active ≡ some true
    pub parsed : deps.parse_ip address ≡ some ip
    pub admitted : validate deps r ≡ none
    pub converted : to_rr deps r ≡ ok (address_rr host ttl ip)

  -- The DNSRecords stand for the addresses one by one.
  abbrev pub AreServed : Text → ℕ → List Text → List DnsRecord → Type 0
  AreServed host ttl [] [] = Unit
  AreServed host ttl (a ∷ as') (r ∷ rs) = IsServed host ttl a r × AreServed host ttl as' rs
  AreServed host ttl _ _ = ⊥

  -- An address as the status of a load balancer has it.
  abbrev pub IsAddress : Text → Type 0
  IsAddress a = (text_eq a [] ≡ false) × (ip : Ip) × (deps.parse_ip a ≡ some ip)

module _ (deps : Deps) (host domain : Text) (registrable : deps.domain (to_lower host) ≡ ok domain)
    (ends : has_suffix (to_lower host) domain ≡ true) where
  absolute_host : enforce_fqdn deps host ≡ to_lower host ++ codes "."
  unfolding enforce_fqdn
  absolute_host = rw (registrable, ends)

  abbrev filled : ℕ → Text → ARecord
  filled ttl a = record {
    name = to_lower host ++ codes ".";
    class = 1;
    ttl = or_default 3600 ttl;
    target = a;
  }

  default_address :
      (annotation typ : Text) (owner : ObjectMeta) (ttl i : ℕ) (a : Text)
      → (default deps (address_record annotation typ owner host ttl i a)).spec
        ≡ record empty_spec { active = some true; a = some (filled ttl a) }
  unfolding default address_record default_a
  default_address annotation typ owner ttl i a = rw absolute_host

  IsServed-of_spec :
      (ttl : ℕ) (a : Text) (r : DnsRecord)
      → IsAddress deps a
      → r.spec ≡ record empty_spec { active = some true; a = some (filled ttl a) }
      → IsServed deps host ttl a r
  IsServed-of_spec ttl a r (full, ip, parsed) e =
      let typed : r.spec.a ≡ some (filled ttl a) = ap (λ (x : DnsRecordSpec). x.a) e in
      record {
        ip = ip;
        active = ap (λ (x : DnsRecordSpec). x.active) e;
        parsed = parsed;
        admitted =
            unfold validate validate_a in
            rw (typed, parsed, full, has_suffix-append (to_lower host) (codes "."));
        converted = unfold to_rr to_rr_a in rw (typed, parsed);
      }

  pub address_loop-AreServed :
      (o : Ownership) (annotation typ : Text) (owner : ObjectMeta) (ttl i : ℕ) (as' : List Text)
      (want : List DnsRecord)
      → KeepsRecord o
      → All (IsAddress deps) as'
      → address_loop deps o annotation typ owner host ttl i as' ≡ ok want
      → AreServed deps host ttl as' want
  unfolding address_loop
  address_loop-AreServed o annotation typ owner ttl i [] want kept h e =
      let nil : want ≡ [] = ground arith in rw nil tt
  address_loop-AreServed o annotation typ owner ttl i (a ∷ as') want kept h e =
      let (v, vs, here, later, same) = cons_result-eq-ok _ _ want e in
      rw same (
        IsServed-of_spec ttl a v h.0
            (kept.spec owner _ v here ∙ default_address annotation typ owner ttl i a),
        address_loop-AreServed o annotation typ owner ttl (suc i) as' vs kept h.1 later,
      )

pub addresses_of-full :
    (deps : Deps) (as' : List Text)
    → All (λ a. (text_eq a [] ≡ true) ⊎ ((ip : Ip) × (deps.parse_ip a ≡ some ip))) as'
    → All (IsAddress deps) (addresses_of as')
unfolding addresses_of
addresses_of-full deps [] h = tt
addresses_of-full deps (a ∷ as') (inl empty, h) = rw empty (addresses_of-full deps as' h)
addresses_of-full deps (a ∷ as') (inr (ip, parsed), h) = elim (Bool-cases (text_eq a [])) [
  | inl empty ↦ rw empty (addresses_of-full deps as' h)
  | inr full ↦ rw full ((full, ip, parsed), addresses_of-full deps as' h)
]

-- Let the lower-case hostname have a registrable domain in which it ends, and let every address of
-- the load balancer be empty or parse. Then the records that a Service asks for stand one by one
-- for its addresses that are not empty: the webhook admits each, it is active, and ToRR converts
-- it to the A record of the absolute lower-case hostname for the address, with the TTL of the
-- annotation, or 3600 where that is 0.
pub service_records-AreServed :
    (deps : Deps) (o : Ownership) (svc : Service) (hostname domain : Text) (want : List DnsRecord)
    → KeepsRecord o
    → deps.domain (to_lower hostname) ≡ ok domain
    → has_suffix (to_lower hostname) domain ≡ true
    → All (λ a. (text_eq a [] ≡ true) ⊎ ((ip : Ip) × (deps.parse_ip a ≡ some ip))) svc.addresses
    → service_records deps o svc hostname ≡ ok want
    → AreServed deps hostname (ttl_of svc.metadata) (addresses_of svc.addresses) want
unfolding service_records
service_records-AreServed deps o svc hostname domain want kept registrable ends parse e =
    address_loop-AreServed deps hostname domain registrable ends o service_annotation (codes "svc")
      svc.metadata (ttl_of svc.metadata) 0 (addresses_of svc.addresses) want kept
      (addresses_of-full deps svc.addresses parse) e
