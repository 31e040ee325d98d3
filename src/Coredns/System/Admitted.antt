-- ===== src/Coredns/System/Admitted.antt =====
-- From a DNSRecord as a user writes it to the zones of the plugin.
use k8s_dns_manager.Prelude.{
  ◌≡◌, ◌∙◌, ap, refl, ◌⊎◌, inl, inr, true, Option, none, some, Text, lookup,
}
use k8s_dns_manager.Deps.{Deps, Ip, Rr}
use k8s_dns_manager.Api.{
  ARecord, CnameRecord, TxtRecord, SrvRecord, MxRecord, DnsRecordSpec, DnsRecord,
}
use k8s_dns_manager.Ptr.{to_bool_d}
use k8s_dns_manager.Webhook.Default.{default_switch, default}
use k8s_dns_manager.Record.Admitted.{Asks, default-admitted}
use k8s_dns_manager.Controllers.Records.Convergence.{to_rr-of_spec}
use k8s_dns_manager.Coredns.{ZoneLib}
use k8s_dns_manager.Coredns.Informer.{is_active}
use k8s_dns_manager.Coredns.Sync.{in_zone, place}
use k8s_dns_manager.Coredns.Sync.Held.{Holding, IsPlain, IsHeld}
use k8s_dns_manager.Coredns.System.{System, Reach}
use k8s_dns_manager.Coredns.System.Served.{Reach-IsHeld}

module _ (deps : Deps) where
  active-default_switch :
      (a : Option ARecord) (c : Option CnameRecord) (t : Option TxtRecord) (v : Option SrvRecord)
      (m : Option MxRecord) (s : DnsRecordSpec)
      → (default_switch deps a c t v m s).active ≡ s.active
  unfolding default_switch
  active-default_switch (some _) _ _ _ _ s = refl
  active-default_switch none (some _) _ _ _ s = refl
  active-default_switch none none (some _) _ _ s = refl
  active-default_switch none none none (some _) _ s = refl
  active-default_switch none none none none (some _) s = refl
  active-default_switch none none none none none s = refl

  pub is_active-of_spec : (o r : DnsRecord) → o.spec ≡ r.spec → is_active deps o ≡ is_active deps r
  unfolding is_active
  is_active-of_spec o r e = ap (λ (x : DnsRecordSpec). to_bool_d x.active true) e

  default-is_active :
      (r : DnsRecord)
      → (r.spec.active ≡ none) ⊎ (r.spec.active ≡ some true)
      → is_active deps (default deps r) ≡ true
  unfolding is_active to_bool_d default
  default-is_active r (inl h) = rw (active-default_switch _ _ _ _ _ _, h) refl
  default-is_active r (inr h) = rw (active-default_switch _ _ _ _ _ _, h) refl

-- Let a user's DNSRecord ask for a record, by names that end in their registrable domain or that
-- are absolute already, and not turn it off, and let the cluster have a DNSRecord of the
-- specification that the webhook's defaults make of it. In every state of a run in which no two
-- DNSRecords are converted to records with one text, no change turns a DNSRecord that is converted
-- into one that is not, or back, and each deletion is passed on with the last object, the zone of
-- the record's registrable domain holds the record, if it has such a domain, is no SOA or NS
-- record, and is taken by every zone.
pub default-IsHeld :
    (deps : Deps) (lib : ZoneLib) (hold : Holding lib) {address : Option Ip} {s : System lib}
    → Reach deps lib address s
    → (k n : Text) (r o : DnsRecord) (rr : Rr) → Asks deps r.spec rr
    → (r.spec.active ≡ none) ⊎ (r.spec.active ≡ some true)
    → lookup k s.cluster ≡ some o
    → o.spec ≡ (default deps r).spec
    → place deps lib rr ≡ in_zone n
    → IsPlain deps lib hold rr
    → IsHeld deps lib hold s.plugin.zones.table n rr
default-IsHeld deps lib hold reached k n r o rr asks on there same placed plain =
    Reach-IsHeld deps lib hold reached k n o rr there
      (to_rr-of_spec deps o (default deps r) same ∙ (default-admitted deps r rr asks).1)
      (is_active-of_spec deps o (default deps r) same ∙ default-is_active deps r on) placed plain
