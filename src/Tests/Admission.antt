-- ===== src/Tests/Admission.antt =====
-- DNSRecords as users write them, before the webhook and in the cluster.
use k8s_dns_manager.Prelude.{
  ◌≡◌, refl, inl, none, some, Text, codes, ok, err, lookup, empty_txt_record, text_eq,
}
use k8s_dns_manager.GoStrings.{to_lower, has_suffix}
use k8s_dns_manager.Deps.{Rr, Rdata, type_mx}
use k8s_dns_manager.Api.{MxRecord, ARecord, DnsRecord, empty_spec}
use k8s_dns_manager.Webhook.Default.{default, default_switch, default_a, enforce_fqdn}
use k8s_dns_manager.Webhook.Validate.{validate}
use k8s_dns_manager.Record.{to_rr, to_rr_txt}
use k8s_dns_manager.Record.Admitted.{
  plain_rr, absolute, IsNamed, relative, Asks, a, mx, default-admitted,
}
use k8s_dns_manager.Coredns.Sync.Held.{IsHeld}
use k8s_dns_manager.Coredns.System.Admitted.{default-IsHeld}
use k8s_dns_manager.Tests.Samples.{deps, a_rr, a_record, txt}
use k8s_dns_manager.Tests.Plugin.{lib}
use k8s_dns_manager.Tests.Cluster.{
  www, one_record, one_record-Reach, lib-Holding, a_rr-IsPlain, www-there, www-placed,
}

abbrev upper : Text
upper = codes "WWW.example.org"

upper-IsNamed : IsNamed deps upper
unfolding to_lower has_suffix
upper-IsNamed = relative (codes "example.org") refl refl refl

abbrev mail : MxRecord
mail = record { name = upper; class = 0; ttl = 60; preference = 0; target = upper }

abbrev mail_record : DnsRecord
mail_record = record a_record { spec = record empty_spec { mx = some mail } }

abbrev mail_rr : Rr
mail_rr = plain_rr upper type_mx 0 60 (Rdata.mx 10 (absolute upper))

default-admitted_example :
    (validate deps (default deps mail_record) ≡ none)
    × (to_rr deps (default deps mail_record) ≡ ok mail_rr)
default-admitted_example =
    default-admitted deps mail_record mail_rr
      (mx mail (refl, refl, refl, refl) refl upper-IsNamed upper-IsNamed)

-- The record of the cluster before its defaults.
abbrev web : ARecord
web = record { name = upper; class = 0; ttl = 0; target = codes "1.2.3.4" }

abbrev web_record : DnsRecord
web_record = record a_record { spec = record empty_spec { a = some web } }

web_record-Asks : Asks deps web_record.spec a_rr
unfolding to_lower text_eq absolute has_suffix
web_record-Asks = a web (codes "1.2.3.4") refl upper-IsNamed refl refl

default-web_record : default deps web_record ≡ a_record
unfolding default default_switch default_a enforce_fqdn to_lower has_suffix
default-web_record = refl

web_record-there : lookup www one_record.cluster ≡ some (default deps web_record)
web_record-there = rw default-web_record www-there

default-IsHeld_example :
    IsHeld deps lib lib-Holding one_record.plugin.zones.table (codes "example.org.") a_rr
default-IsHeld_example =
    default-IsHeld deps lib lib-Holding one_record-Reach www (codes "example.org.") web_record
      (default deps web_record) a_rr web_record-Asks (inl refl) web_record-there refl www-placed
      a_rr-IsPlain

-- A version with a TXT record that has no text.
abbrev textless : DnsRecord
textless = record a_record { spec = record empty_spec { txt = some txt } }

textless-broken : to_rr deps textless ≡ err empty_txt_record
unfolding to_rr to_rr_txt
textless-broken = refl
