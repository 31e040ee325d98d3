-- ===== src/Coredns/System/Served.antt =====
-- The active DNSRecords of the cluster and the zones of the plugin.
use k8s_dns_manager.Prelude.{◌≡◌, true, Option, some, Text, ok, subst, lookup}
use k8s_dns_manager.Deps.{Deps, Ip, Rr}
use k8s_dns_manager.Api.{DnsRecord}
use k8s_dns_manager.Record.{to_rr}
use k8s_dns_manager.Coredns.{ZoneLib, Provider}
use k8s_dns_manager.Coredns.Sync.{in_zone, place}
use k8s_dns_manager.Coredns.Sync.Held.{Holding, IsPlain, IsThere, IsHeld, sync-IsThere}
use k8s_dns_manager.Coredns.Informer.{is_active}
use k8s_dns_manager.Coredns.System.{System, Reach}
use k8s_dns_manager.Coredns.System.Refines.{Reach-IsMirror}
use k8s_dns_manager.Coredns.System.Synced.{Reach-IsSynced}

-- In every state of a run in which no two DNSRecords are converted to records with one text, no
-- change turns a DNSRecord that is converted into one that is not, or back, and each deletion is
-- passed on with the last object, the record of each active DNSRecord is held by the zone of its
-- registrable domain, and the plugin has that zone, if the record has such a domain, is no SOA or
-- NS record, and is taken by every zone.
pub Reach-IsHeld :
    (deps : Deps) (lib : ZoneLib) (hold : Holding lib) {address : Option Ip} {s : System lib}
    → Reach deps lib address s
    → (k n : Text) (o : DnsRecord) (rr : Rr) → lookup k s.cluster ≡ some o
    → to_rr deps o ≡ ok rr
    → is_active deps o ≡ true
    → place deps lib rr ≡ in_zone n
    → IsPlain deps lib hold rr
    → IsHeld deps lib hold s.plugin.zones.table n rr
Reach-IsHeld deps lib hold {s = s} r k n o rr there c on placed plain =
    subst (λ (p : Provider lib). IsThere deps lib hold p.zones.table rr) (Reach-IsSynced deps lib r)
      (sync-IsThere deps lib hold s.plugin (deps.rr_string rr) rr
        ((Reach-IsMirror deps lib r).complete k o rr there c on))
      n placed plain
