-- ===== src/Coredns/Informer.antt =====
-- The event handlers of `Run` and `makeRecord` (pkg/coredns/k8s_dns/provider.go). Each runs to its
-- end under the informer; the errors of `sync` are only logged. `none` is an object that is nil or
-- no DNSRecord.
pub mod Lifetime
use k8s_dns_manager.Prelude.{
  ℕ, Bool, true, Option, none, some, List, Text, codes, external, record_conversion, Result, ok,
  err, insert, delete, if◌then◌else◌,
}
use k8s_dns_manager.Deps.{Deps, Rr}
use k8s_dns_manager.Ptr.{to_bool_d}
use k8s_dns_manager.Api.{DnsRecord}
use k8s_dns_manager.Record.{to_rr}
use k8s_dns_manager.Coredns.{ZoneLib, Provider}
use k8s_dns_manager.Coredns.Sync.{sync}

module _ (deps : Deps) where
  wrapped : DnsRecord → Result Rr → Result (Rr × DnsRecord)
  wrapped r (err e) = err (record_conversion e)
  wrapped r (ok rr) = ok (rr, r)

  unfoldable pub make_record : Option DnsRecord → Result (Rr × DnsRecord)
  unfolding wrapped
  make_record none = err (external (codes "obj is nil or is not a DNSRecord"))
  make_record (some r) = wrapped r (to_rr deps r)

  unfoldable pub is_active : DnsRecord → Bool
  is_active r = to_bool_d r.spec.active true

  module _ (lib : ZoneLib) where
    -- `p.records[rr.String()] = rr` and `delete(p.records, rr.String())`
    abbrev pub put : Provider lib → Rr → Provider lib
    put p rr = record p { records = insert (deps.rr_string rr) rr p.records }

    abbrev pub drop : Provider lib → Rr → Provider lib
    drop p rr = record p { records = delete (deps.rr_string rr) p.records }

    -- The first critical section of each handler; without one, it returns early.
    unfoldable pub change_added : Provider lib → Result (Rr × DnsRecord) → Option (Provider lib)
    change_added p (err e) = none
    change_added p (ok (rr, r)) = if is_active r then some (put p rr) else none

    unfoldable pub change_replaced :
        Provider lib → Rr → Result (Rr × DnsRecord) → Option (Provider lib)
    change_replaced p old (err e) = none
    change_replaced p old (ok (rr, r)) =
        let dropped = drop p old in some (if is_active r then put dropped rr else dropped)

    unfoldable pub change_updated :
        Provider lib → Result (Rr × DnsRecord) → Result (Rr × DnsRecord) → Option (Provider lib)
    unfolding change_replaced
    change_updated p (err e) new = none
    change_updated p (ok (old, _)) new = change_replaced p old new

    unfoldable pub change_deleted : Provider lib → Result (Rr × DnsRecord) → Option (Provider lib)
    change_deleted p (err e) = none
    change_deleted p (ok (rr, _)) = some (drop p rr)

    -- The second critical section, if there was a first one.
    finished : Provider lib → Option (Provider lib) → Provider lib
    finished p none = p
    finished p (some q) = (sync deps lib q).0

    unfoldable pub handle_add : Provider lib → Option DnsRecord → Provider lib
    unfolding change_added finished
    handle_add p obj = finished p (change_added p (make_record obj))

    unfoldable pub handle_update : Provider lib → Option DnsRecord → Option DnsRecord → Provider lib
    unfolding change_updated finished
    handle_update p old new = finished p (change_updated p (make_record old) (make_record new))

    unfoldable pub handle_delete : Provider lib → Option DnsRecord → Provider lib
    unfolding change_deleted finished
    handle_delete p obj = finished p (change_deleted p (make_record obj))
