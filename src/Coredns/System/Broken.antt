-- ===== src/Coredns/System/Broken.antt =====
-- The handlers of the informer and DNSRecords that are not converted.
use k8s_dns_manager.Prelude.{◌≡◌, refl, Option, some, Error, err, arith}
use k8s_dns_manager.Deps.{Deps}
use k8s_dns_manager.Api.{DnsRecord}
use k8s_dns_manager.Record.{to_rr}
use k8s_dns_manager.Coredns.{ZoneLib, Provider}
use k8s_dns_manager.Coredns.Informer.{make_record, handle_add, handle_update, handle_delete}
use k8s_dns_manager.Coredns.System.Contents.{IsBroken}

module _ (deps : Deps) where
  pub some-IsBroken :
      (o : DnsRecord) (e : Error) {v : Option DnsRecord}
      → to_rr deps o ≡ err e
      → v ≡ some o
      → IsBroken deps v
  some-IsBroken o e c there b x h d = ground (arith, c, d, there, h)

module _ (deps : Deps) (lib : ZoneLib) where
  -- The handlers return early.
  pub handle_add-broken :
      (p : Provider lib) (o : DnsRecord) (e : Error)
      → to_rr deps o ≡ err e
      → p ≡ handle_add deps lib p (some o)
  unfolding handle_add make_record
  handle_add-broken p o e c = rw c refl

  pub handle_delete-broken :
      (p : Provider lib) (o : DnsRecord) (e : Error)
      → to_rr deps o ≡ err e
      → p ≡ handle_delete deps lib p (some o)
  unfolding handle_delete make_record
  handle_delete-broken p o e c = rw c refl

  pub handle_update-broken :
      (p : Provider lib) (o v : DnsRecord) (e : Error)
      → to_rr deps o ≡ err e
      → p ≡ handle_update deps lib p (some o) (some v)
  unfolding handle_update make_record
  handle_update-broken p o v e c = rw c refl
