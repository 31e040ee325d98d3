-- ===== src/Coredns/System/Parted.antt =====
-- Where the table of the plugin parts from the DNSRecords of the cluster.
use k8s_dns_manager.Prelude.{
  ◌≡◌, sym, ap, ◌∙◌, true, none, some, refl, Error, ok, err, text_eq_refl, lookup,
}
use k8s_dns_manager.Deps.{Deps, Rr}
use k8s_dns_manager.Api.{DnsRecord}
use k8s_dns_manager.Record.{to_rr}
use k8s_dns_manager.Coredns.{ZoneLib, Provider}
use k8s_dns_manager.Coredns.Informer.{
  is_active, make_record, handle_add, handle_update, handle_delete,
}
use k8s_dns_manager.Coredns.System.Broken.{handle_delete-broken, handle_update-broken}
use k8s_dns_manager.Coredns.System.Refines.{lookup-handle_add, lookup-handle_delete}

module _ (deps : Deps) (lib : ZoneLib) where
  -- Two DNSRecords whose records have one text: when the first is deleted, the table has no record
  -- of the text, although the second is there and active.
  pub shared_text-lost :
      (p : Provider lib) (o o' : DnsRecord) (rr rr' : Rr)
      → to_rr deps o ≡ ok rr
      → to_rr deps o' ≡ ok rr'
      → deps.rr_string rr ≡ deps.rr_string rr'
      → is_active deps o' ≡ true
      → (lookup
            (deps.rr_string rr')
            (handle_add deps lib (handle_add deps lib p (some o)) (some o')).records
          ≡ some rr')
        × (lookup
              (deps.rr_string rr')
              (handle_delete deps lib
                (handle_add deps lib (handle_add deps lib p (some o)) (some o'))
                (some o)).records
            ≡ none)
  shared_text-lost p o o' rr rr' c c' s on =
      let q = handle_add deps lib p (some o) in
      let q' = handle_add deps lib q (some o') in
      (
        sym (lookup-handle_add deps lib q o' rr' (deps.rr_string rr') c')
            ∙ rw (on, text_eq_refl (deps.rr_string rr')) refl,
        sym (lookup-handle_delete deps lib q' o rr (deps.rr_string rr') c)
            ∙ rw (s, text_eq_refl (deps.rr_string rr')) refl,
      )

  handle_update-to_broken :
      (p : Provider lib) (o v : DnsRecord) (rr : Rr) (e : Error)
      → to_rr deps o ≡ ok rr
      → to_rr deps v ≡ err e
      → handle_update deps lib p (some o) (some v) ≡ p
  unfolding handle_update make_record
  handle_update-to_broken p o v rr e c d = rw (c, d) refl

  -- A DNSRecord that is converted and active is added, and then changed into a version that is not
  -- converted: the table has the record of its first version, also when the DNSRecord is then
  -- deleted; and if instead it is changed into a version that is converted, nothing changes.
  pub broken_version-stale :
      (p : Provider lib) (o v w : DnsRecord) (rr : Rr) (e : Error)
      → to_rr deps o ≡ ok rr
      → is_active deps o ≡ true
      → to_rr deps v ≡ err e
      → let q = handle_update deps lib (handle_add deps lib p (some o)) (some o) (some v) in
        (lookup (deps.rr_string rr) q.records ≡ some rr)
        × (handle_delete deps lib q (some v) ≡ q)
        × (handle_update deps lib q (some v) (some w) ≡ q)
  broken_version-stale p o v w rr e c on d =
      let q = handle_add deps lib p (some o) in
      let kept = handle_update-to_broken q o v rr e c d in
      (
        ap (λ (u : Provider lib). lookup (deps.rr_string rr) u.records) kept
            ∙ sym (lookup-handle_add deps lib p o rr (deps.rr_string rr) c)
            ∙ rw (on, text_eq_refl (deps.rr_string rr)) refl,
        sym (handle_delete-broken deps lib _ v e d),
        sym (handle_update-broken deps lib _ v w e d),
      )
