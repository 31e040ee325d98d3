-- ===== src/Coredns/System/Starts.antt =====
-- The plugin that `setup` makes (pkg/coredns/k8s_dns/crds.go) and the states beside a cluster.
use k8s_dns_manager.Prelude.{
  ◌≡◌, refl, sym, Option, none, some, List, [], Text, Error, Result, ok, err, subst,
}
use k8s_dns_manager.Deps.{Deps}
use k8s_dns_manager.Coredns.{ZoneLib, Provider, new_provider}
use k8s_dns_manager.Coredns.Setup.{external_of, setup}
use k8s_dns_manager.Coredns.System.{Reach, start}

module _ (deps : Deps) (lib : ZoneLib) where
  setup_cases :
      (cache : Option Error) (entries : List (Text × List Text)) (p : Provider lib)
      (r : Result Text)
      → external_of entries [] ≡ r
      → setup deps lib cache entries ≡ ok p
      → (address : Text) × (r ≡ ok address)
        × (cache ≡ none)
        × (p ≡ new_provider lib (deps.parse_ip address))
  unfolding setup
  setup_cases cache entries p (err e) h k = cc (rw (setup, h) at k)
  setup_cases (some e) entries p (ok address) h k = cc (rw (setup, h) at k)
  setup_cases none entries p (ok address) h k =
      let same : ok (new_provider lib (deps.parse_ip address)) ≡ ok p = rw (setup, h) at k in
      (address, refl, refl, cc same)

  -- When setup succeeds, the cache could be made, the entries name an address or none, and the
  -- plugin is in the state from which the states beside a cluster begin, with that address.
  pub setup-Reach :
      (cache : Option Error) (entries : List (Text × List Text)) (p : Provider lib)
      → setup deps lib cache entries ≡ ok p
      → (address : Text) × (external_of entries [] ≡ ok address)
        × (cache ≡ none)
        × Reach deps lib (deps.parse_ip address) (record { cluster = []; plugin = p })
  setup-Reach cache entries p h =
      let (address, e, c, q) = setup_cases cache entries p (external_of entries []) refl h in
      (
        address,
        e,
        c,
        subst
            (λ (v : Provider lib).
              Reach deps lib (deps.parse_ip address) (record { cluster = []; plugin = v }))
            (sym q) start,
      )
