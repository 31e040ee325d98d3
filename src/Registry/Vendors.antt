-- ===== src/Registry/Vendors.antt =====
-- The factories of pkg/provider/coredns and pkg/provider/libdns, which cmd/k8s-dns/providers.go
-- imports.
use k8s_dns_manager.Prelude.{
  ◌≡◌, ◌≢◌, [], ◌++◌, Text, codes, external, Result, ok, err, text_eq, text_eq_iff, if◌then◌else◌,
  arith,
}
use k8s_dns_manager.Libdns.{Client}
use k8s_dns_manager.Registry.{
  Env, Factories, register, new, AreNamed, register-AreNamed, new-AreNamed,
}

-- The providers that the factories make; `libdns.NewSync` puts the calls under a mutex.
pub data Built : Type 0 where
  noop : Built
  plain synced : Text → Client → Built

-- The clients of the vendors' packages, for their credentials.
pub record Vendors : Type 0 where
  pub cloudflare : Text → Client
  pub hetzner : Text → Client
  pub ovh : Text → Text → Text → Text → Client
  pub scaleway : Text → Text → Client

-- `v := os.Getenv(name); if v == "" { return nil, … }`; `shown` is the name in the message.
unfoldable pub require : Env → Text → Text → (Text → Result Built) → Result Built
require env name shown make =
    let v = env name in
    let rest = make v in
    if text_eq v []
    then err (external (codes "empty " ++ (shown ++ codes " environment variable")))
    else rest

module _ (v : Vendors) where
  noop_factory : Env → Result Built
  noop_factory env = ok noop

  cloudflare_factory : Env → Result Built
  cloudflare_factory env =
      require env (codes "CLOUDFLARE_TOKEN") (codes "CF_TOKEN")
        λ token. ok (plain (codes "cloudflare") (v.cloudflare token))

  hetzner_factory : Env → Result Built
  hetzner_factory env =
      require env (codes "HETZNER_TOKEN") (codes "HETZNER_TOKEN")
        λ token. ok (synced (codes "hetzner") (v.hetzner token))

  ovh_factory : Env → Result Built
  ovh_factory env = require env (codes "OVH_ENDPOINT") (codes "OVH_ENDPOINT") λ endpoint.
      require env (codes "OVH_APPLICATION_KEY") (codes "OVH_APPLICATION_KEY") λ key.
        require env (codes "OVH_APPLICATION_SECRET") (codes "OVH_APPLICATION_SECRET") λ secret.
          require env (codes "OVH_CONSUMER_KEY") (codes "OVH_CONSUMER_KEY")
            λ consumer. ok (plain (codes "ovh") (v.ovh endpoint key secret consumer))

  scaleway_factory : Env → Result Built
  scaleway_factory env =
      require env (codes "SCALEWAY_SECRET_KEY") (codes "SCALEWAY_SECRET_KEY") λ key.
        require env (codes "SCALEWAY_ORGANIZATION_ID") (codes "SCALEWAY_ORGANIZATION_ID")
          λ organization. ok (plain (codes "scaleway") (v.scaleway key organization))

  -- The registry after the `init` functions.
  unfoldable pub providers : Factories Built
  unfolding noop_factory cloudflare_factory hetzner_factory ovh_factory scaleway_factory
  providers = register (codes "scaleway") scaleway_factory (
      register (codes "ovh") ovh_factory (
        register (codes "hetzner") hetzner_factory (
          register (codes "cloudflare") cloudflare_factory
            (register (codes "coredns") noop_factory []))))

-- The name of a provider, as it stands in the status of its DNSRecords. The provider of CoreDNS
-- writes none; it is known by its registration.
abbrev pub name_of : Built → Text
name_of noop = codes "coredns"
name_of (plain name client) = name
name_of (synced name client) = name

require-ok :
    (env : Env) (name shown : Text) (make : Text → Result Built) (p : Built)
    → require env name shown make ≡ ok p
    → (env name ≢ []) × (make (env name) ≡ ok p)
unfolding require
require-ok env name shown make p e = ground (arith, text_eq_iff (env name) [])

module _ (v : Vendors) where
  providers-AreNamed : AreNamed name_of (providers v)
  unfolding providers noop_factory cloudflare_factory hetzner_factory ovh_factory scaleway_factory
  providers-AreNamed =
      register-AreNamed name_of (codes "scaleway") (scaleway_factory v) _
        (λ env p e.
          let (_, e₁) = require-ok env _ _ _ p e in
          let (_, e₂) = require-ok env _ _ _ p e₁ in ground arith)
        (register-AreNamed name_of (codes "ovh") (ovh_factory v) _
          (λ env p e.
            let (_, e₁) = require-ok env _ _ _ p e in
            let (_, e₂) = require-ok env _ _ _ p e₁ in
            let (_, e₃) = require-ok env _ _ _ p e₂ in
            let (_, e₄) = require-ok env _ _ _ p e₃ in ground arith)
          (register-AreNamed name_of (codes "hetzner") (hetzner_factory v) _
            (λ env p e. let (_, e₁) = require-ok env _ _ _ p e in ground arith)
            (register-AreNamed name_of (codes "cloudflare") (cloudflare_factory v) _
              (λ env p e. let (_, e₁) = require-ok env _ _ _ p e in ground arith)
              (register-AreNamed name_of (codes "coredns") (noop_factory v) []
                (λ env p e. ground arith) tt))))

  -- A provider that New makes by a name is the libdns provider of that name, or, by the name
  -- coredns, the provider that does nothing.
  pub new-named :
      (env : Env) (n : Text) (p : Built) → new (providers v) env n ≡ ok p → name_of p ≡ n
  new-named env n p e = new-AreNamed name_of (providers v) env n p providers-AreNamed e
