-- ===== src/Coredns/Setup.antt =====
-- `setup` and `New` of pkg/coredns/k8s_dns/crds.go: the directive of the configuration. The entries
-- that the controller of Caddy iterates over, each with the arguments behind it, are a parameter.
use k8s_dns_manager.Prelude.{
  Option, none, some, List, [], ◌∷◌, ◌++◌, Text, codes, Error, external, Result, ok, err, text_eq,
  if◌then◌else◌,
}
use k8s_dns_manager.Deps.{Deps}
use k8s_dns_manager.Coredns.{ZoneLib, Provider, new_provider}

-- What a property of the block makes of the address.
property : Text → List Text → Result Text
property name args =
    if text_eq name (codes "external")
    then elim args [ [] ↦ err (external (codes "Wrong argument count")) | a ∷ _ ↦ ok a ]
    else err (external (codes "unknown property '" ++ (name ++ codes "'")))

-- The loop of `setup` over the entries; `address` is what `external` holds.
unfoldable pub external_of : List (Text × List Text) → Text → Result Text
unfolding property
external_of [] address = ok address
external_of ((name, args) ∷ entries) address =
    let rest : Text → Result Text = λ a. external_of entries a in
    elim (property name args) [ err e ↦ err e | ok a ↦ rest a ]

-- The plugin's provider; `new_cache` is the error of the cache's construction.
unfoldable pub setup :
    Deps → (lib : ZoneLib) → Option Error → List (Text × List Text) → Result (Provider lib)
setup deps lib new_cache entries = elim (external_of entries []) [
  | err e ↦ err e
  | ok address ↦ elim new_cache [
    | some e ↦ err e
    | none ↦ ok (new_provider lib (deps.parse_ip address))
  ]
]
