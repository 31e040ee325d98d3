-- ===== src/Tests/Ttl.antt =====
-- The TTL annotation.
use k8s_dns_manager.Prelude.{
  ◌≡◌, refl, ◌^◌, ◌<◌, some, [], ◌∷◌, codes, text_eq, lookup, if◌then◌else◌, ltb,
}
use k8s_dns_manager.GoStrings.{decimal}
use k8s_dns_manager.Api.{ObjectMeta, empty_metadata}
use k8s_dns_manager.Controllers.Owners.{ttl_annotation, ttl_of}
use k8s_dns_manager.Controllers.Owners.Ttl.{ttl_of-decimal}

abbrev short_lived : ObjectMeta
short_lived = record empty_metadata { annotations = (ttl_annotation, codes "60") ∷ [] }

short_lived-annotated : lookup ttl_annotation short_lived.annotations ≡ some (decimal 60)
unfolding lookup decimal text_eq
short_lived-annotated = refl

ttl_of-decimal_example :
    (ttl_of short_lived ≡ (if ltb 60 (2 ^ 32) then 60 else 0)) × (ttl_of short_lived < 2 ^ 32)
ttl_of-decimal_example = ttl_of-decimal short_lived 60 short_lived-annotated
