-- ===== src/Controllers/Owners/Ttl.antt =====
-- The TTL annotation of a Service or an Ingress (controllers/service_controller.go,
-- controllers/ingress_controller.go).
use k8s_dns_manager.Prelude.{
  ℕ, ◌≡◌, ◌^◌, ◌<◌, some, lookup, if◌then◌else◌, ltb, Bool-cases, inl, inr, arith,
}
use k8s_dns_manager.GoStrings.{decimal}
use k8s_dns_manager.GoStrings.ParseUint.{parse_uint32-decimal}
use k8s_dns_manager.Api.{ObjectMeta}
use k8s_dns_manager.Controllers.Owners.{ttl_annotation, ttl_of}

-- If the TTL annotation is the decimal numeral of a number, the number is the TTL, or 0, which
-- stands for the default, if it does not fit in 32 bits. The TTL fits in 32 bits.
pub ttl_of-decimal :
    (m : ObjectMeta) (n : ℕ)
    → lookup ttl_annotation m.annotations ≡ some (decimal n)
    → (ttl_of m ≡ (if ltb n (2 ^ 32) then n else 0)) × (ttl_of m < 2 ^ 32)
unfolding ttl_of
ttl_of-decimal m n h = elim (Bool-cases (ltb n (2 ^ 32))) [
  | inl fits ↦ ground (arith, parse_uint32-decimal n)
  | inr large ↦ ground (arith, parse_uint32-decimal n)
]
