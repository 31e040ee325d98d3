-- ===== src/Ptr.antt =====
-- pkg/ptr/ptr.go: optional Booleans.
use k8s_dns_manager.Prelude.{Bool, false, Option, none, some}

unfoldable pub bool : Bool → Option Bool
bool b = some b

unfoldable pub to_bool : Option Bool → Bool
to_bool none = false
to_bool (some b) = b

unfoldable pub to_bool_d : Option Bool → Bool → Bool
to_bool_d none d = d
to_bool_d (some b) d = b
