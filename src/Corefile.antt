-- ===== src/Corefile.antt =====
-- The configuration of the embedded CoreDNS: Config and Render of pkg/coredns/config/config.go, and
-- what pkg/coredns/coredns.go does with the text.
pub mod Reading
pub mod Words
pub mod Server
use k8s_dns_manager.Prelude.{
  ℕ, suc, Bool, true, false, not, List, [], ◌∷◌, ◌++◌, Text, codes, is_empty, text_eq,
  if◌then◌else◌,
}
use k8s_dns_manager.GoStrings.{decimal}

-- A Go int.
pub data ℤ : Type 0 where
  pos negsuc : ℕ → ℤ

-- %d, and the test of the template for a number other than 0
abbrev pub int_text : ℤ → Text
int_text (pos n) = decimal n
int_text (negsuc n) = b'-' ∷ decimal (suc n)

abbrev pub is_set : ℤ → Bool
is_set (pos ℕ.zero) = false
is_set _ = true

pub record Config : Type 0 where
  pub forward : List Text
  pub log : Bool
  pub errors : Bool
  pub metrics : Bool
  pub cache : ℤ
  pub any : Bool
  pub external_address : Text

-- `{{ range $val := .Forward }}{{ $val }} {{ end }}`
unfoldable pub addresses : List Text → Text
addresses [] = []
addresses (v ∷ vs) = v ++ b' ' ∷ addresses vs

-- A line of the block that stands under a condition of the template.
abbrev pub line_if : {A : Type 0} → Bool → A → List A
line_if test line = if test then line ∷ [] else []

-- The lines of the block, in the order of the template.
unfoldable pub block : Config → List Text
unfolding addresses
block c =
    (codes "\tk8s_dns" ++ (if is_empty c.external_address then [] else b' ' ∷ c.external_address))
    ∷ (line_if c.any (codes "\tany")
        ++ (line_if (not (is_empty c.forward)) (codes "\tforward . " ++ addresses c.forward)
            ++ (line_if (is_set c.cache) (codes "\tcache " ++ int_text c.cache)
                ++ (line_if c.log (codes "\tlog")
                    ++ (line_if c.errors (codes "\terrors")
                        ++ line_if c.metrics (codes "\tprometheus 0.0.0.0:9153"))))))

-- Every line of the template begins behind a line break.
unfoldable pub broken : List Text → Text
broken [] = []
broken (l ∷ ls) = b'\n' ∷ (l ++ broken ls)

unfoldable pub render : Config → Text
unfolding block broken
render c = broken (codes ".:53 {" ∷ (block c ++ codes "}" ∷ [])) ++ codes "\n"

-- `dnsserver.Directives`
abbrev pub directives : List Text
directives =
    codes "metadata"
    ∷ codes "cancel"
    ∷ codes "tls"
    ∷ codes "reload"
    ∷ codes "nsid"
    ∷ codes "bufsize"
    ∷ codes "root"
    ∷ codes "bind"
    ∷ codes "debug"
    ∷ codes "trace"
    ∷ codes "ready"
    ∷ codes "health"
    ∷ codes "pprof"
    ∷ codes "prometheus"
    ∷ codes "errors"
    ∷ codes "log"
    ∷ codes "dnstap"
    ∷ codes "dns64"
    ∷ codes "acl"
    ∷ codes "any"
    ∷ codes "chaos"
    ∷ codes "loadbalance"
    ∷ codes "cache"
    ∷ codes "rewrite"
    ∷ codes "dnssec"
    ∷ codes "autopath"
    ∷ codes "template"
    ∷ codes "transfer"
    ∷ codes "hosts"
    ∷ codes "route53"
    ∷ codes "azure"
    ∷ codes "clouddns"
    ∷ codes "k8s_dns"
    ∷ codes "k8s_external"
    ∷ codes "kubernetes"
    ∷ codes "file"
    ∷ codes "auto"
    ∷ codes "secondary"
    ∷ codes "etcd"
    ∷ codes "loop"
    ∷ codes "forward"
    ∷ codes "grpc"
    ∷ codes "erratic"
    ∷ codes "whoami"
    ∷ codes "on"
    ∷ codes "sign"
    ∷ []

abbrev pub default_config : Text
default_config = codes "\n.:53 {\n    k8s_dns\n    forward . 8.8.8.8\n    log\n    errors\n}\n"

-- The text that confLoader hands to Caddy once Run was called, where `Config` had its first value.
unfoldable pub loaded : Text → Text
loaded config = if not (text_eq config []) then config else default_config
