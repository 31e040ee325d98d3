-- ===== src/Libdns/Names.antt =====
-- makeRecord, FqdnRec, Fqdn, UnFqdn and Unquote of pkg/provider/libdns/libdns.go. AbsoluteName is
-- that of package libdns.
use k8s_dns_manager.Prelude.{
  ℕ, ◌*◌, Bool, not, ◌||◌, List, [], ◌∷◌, ◌++◌, Text, false, codes, text_eq, ◌==◌, if◌then◌else◌,
}
use k8s_dns_manager.GoStrings.{
  has_suffix, trim_suffix, trim_left, trim_right, trim_space, replace, join, decimal,
}
use k8s_dns_manager.Deps.{Deps, Rr, Rdata}
use k8s_dns_manager.Libdns.{LibRecord}

abbrev second : ℕ
second = 1000000000

unfoldable pub un_fqdn : Text → Text
un_fqdn name = trim_suffix name (codes ".")

abbrev is_quote : ℕ → Bool
is_quote c = c == b'"'

unfoldable pub unquote : Text → Text
unquote name = trim_right is_quote (trim_left is_quote (trim_space name))

abbrev pub is_one_of : Text → List Text → Bool
is_one_of s [] = false
is_one_of s (t ∷ ts) = text_eq s t || is_one_of s ts

module _ (deps : Deps) where
  -- The value of a record: the type switch of `makeRecord`.
  record_value : Rdata → Text
  record_value (Rdata.a ip) = deps.ip_string ip
  record_value (Rdata.aaaa ip) = deps.ip_string ip
  record_value (Rdata.cname target) = target
  record_value (Rdata.mx preference target) = decimal preference ++ (codes " " ++ target)
  record_value (Rdata.ns target) = target
  record_value (Rdata.srv priority weight port target) =
      decimal priority
      ++ (codes " " ++ (decimal weight ++ (codes " " ++ (decimal port ++ (codes " " ++ target)))))
  record_value (Rdata.txt targets) = join targets []
  record_value _ = []

  unfoldable pub make_record : Rr → Text → Text → LibRecord
  unfolding record_value
  make_record rr zone id = record {
    id = id;
    rtype = deps.type_to_string rr.header.rrtype;
    name = rr.header.name;
    value = record_value rr.rdata;
    ttl = rr.header.ttl * second;
  }

module _ (deps : Deps) (absolute_name : Text → Text → Text) where
  unfoldable pub fqdn : Text → Text → Text
  unfolding un_fqdn
  fqdn name zone =
      if has_suffix name (un_fqdn zone)
      then deps.fqdn name
      else if not (has_suffix name (deps.fqdn zone))
      then absolute_name name zone
      else name

  unfoldable pub fqdn_value : Text → Text → Text → Text
  fqdn_value rtype value zone =
      if is_one_of rtype (codes "A" ∷ codes "AAAA" ∷ codes "TXT" ∷ [])
      then unquote (replace value (codes "\" \"") [])
      else if is_one_of rtype (codes "CNAME" ∷ codes "MX" ∷ codes "NS" ∷ codes "SRV" ∷ [])
      then unquote (fqdn value zone)
      else value

  unfoldable pub fqdn_rec : LibRecord → Text → LibRecord
  unfolding fqdn_value
  fqdn_rec rec zone = record rec {
    name = fqdn rec.name zone;
    value = fqdn_value rec.rtype rec.value zone;
  }
