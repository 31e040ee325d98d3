-- ===== src/Webhook/Validate.antt =====
-- `validate` of api/v1alpha1/dnsrecord_webhook.go and of its five record types. An error of the
-- list is the path of the field, its value and the detail.
use k8s_dns_manager.Prelude.{
  Bool, not, ◌||◌, Option, none, some, List, [], ◌∷◌, ◌++◌, Text, codes, Result, ok, is_some,
  is_empty, text_eq, if◌then◌else◌,
}
use k8s_dns_manager.GoStrings.{has_suffix}
use k8s_dns_manager.Deps.{Deps, Rr}
use k8s_dns_manager.Api.{
  ARecord, CnameRecord, TxtRecord, SrvRecord, MxRecord, DnsRecordSpec, DnsRecord,
}

pub data BadValue : Type 0 where
  text : Text → BadValue
  texts : List Text → BadValue
  spec : DnsRecordSpec → BadValue

-- field.Invalid
pub record Invalid : Type 0 where
  pub path : List Text
  pub value : BadValue
  pub detail : Text

abbrev pub not_absolute : Text
not_absolute = codes "must be an absolute dns name (should ends with a dot)"

abbrev pub name_not_absolute : Text
name_not_absolute = codes "name must be an absolute dns name (should ends with a dot)"

-- `if test { errs = append(errs, field.Invalid(spec.kind.field, value, detail)) }`
abbrev pub invalid_if : Bool → Text → Text → BadValue → Text → List Invalid
invalid_if test kind field value detail =
    if test
    then record { path = codes "spec" ∷ kind ∷ field ∷ []; value = value; detail = detail } ∷ []
    else []

abbrev no_dot : Text → Bool
no_dot s = not (has_suffix s (codes "."))

module _ (deps : Deps) where
  unfoldable pub validate_a : ARecord → List Invalid
  validate_a r =
      invalid_if (no_dot r.name) (codes "a") (codes "name") (text r.name) name_not_absolute
      ++ invalid_if (not (is_some (deps.parse_ip r.target)) || text_eq r.target []) (codes "a")
          (codes "target") (text r.target) (codes "A Record: target must be a valid ip address")

  unfoldable pub validate_raw : Result (Option Rr) → Text → List Invalid
  validate_raw (ok (some _)) raw = []
  validate_raw _ raw =
      record {
        path = codes "spec" ∷ codes "raw" ∷ [];
        value = text raw;
        detail = codes "failed to parse raw record";
      }
      ∷ []

unfoldable pub validate_cname : CnameRecord → List Invalid
validate_cname r =
    invalid_if (no_dot r.name) (codes "cname") (codes "name") (text r.name) name_not_absolute
    ++ (invalid_if (text_eq r.target []) (codes "cname") (codes "target") (text r.target)
          (codes "SRV record: target is required")
        ++ invalid_if (no_dot r.target) (codes "cname") (codes "target") (text r.target)
            (codes "target must be an absolute dns name (should ends with a dot)"))

unfoldable pub validate_txt : TxtRecord → List Invalid
validate_txt r =
    invalid_if (no_dot r.name) (codes "txt") (codes "name") (text r.name) name_not_absolute
    ++ invalid_if (is_empty r.targets) (codes "txt") (codes "targets") (texts r.targets)
        (codes "TXT Record: target cannot be empty")

unfoldable pub validate_srv : SrvRecord → List Invalid
validate_srv r =
    invalid_if (no_dot r.name) (codes "srv") (codes "name") (text r.name) not_absolute
    ++ (invalid_if (text_eq r.target []) (codes "srv") (codes "target") (text r.target)
          (codes "SRV record: target is required")
        ++ invalid_if (no_dot r.target) (codes "srv") (codes "target") (text r.target) not_absolute)

unfoldable pub validate_mx : MxRecord → List Invalid
validate_mx r =
    invalid_if (no_dot r.name) (codes "mx") (codes "name") (text r.name) not_absolute
    ++ (invalid_if (text_eq r.target []) (codes "mx") (codes "target") (text r.target)
          (codes "MX Record: target cannot be empty")
        ++ invalid_if (no_dot r.target) (codes "mx") (codes "target") (text r.target) not_absolute)

module _ (deps : Deps) where
  -- The `switch` of `validate`.
  validate_switch :
      Option ARecord
      → Option CnameRecord
      → Option TxtRecord
      → Option SrvRecord
      → Option MxRecord
      → DnsRecordSpec
      → List Invalid
  validate_switch (some r) _ _ _ _ s = validate_a deps r
  validate_switch none (some r) _ _ _ s = validate_cname r
  validate_switch none none (some r) _ _ s = validate_txt r
  validate_switch none none none (some r) _ s = validate_srv r
  validate_switch none none none none (some r) s = validate_mx r
  validate_switch none none none none none s =
      if not (text_eq s.raw [])
      then validate_raw deps (deps.new_rr s.raw) s.raw
      else record {
        path = codes "spec" ∷ [];
        value = spec s;
        detail = codes "neither a A, CNAME, TXT, SRV, MX or RAW record";
      }
        ∷ []

  -- The list of errors; `validate` returns nil exactly when it is empty, and else the list within an
  -- Invalid API error. The three webhook entry points return it as it is.
  unfoldable pub validate_spec : DnsRecordSpec → List Invalid
  unfolding validate_switch
  validate_spec s = validate_switch s.a s.cname s.txt s.srv s.mx s

  -- The names of the group kind and of the object, and the errors.
  abbrev pub ApiInvalid : Type 0
  ApiInvalid = Text × Text × List Invalid

  to_error : Text → Text → List Invalid → Option ApiInvalid
  to_error kind name [] = none
  to_error kind name (e ∷ errs) = some (kind, name, e ∷ errs)

  unfoldable pub validate : DnsRecord → Option ApiInvalid
  unfolding validate_spec to_error
  validate r = to_error r.kind r.metadata.name (validate_spec r.spec)

  unfoldable pub validate_create : DnsRecord → Option ApiInvalid
  unfolding validate
  validate_create r = validate r

  unfoldable pub validate_update : DnsRecord → DnsRecord → Option ApiInvalid
  unfolding validate
  validate_update r old = validate r

  unfoldable pub validate_delete : DnsRecord → Option ApiInvalid
  unfolding validate
  validate_delete r = validate r
