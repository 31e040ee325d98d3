-- ===== src/Record/Admitted.antt =====
-- From the webhook to the record: `Default` and `validate` of api/v1alpha1/dnsrecord_webhook.go and
-- ToRR of pkg/record/record.go on a DNSRecord as a user writes it.
use k8s_dns_manager.Prelude.{
  ℕ, ◌≡◌, refl, true, false, none, some, [], ◌∷◌, ◌++◌, Text, codes, ok, is_empty, text_eq, Error,
  err, if◌then◌else◌, Bool-cases, inl, inr, arith,
}
use k8s_dns_manager.GoStrings.{to_lower, has_suffix}
use k8s_dns_manager.GoStrings.Laws.{has_suffix-append}
use k8s_dns_manager.Deps.{Deps, Ip, Rr, Rdata, type_a, type_txt, type_srv, type_mx, type_cname}
use k8s_dns_manager.Api.{
  ARecord, CnameRecord, TxtRecord, SrvRecord, MxRecord, DnsRecordSpec, DnsRecord,
}
use k8s_dns_manager.Webhook.Default.{
  or_default, enforce_fqdn, default_a, default_cname, default_txt, default_srv, default_mx, default,
}
use k8s_dns_manager.Webhook.Validate.{
  validate_a, validate_cname, validate_txt, validate_srv, validate_mx, validate,
}
use k8s_dns_manager.Record.{to_rr_a, to_rr_txt, to_rr_srv, to_rr_mx, to_rr_cname, to_rr}

-- The absolute name, in lower case.
unfoldable pub absolute : Text → Text
absolute v = if has_suffix (to_lower v) (codes ".") then to_lower v else to_lower v ++ codes "."

abbrev pub plain_rr : Text → ℕ → ℕ → ℕ → Rdata → Rr
plain_rr name rrtype class ttl rdata = record {
  header = record {
    name = absolute name;
    rrtype = rrtype;
    class = or_default 1 class;
    ttl = or_default 3600 ttl;
  };
  rdata = rdata;
}

module _ (deps : Deps) where
  -- The name, in lower case, ends in its registrable domain without a dot, or it is absolute, and
  -- package publicsuffix finds no domain in which it ends.
  pub data IsNamed (v : Text) : Type 0 where
    relative :
        (domain : Text)
        → deps.domain (to_lower v) ≡ ok domain
        → has_suffix (to_lower v) domain ≡ true
        → has_suffix (to_lower v) (codes ".") ≡ false
        → IsNamed v
    dotted_error :
        (e : Error)
        → deps.domain (to_lower v) ≡ err e
        → has_suffix (to_lower v) (codes ".") ≡ true
        → IsNamed v
    dotted_other :
        (domain : Text)
        → deps.domain (to_lower v) ≡ ok domain
        → has_suffix (to_lower v) domain ≡ false
        → has_suffix (to_lower v) (codes ".") ≡ true
        → IsNamed v

  -- The DNSRecord sets the fields of one type, which stand for the record `rr`.
  pub data Asks (s : DnsRecordSpec) : Rr → Type 0 where
    a :
        (r : ARecord) (ip : Ip)
        → s.a ≡ some r
        → IsNamed r.name
        → deps.parse_ip r.target ≡ some ip
        → text_eq r.target [] ≡ false
        → Asks s (plain_rr r.name type_a r.class r.ttl (Rdata.a ip))
    cname :
        (r : CnameRecord)
        → (s.a ≡ none) × (s.txt ≡ none) × (s.srv ≡ none) × (s.mx ≡ none)
        → s.cname ≡ some r
        → IsNamed r.name
        → IsNamed r.target
        → Asks s (plain_rr r.name type_cname r.class r.ttl (Rdata.cname (absolute r.target)))
    txt :
        (r : TxtRecord)
        → (s.a ≡ none) × (s.cname ≡ none)
        → s.txt ≡ some r
        → IsNamed r.name
        → is_empty r.targets ≡ false
        → Asks s (plain_rr r.name type_txt r.class r.ttl (Rdata.txt r.targets))
    srv :
        (r : SrvRecord)
        → (s.a ≡ none) × (s.cname ≡ none) × (s.txt ≡ none)
        → s.srv ≡ some r
        → IsNamed r.name
        → IsNamed r.target
        → Asks s (
            plain_rr r.name type_srv r.class r.ttl
              (Rdata.srv r.priority (or_default 1 r.weight) r.port (absolute r.target)))
    mx :
        (r : MxRecord)
        → (s.a ≡ none) × (s.cname ≡ none) × (s.txt ≡ none) × (s.srv ≡ none)
        → s.mx ≡ some r
        → IsNamed r.name
        → IsNamed r.target
        → Asks s (
            plain_rr r.name type_mx r.class r.ttl
              (Rdata.mx (or_default 10 r.preference) (absolute r.target)))

  absolute_name : (v : Text) → IsNamed v → enforce_fqdn deps v ≡ absolute v
  unfolding enforce_fqdn absolute
  absolute_name v (relative d found ends no_dot) = rw (found, ends, no_dot) refl
  absolute_name v (dotted_error e none_found dot) = rw (none_found, dot) refl
  absolute_name v (dotted_other d found other dot) = rw (found, other, dot) refl

  has_dot : (v : Text) → has_suffix (absolute v) (codes ".") ≡ true
  unfolding absolute
  has_dot v = elim (Bool-cases (has_suffix (to_lower v) (codes "."))) [
    | inl dot ↦ rw dot dot
    | inr no_dot ↦ rw no_dot (has_suffix-append (to_lower v) (codes "."))
  ]

  full : (v : Text) → text_eq (absolute v) [] ≡ false
  unfolding has_suffix text_eq
  full v = filled (absolute v) (has_dot v)
    where
      filled : (t : Text) → has_suffix t (codes ".") ≡ true → text_eq t [] ≡ false
      filled [] h = absurd (ground arith)
      filled (c ∷ t) h = refl

  -- Let a DNSRecord ask for a record, by names that end in their registrable domain, or that are
  -- absolute already and end in no domain that package publicsuffix finds. It is admitted by the
  -- webhook's validation once its defaults are set, and ToRR converts it to the record that it
  -- asks for: with absolute names in lower case, and the class, the TTL, the weight and the
  -- preference that were left out.
  pub default-admitted :
      (r : DnsRecord) (rr : Rr)
      → Asks r.spec rr
      → (validate deps (default deps r) ≡ none) × (to_rr deps (default deps r) ≡ ok rr)
  unfolding validate default to_rr default_a validate_a to_rr_a default_cname validate_cname
      to_rr_cname default_txt validate_txt to_rr_txt default_srv validate_srv to_rr_srv default_mx
      validate_mx to_rr_mx
  default-admitted r _ (a x ip set named parsed some_target) =
      rw (set, absolute_name x.name named, parsed, some_target, has_dot x.name) (refl, refl)
  default-admitted r _ (cname x (e, f, g, h) set named target) =
      rw
        (
          e,
          f,
          g,
          h,
          set,
          absolute_name x.name named,
          absolute_name x.target target,
          has_dot x.name,
          has_dot x.target,
          full x.target,
        )
        (refl, refl)
  default-admitted r _ (txt x (e, f) set named filled) =
      rw (e, f, set, absolute_name x.name named, filled, has_dot x.name) (refl, refl)
  default-admitted r _ (srv x (e, f, g) set named target) =
      rw
        (
          e,
          f,
          g,
          set,
          absolute_name x.name named,
          absolute_name x.target target,
          has_dot x.name,
          has_dot x.target,
          full x.target,
        )
        (refl, refl)
  default-admitted r _ (mx x (e, f, g, h) set named target) =
      rw
        (
          e,
          f,
          g,
          h,
          set,
          absolute_name x.name named,
          absolute_name x.target target,
          has_dot x.name,
          has_dot x.target,
          full x.target,
        )
        (refl, refl)
