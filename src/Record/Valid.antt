-- ===== src/Record/Valid.antt =====
-- What the webhook's validation promises to the conversion ToRR (pkg/record/record.go).
use k8s_dns_manager.Prelude.{
  ◌≡◌, refl, Bool, true, false, not, ◌&&◌, ◌||◌, ◌⊎◌, inl, inr, Option, none, some, [], Text, codes,
  Result, ok, err, is_some, text_eq, arith, empty_txt_record,
}
use k8s_dns_manager.GoStrings.{has_suffix}
use k8s_dns_manager.Deps.{Deps, Rr}
use k8s_dns_manager.Api.{
  ARecord, CnameRecord, TxtRecord, SrvRecord, MxRecord, DnsRecordSpec, DnsRecord,
}
use k8s_dns_manager.Webhook.Validate.{
  validate_a, validate_cname, validate_txt, validate_srv, validate_mx, validate_raw, validate_spec,
  validate,
}
use k8s_dns_manager.Record.{
  to_rr_a, to_rr_txt, to_rr_srv, to_rr_mx, to_rr_cname, to_rr_raw, to_rr_switch, to_rr,
}

-- One of the five typed records is set.
abbrev pub is_typed : DnsRecordSpec → Bool
is_typed s = is_some s.a || is_some s.cname || is_some s.txt || is_some s.srv || is_some s.mx

-- The validation reads the CNAME record and the conversion reads another one.
abbrev pub is_ambiguous : DnsRecordSpec → Bool
is_ambiguous s =
    not (is_some s.a) && is_some s.cname && (is_some s.txt || is_some s.srv || is_some s.mx)

-- The result is a record, with an absolute owner name.
abbrev IsAbsolute : Result Rr → Type 0
IsAbsolute (ok rr) = has_suffix rr.header.name (codes ".") ≡ true
IsAbsolute (err _) = ⊥

abbrev IsOk : Result Rr → Type 0
IsOk (ok rr) = Unit
IsOk (err _) = ⊥

-- The conversion succeeds, and with an absolute owner name unless the record is a raw one.
abbrev pub Converts : Bool → Result Rr → Type 0
Converts typed r =
    (rr : Rr) × (r ≡ ok rr) × ((typed ≡ false) ⊎ (has_suffix rr.header.name (codes ".") ≡ true))

module _ (deps : Deps) where
  to_rr_a-IsAbsolute : (r : ARecord) → validate_a deps r ≡ [] → IsAbsolute (to_rr_a deps r)
  unfolding validate_a to_rr_a
  to_rr_a-IsAbsolute r h = ground arith

  to_rr_txt-IsAbsolute : (r : TxtRecord) → validate_txt r ≡ [] → IsAbsolute (to_rr_txt deps r)
  unfolding validate_txt to_rr_txt
  to_rr_txt-IsAbsolute r h = ground arith

  to_rr_srv-IsAbsolute : (r : SrvRecord) → validate_srv r ≡ [] → IsAbsolute (to_rr_srv deps r)
  unfolding validate_srv to_rr_srv
  to_rr_srv-IsAbsolute r h = ground arith

  to_rr_mx-IsAbsolute : (r : MxRecord) → validate_mx r ≡ [] → IsAbsolute (to_rr_mx deps r)
  unfolding validate_mx to_rr_mx
  to_rr_mx-IsAbsolute r h = ground arith

  to_rr_cname-IsAbsolute :
      (r : CnameRecord) → validate_cname r ≡ [] → IsAbsolute (to_rr_cname deps r)
  unfolding validate_cname to_rr_cname
  to_rr_cname-IsAbsolute r h = ground arith

  to_rr_raw-IsOk :
      (raw : Text)
      → text_eq raw [] ≡ false
      → validate_raw deps (deps.new_rr raw) raw ≡ []
      → IsOk (to_rr_raw deps raw)
  unfolding validate_raw to_rr_raw
  to_rr_raw-IsOk raw e h = ground arith

  typed-Converts : (typed : Bool) (r : Result Rr) → IsAbsolute r → Converts typed r
  typed-Converts typed (ok rr) h = (rr, refl, inr h)
  typed-Converts typed (err e) h = absurd h

  raw-Converts : (r : Result Rr) → IsOk r → Converts false r
  raw-Converts (ok rr) h = (rr, refl, inl refl)
  raw-Converts (err e) h = absurd h

  valid_switch :
      (act : Option Bool) (a : Option ARecord) (c : Option CnameRecord) (t : Option TxtRecord)
      (s : Option SrvRecord) (m : Option MxRecord) (raw : Text)
      → is_ambiguous
          (record { active = act; a = a; cname = c; txt = t; srv = s; mx = m; raw = raw })
        ≡ false
      → validate_spec deps
          (record { active = act; a = a; cname = c; txt = t; srv = s; mx = m; raw = raw })
        ≡ []
      → Converts
          (is_typed
            (record { active = act; a = a; cname = c; txt = t; srv = s; mx = m; raw = raw }))
          (to_rr_switch deps a t s m c raw)
  unfolding validate_spec to_rr_switch
  valid_switch act (some r) c t s m raw u h =
      typed-Converts true (to_rr_a deps r) (to_rr_a-IsAbsolute r h)
  valid_switch act none (some r) none none none raw u h =
      typed-Converts true (to_rr_cname deps r) (to_rr_cname-IsAbsolute r h)
  valid_switch act none none (some r) s m raw u h =
      typed-Converts true (to_rr_txt deps r) (to_rr_txt-IsAbsolute r h)
  valid_switch act none none none (some r) m raw u h =
      typed-Converts true (to_rr_srv deps r) (to_rr_srv-IsAbsolute r h)
  valid_switch act none none none none (some r) raw u h =
      typed-Converts true (to_rr_mx deps r) (to_rr_mx-IsAbsolute r h)
  valid_switch act none none none none none raw u h =
      raw-Converts (to_rr_raw deps raw) (to_rr_raw-IsOk raw (ground arith) (ground arith))
  valid_switch act _ _ _ _ _ raw u h = absurd (ground arith)

  -- A DNSRecord that the webhook admits, and that does not set a TXT, SRV or MX record beside a
  -- CNAME record with no A record, is converted by ToRR; the owner name of the result ends in a
  -- dot, unless the DNSRecord is a raw one.
  pub validate-to_rr :
      (r : DnsRecord)
      → is_ambiguous r.spec ≡ false
      → validate deps r ≡ none
      → Converts (is_typed r.spec) (to_rr deps r)
  unfolding validate to_rr
  validate-to_rr r u h =
      valid_switch r.spec.active r.spec.a r.spec.cname r.spec.txt r.spec.srv r.spec.mx r.spec.raw u
        (ground arith)

  -- A DNSRecord with a CNAME record that is valid, beside a TXT record with no text and no A
  -- record, is admitted by the webhook and refused by ToRR, which reads the TXT record first.
  pub admitted_unconvertible :
      (r : DnsRecord) (c : CnameRecord) (t : TxtRecord)
      → r.spec.a ≡ none
      → r.spec.cname ≡ some c
      → validate_cname c ≡ []
      → r.spec.txt ≡ some t
      → t.targets ≡ []
      → (validate deps r ≡ none) × (to_rr deps r ≡ err empty_txt_record)
  unfolding validate to_rr to_rr_txt
  admitted_unconvertible r c t a_none cname_is valid txt_is no_text = ground arith
