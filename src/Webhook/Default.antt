-- ===== src/Webhook/Default.antt =====
-- `Default` and `enforceFqdn` of api/v1alpha1/dnsrecord_webhook.go.
use k8s_dns_manager.Prelude.{
  ℕ, Bool, true, Option, none, some, ◌++◌, Text, codes, Result, ok, err, ◌==◌, if◌then◌else◌,
}
use k8s_dns_manager.GoStrings.{to_lower, has_suffix}
use k8s_dns_manager.Deps.{Deps}
use k8s_dns_manager.Api.{
  ARecord, CnameRecord, TxtRecord, SrvRecord, MxRecord, DnsRecordSpec, DnsRecord,
}

-- `if x == 0 { x = d }`
abbrev pub or_default : ℕ → ℕ → ℕ
or_default d x = if x == 0 then d else x

module _ (deps : Deps) where
  dotted : Text → Result Text → Text
  dotted v (err _) = v
  dotted v (ok d) = if has_suffix v d then v ++ codes "." else v

  unfoldable pub enforce_fqdn : Text → Text
  unfolding dotted
  enforce_fqdn v = dotted (to_lower v) (deps.domain (to_lower v))

  unfoldable pub default_a : ARecord → ARecord
  default_a r = record r {
    class = or_default 1 r.class;
    ttl = or_default 3600 r.ttl;
    name = enforce_fqdn r.name;
  }

  unfoldable pub default_cname : CnameRecord → CnameRecord
  default_cname r = record r {
    class = or_default 1 r.class;
    ttl = or_default 3600 r.ttl;
    name = enforce_fqdn r.name;
    target = enforce_fqdn r.target;
  }

  unfoldable pub default_txt : TxtRecord → TxtRecord
  default_txt r = record r {
    class = or_default 1 r.class;
    ttl = or_default 3600 r.ttl;
    name = enforce_fqdn r.name;
  }

  unfoldable pub default_srv : SrvRecord → SrvRecord
  default_srv r = record r {
    class = or_default 1 r.class;
    ttl = or_default 3600 r.ttl;
    weight = or_default 1 r.weight;
    name = enforce_fqdn r.name;
    target = enforce_fqdn r.target;
  }

  unfoldable pub default_mx : MxRecord → MxRecord
  default_mx r = record r {
    class = or_default 1 r.class;
    ttl = or_default 3600 r.ttl;
    preference = or_default 10 r.preference;
    name = enforce_fqdn r.name;
    target = enforce_fqdn r.target;
  }

  -- `if in.Spec.Active == nil { in.Spec.Active = ptr.Bool(true) }`
  default_active : Option Bool → Option Bool
  default_active none = some true
  default_active (some b) = some b

  -- The `switch` of `Default`: the first record that is set, in the order of the cases.
  unfoldable pub default_switch :
      Option ARecord
      → Option CnameRecord
      → Option TxtRecord
      → Option SrvRecord
      → Option MxRecord
      → DnsRecordSpec
      → DnsRecordSpec
  default_switch (some r) _ _ _ _ s = record s { a = some (default_a r) }
  default_switch none (some r) _ _ _ s = record s { cname = some (default_cname r) }
  default_switch none none (some r) _ _ s = record s { txt = some (default_txt r) }
  default_switch none none none (some r) _ s = record s { srv = some (default_srv r) }
  default_switch none none none none (some r) s = record s { mx = some (default_mx r) }
  default_switch none none none none none s = s

  unfoldable pub default_spec : DnsRecordSpec → DnsRecordSpec
  unfolding default_active default_switch
  default_spec s =
      default_switch s.a s.cname s.txt s.srv s.mx (record s { active = default_active s.active })

  unfoldable pub default : DnsRecord → DnsRecord
  unfolding default_spec
  default r = record r { spec = default_spec r.spec }
