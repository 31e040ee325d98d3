-- ===== src/Record.antt =====
-- Conversion between DNSRecord resources and resource records (pkg/record/record.go).
pub mod RoundTrip
pub mod Valid
pub mod Admitted
use k8s_dns_manager.Prelude.{
  ℕ, Bool, Option, none, some, List, [], ◌∷◌, ◌++◌, Text, codes, Result, ok, err, ◌>>=◌, ◌==◌,
  is_empty, text_eq, if◌then◌else◌, invalid_ip, empty_txt_record, srv_target_required,
  cname_target_required, unknown_record_type, invalid_record,
}
use k8s_dns_manager.GoStrings.{trim_suffix, replace_byte, to_lower}
use k8s_dns_manager.Deps.{
  Deps, Ip, Header, Rr, Rdata, type_a, type_txt, type_srv, type_mx, type_cname,
}
use k8s_dns_manager.Api.{
  ARecord, CnameRecord, TxtRecord, SrvRecord, MxRecord, DnsRecordSpec, DnsRecord, empty_spec,
  empty_status, empty_metadata,
}

abbrev pub api_version : Text
api_version = codes "dns.linka.cloud/v1alpha1"

abbrev pub dns_record_kind : Text
dns_record_kind = codes "DNSRecord"

-- `strings.TrimPrefix(reflect.TypeOf(r).String(), "*dns.")`
abbrev pub go_type : Rdata → Text
go_type (Rdata.a _) = codes "A"
go_type (Rdata.aaaa _) = codes "AAAA"
go_type (Rdata.cname _) = codes "CNAME"
go_type (Rdata.mx _ _) = codes "MX"
go_type (Rdata.ns _) = codes "NS"
go_type (Rdata.srv _ _ _ _) = codes "SRV"
go_type (Rdata.txt _) = codes "TXT"
go_type (Rdata.soa _ _ _ _ _ _ _) = codes "SOA"
go_type (Rdata.other name _) = name

-- The name of the resource: the first lines of `FromRR`.
unfoldable pub resource_name : Rr → Text
resource_name r =
    let name =
      replace_byte
        (replace_byte (replace_byte (trim_suffix r.header.name (codes ".")) b'.' (codes "-")) b'_'
          [])
        b'*' (codes "wildcard") in
    if r.header.rrtype == type_a then name else name ++ (codes "-" ++ to_lower (go_type r.rdata))

module _ (deps : Deps) where
  -- The type switch of `FromRR`.
  unfoldable pub spec_of : Rr → Header → Rdata → DnsRecordSpec
  spec_of r h (Rdata.a ip) = record empty_spec {
    a = some (record { name = h.name; class = h.class; ttl = h.ttl; target = deps.ip_string ip });
  }
  spec_of r h (Rdata.cname target) = record empty_spec {
    cname = some (record { name = h.name; class = h.class; ttl = h.ttl; target = target });
  }
  spec_of r h (Rdata.srv priority weight port target) = record empty_spec {
    srv = some (record {
      name = h.name;
      class = h.class;
      ttl = h.ttl;
      priority = priority;
      weight = weight;
      port = port;
      target = target;
    });
  }
  spec_of r h (Rdata.txt targets) = record empty_spec {
    txt = some (record { name = h.name; class = h.class; ttl = h.ttl; targets = targets });
  }
  spec_of r h (Rdata.mx preference target) = record empty_spec {
    mx = some (record {
      name = h.name;
      class = h.class;
      ttl = h.ttl;
      preference = preference;
      target = target;
    });
  }
  spec_of r h _ = record empty_spec { raw = deps.rr_string r }

  unfoldable pub from_rr : Rr → DnsRecord
  unfolding spec_of
  from_rr r = record {
    api_version = api_version;
    kind = dns_record_kind;
    metadata = record empty_metadata { name = resource_name r };
    spec = spec_of r r.header r.rdata;
    status = empty_status;
  }

  parsed_a : ARecord → Option Ip → Result Rr
  parsed_a r none = err (invalid_ip r.target)
  parsed_a r (some ip) = ok (record {
    header = record { name = r.name; rrtype = type_a; class = r.class; ttl = r.ttl };
    rdata = Rdata.a ip;
  })

  unfoldable pub to_rr_a : ARecord → Result Rr
  unfolding parsed_a
  to_rr_a r = parsed_a r (deps.parse_ip r.target)

  unfoldable pub to_rr_txt : TxtRecord → Result Rr
  to_rr_txt r =
      if is_empty r.targets
      then err empty_txt_record
      else ok (record {
        header = record { name = r.name; rrtype = type_txt; class = r.class; ttl = r.ttl };
        rdata = Rdata.txt r.targets;
      })

  unfoldable pub to_rr_srv : SrvRecord → Result Rr
  to_rr_srv r =
      if text_eq r.target []
      then err srv_target_required
      else ok (record {
        header = record { name = r.name; rrtype = type_srv; class = r.class; ttl = r.ttl };
        rdata = Rdata.srv r.priority r.weight r.port r.target;
      })

  unfoldable pub to_rr_mx : MxRecord → Result Rr
  to_rr_mx r = ok (record {
    header = record { name = r.name; rrtype = type_mx; class = r.class; ttl = r.ttl };
    rdata = Rdata.mx r.preference r.target;
  })

  unfoldable pub to_rr_cname : CnameRecord → Result Rr
  to_rr_cname r =
      if text_eq r.target []
      then err cname_target_required
      else ok (record {
        header = record { name = r.name; rrtype = type_cname; class = r.class; ttl = r.ttl };
        rdata = Rdata.cname r.target;
      })

  parsed_raw : Text → Option Rr → Result Rr
  parsed_raw raw none = err (invalid_record raw)
  parsed_raw raw (some rr) = ok rr

  unfoldable pub to_rr_raw : Text → Result Rr
  unfolding parsed_raw
  to_rr_raw raw =
      if text_eq raw [] then err unknown_record_type else (deps.new_rr raw >>= parsed_raw raw)

  -- The cases of the `switch` of `ToRR`, in the order of the source.
  to_rr_switch :
      Option ARecord
      → Option TxtRecord
      → Option SrvRecord
      → Option MxRecord
      → Option CnameRecord
      → Text
      → Result Rr
  to_rr_switch (some r) _ _ _ _ raw = to_rr_a r
  to_rr_switch none (some r) _ _ _ raw = to_rr_txt r
  to_rr_switch none none (some r) _ _ raw = to_rr_srv r
  to_rr_switch none none none (some r) _ raw = to_rr_mx r
  to_rr_switch none none none none (some r) raw = to_rr_cname r
  to_rr_switch none none none none none raw = to_rr_raw raw

  unfoldable pub to_rr : DnsRecord → Result Rr
  unfolding to_rr_switch
  to_rr r = to_rr_switch r.spec.a r.spec.txt r.spec.srv r.spec.mx r.spec.cname r.spec.raw

  -- The name of a parsed raw record; `none` is the nil dereference of `rr.Header()`.
  raw_name : Result (Option Rr) → Option Text
  raw_name (err _) = some []
  raw_name (ok none) = none
  raw_name (ok (some rr)) = some rr.header.name

  name_switch :
      Option ARecord
      → Option TxtRecord
      → Option SrvRecord
      → Option MxRecord
      → Option CnameRecord
      → Text
      → Option Text
  name_switch (some r) _ _ _ _ raw = some r.name
  name_switch none (some r) _ _ _ raw = some r.name
  name_switch none none (some r) _ _ raw = some r.name
  name_switch none none none (some r) _ raw = some r.name
  name_switch none none none none (some r) raw = some r.name
  name_switch none none none none none raw = raw_name (deps.new_rr raw)

  unfoldable pub name : DnsRecord → Option Text
  unfolding name_switch raw_name
  name r = name_switch r.spec.a r.spec.txt r.spec.srv r.spec.mx r.spec.cname r.spec.raw
