-- ===== src/Tests/Samples.antt =====
-- Libraries and resources for the tests: an address is any text that is not empty, the registrable
-- domain is example.org, and a resource record prints as its name.
use k8s_dns_manager.Prelude.{
  true, false, ◌&&◌, none, some, List, [], ◌∷◌, ◌++◌, Text, codes, external, ok, err, text_eq,
  is_empty, ◌==◌, if◌then◌else◌,
}
use k8s_dns_manager.GoStrings.{has_suffix}
use k8s_dns_manager.Deps.{Deps, Rr, Rdata, type_a}
use k8s_dns_manager.Api.{
  CnameRecord, TxtRecord, DnsRecordSpec, DnsRecord, empty_spec, empty_status, empty_metadata,
}
use k8s_dns_manager.Controllers.{Key, Message, done, World}

-- The labels of a name, behind the one being read.
abbrev labels_from : Text → Text → List Text
labels_from label [] = if is_empty label then [] else label ∷ []
labels_from label (c ∷ s) =
    (if c == b'.' then label ∷ [] else [])
    ++ labels_from (if c == b'.' then [] else label ++ c ∷ []) s

abbrev zone_name : Text
zone_name = codes "example.org"

abbrev host : Text
host = codes "www.example.org"

abbrev host_fqdn : Text
host_fqdn = codes "www.example.org."

abbrev address : Text
address = codes "1.2.3.4"

abbrev rr_text : Rr → Text
rr_text r = r.header.name

abbrev pub deps : Deps
deps = record {
  parse_ip = λ t. if is_empty t then none else some t;
  ip_string = λ ip. ip;
  domain = λ t. if has_suffix t zone_name then ok zone_name else err (external (codes "no domain"));
  new_rr = λ t. ok none;
  rr_string = rr_text;
  split_domain_name = labels_from [];
  fqdn = λ t. if has_suffix t (codes ".") then t else t ++ codes ".";
  type_to_string = λ n. if n == type_a then codes "A" else codes "OTHER";
  is_duplicate = λ a b. text_eq a.header.name b.header.name && (a.header.rrtype == b.header.rrtype);
}

abbrev pub a_rr : Rr
a_rr = record {
  header = record { name = host_fqdn; rrtype = type_a; class = 1; ttl = 3600 };
  rdata = Rdata.a address;
}

abbrev pub a_spec : DnsRecordSpec
a_spec = record empty_spec {
  active = some true;
  a = some (record { name = host_fqdn; class = 1; ttl = 3600; target = address });
}

abbrev pub a_record : DnsRecord
a_record = record {
  api_version = [];
  kind = codes "DNSRecord";
  metadata = record empty_metadata { name = codes "www"; namespace = codes "default" };
  spec = a_spec;
  status = empty_status;
}

abbrev pub cname : CnameRecord
cname = record { name = host_fqdn; class = 1; ttl = 60; target = codes "example.org." }

abbrev pub txt : TxtRecord
txt = record { name = host_fqdn; class = 1; ttl = 60; targets = [] }

abbrev pub two_kinds : DnsRecord
two_kinds = record a_record { spec = record empty_spec { cname = some cname; txt = some txt } }

abbrev pub key : Key
key = record { namespace = codes "default"; name = codes "www" }

-- The verification server answers with the record, and no write fails.
abbrev pub reply : Message
reply = record { truncated = false; answer = a_rr ∷ [] }

abbrev pub world : World
world = record {
  on_get = λ log k. ok a_record;
  on_list = λ log ns. ok [];
  on_write = λ log c. none;
  on_provide = λ log r. record { outcome = done; ok = true; changed = r };
  on_exchange = λ log net q. ok reply;
}
