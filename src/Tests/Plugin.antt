-- ===== src/Tests/Plugin.antt =====
-- The CoreDNS plugin.
use k8s_dns_manager.Prelude.{
  ◌≡◌, refl, inl, inr, true, false, Option, none, some, List, [], ◌∷◌, codes, Text, ok, lookup,
  text_eq_refl,
}
use k8s_dns_manager.GoStrings.{join}
use k8s_dns_manager.Deps.{Rr}
use k8s_dns_manager.Api.{DnsRecord}
use k8s_dns_manager.Record.{to_rr, to_rr_a}
use k8s_dns_manager.Coredns.{ZoneLib, Provider}
use k8s_dns_manager.Coredns.Sync.Apexes.{ZoneLaws}
use k8s_dns_manager.Coredns.Informer.Lifetime.{IsFresh}
use k8s_dns_manager.Coredns.Serve.{
  Query, Found, Reply, success, min_msg_size, rcode_success, MatchesAName, serve_zone,
}
use k8s_dns_manager.Tests.Samples.{deps, a_rr, a_spec, a_record}

-- A zone is its SOA record, its NS records, and the other records.
abbrev pub lib : ZoneLib
lib = record {
  Zone = Option Rr × List Rr × List Rr;
  new_zone = λ name. (none, [], []);
  insert = λ z r. ((z.0, z.1, r ∷ z.2), none);
  soa = λ z. z.0;
  ns = λ z. z.1;
  set_soa = λ z r. (some r, z.1, z.2);
  set_ns = λ z rs. (z.0, rs, z.2);
  normalize = λ name. name;
  join_names = λ names. join names (codes ".");
}

pub lib-ZoneLaws : ZoneLaws lib
lib-ZoneLaws = record {
  soa-set_soa = λ z r. refl;
  ns-set_ns = λ z rs. refl;
  soa-set_ns = λ z rs. refl;
  soa-insert = λ z r h. refl;
  ns-insert = λ z r h. refl;
}

abbrev idle : Provider lib
idle = record {
  zones = record { table = []; names = [] };
  records = [];
  external_address = some (codes "5.6.7.8");
  hostmaster = [];
  ttl = 0;
  apex = [];
}

abbrev loaded : Provider lib
loaded = record idle { records = (codes "www.example.org.", a_rr) ∷ [] }

-- The record under another name.
abbrev mail : Text
mail = codes "mail.example.org."

abbrev pub moved : DnsRecord
moved = record a_record {
  spec = record a_spec {
    a = some (record { name = mail; class = 1; ttl = 60; target = codes "1.2.3.4" });
  };
}

abbrev pub moved_rr : Rr
moved_rr = record a_rr { header = record a_rr.header { name = mail; ttl = 60 } }

pub a_record-converts : to_rr deps a_record ≡ ok a_rr
unfolding to_rr to_rr_a
a_record-converts = refl

pub moved-converts : to_rr deps moved ≡ ok moved_rr
unfolding to_rr to_rr_a
moved-converts = refl

-- The table is empty before the record comes.
lookup-nothing : (s : Text) → lookup s idle.records ≡ none
unfolding lookup
lookup-nothing s = refl

a_record-IsFresh : IsFresh deps lib [] a_record
a_record-IsFresh = record { rr = a_rr; converted = a_record-converts; fresh = lookup-nothing _ }

moved-IsFresh : IsFresh deps lib [] moved
moved-IsFresh = record { rr = moved_rr; converted = moved-converts; fresh = lookup-nothing _ }

abbrev found : lib.Zone → Found
found z = record { answer = z.2; ns = z.1; extra = []; result = success }

-- A query over UDP for the first zone.
abbrev pub query : Query lib
query = record {
  matches = λ names. elim names [ [] ↦ [] | n ∷ _ ↦ n ];
  expired = λ z. false;
  find = found;
  tcp = false;
  write_error = λ m. none;
  next = record { code = 0; error = none; written = none };
}

pub query-MatchesAName : MatchesAName query
query-MatchesAName [] = inl refl
query-MatchesAName (n ∷ ns) = inr (rw text_eq_refl refl)

abbrev zone : lib.Zone
zone = (none, [], a_rr ∷ [])

abbrev answered : Reply
answered = record {
  authoritative = true;
  rcode = rcode_success;
  answer = a_rr ∷ [];
  ns = [];
  extra = [];
  truncated_to = some min_msg_size;
}

serve_zone-zone : (serve_zone lib query zone).written ≡ some answered
unfolding serve_zone
serve_zone-zone = refl
