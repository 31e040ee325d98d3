-- ===== src/Tests/Loopback.antt =====
-- The controller and the plugin in one process, with one DNSRecord in the cluster.
use k8s_dns_manager.Prelude.{◌≡◌, refl, false, [], ◌∷◌, codes, text_eq, insert, lookup}
use k8s_dns_manager.GoStrings.{has_suffix, join}
use k8s_dns_manager.Api.{DnsRecord}
use k8s_dns_manager.Controllers.{World, get, provide, exchange, event}
use k8s_dns_manager.Controllers.Records.{question}
use k8s_dns_manager.Controllers.Records.Convergence.{IsSettled, calls, round}
use k8s_dns_manager.Ptr.{to_bool_d}
use k8s_dns_manager.Record.{to_rr, to_rr_a}
use k8s_dns_manager.Coredns.{new_provider}
use k8s_dns_manager.Coredns.Informer.{handle_add, make_record, is_active}
use k8s_dns_manager.Coredns.Serve.{serve_dns}
use k8s_dns_manager.Coredns.Sync.{sync, fill, enter, place, complete, complete_all}
use k8s_dns_manager.Coredns.System.Loopback.{Resolver, received, Loopback, loopback-IsSettled}
use k8s_dns_manager.Tests.Samples.{deps, a_spec, a_rr, a_record, key, world}
use k8s_dns_manager.Tests.Plugin.{lib, query}
use k8s_dns_manager.Tests.Controller.{setting, a_spec-defaulted, a_spec-converts, to_bool_d-wanted}
use k8s_dns_manager.Tests.Cluster.{
  www, address, one_record, one_record-Reach, www-there, www-placed, lib-Holding, a_rr-IsPlain,
  holds-duplicate,
}

abbrev resolver : Resolver lib
resolver = record {
  query = query;
  at = λ log. one_record;
  message = λ m. record { truncated = false; answer = m.answer };
}

abbrev joined : World
joined = record world {
  on_exchange = λ log net q.
      received resolver
        (serve_dns lib resolver.query one_record.plugin.zones one_record.plugin.zones).written;
}

one_record-matches : query.matches one_record.plugin.zones.names ≡ codes "example.org."
unfolding handle_add make_record is_active to_bool_d to_rr to_rr_a sync fill enter place complete
    complete_all new_provider has_suffix join insert lookup
one_record-matches = refl

example_org-named : text_eq (codes "example.org.") [] ≡ false
unfolding text_eq
example_org-named = refl

abbrev loop : Loopback lib lib-Holding
loop = record {
  deps = deps;
  world = joined;
  server = setting.server;
  req = key;
  spec = a_spec;
  rr = a_rr;
  zone_name = codes "example.org.";
  address = address;
  resolver = resolver;
  defaulted = a_spec-defaulted;
  wanted = to_bool_d-wanted;
  converts = a_spec-converts;
  placed = www-placed;
  plain = a_rr-IsPlain;
  reached = λ log. one_record-Reach;
  there = λ log. (www, a_record, www-there, refl);
  accepts = λ log c. refl;
  resolves = λ log. refl;
  named = example_org-named;
  matched = λ log. one_record-matches;
  fresh = λ z. refl;
  finds = λ z h. (refl, holds-duplicate z h);
  sends = λ m. refl;
  message_answer = λ m. refl;
  fits = λ m. refl;
}

loopback-IsSettled_example :
    let next : DnsRecord → DnsRecord = round deps joined setting.server key in
    let t = next (next (next a_record)) in
    IsSettled deps a_rr t
    × (calls deps joined key t
        ≡ event (codes "Success") (codes "record active")
          ∷ exchange (codes "udp") (question deps joined a_rr)
          ∷ provide t
          ∷ get key
          ∷ [])
loopback-IsSettled_example =
    loopback-IsSettled lib lib-Holding loop a_record (record { same = refl; live = refl })
