-- ===== src/Tests/Rounds.antt =====
-- The DNSRecord controller with the libdns provider of Tests/Stores.antt.
use k8s_dns_manager.Prelude.{◌≡◌, refl, true, some, [], ◌∷◌, codes, text_eq}
use k8s_dns_manager.Api.{DnsRecord}
use k8s_dns_manager.Controllers.Finalizers.{record_finalizer, has_finalizer}
use k8s_dns_manager.Libdns.{append_records}
use k8s_dns_manager.Libdns.Rounds.{State, round_of}
use k8s_dns_manager.Libdns.Rounds.Carried.{Site}
use k8s_dns_manager.Tests.Samples.{deps, a_record, key, world}
use k8s_dns_manager.Tests.Controller.{setting}
use k8s_dns_manager.Tests.Stores.{
  prov, prov-Store, prov-Unfailing, a_rr-IsStable, a_rr-domain, foreign,
}

abbrev held_record : DnsRecord
held_record = record a_record {
  metadata = record a_record.metadata { finalizers = record_finalizer ∷ [] };
}

abbrev beginning : State
beginning = record { object = held_record; client = [] }

abbrev site : Site setting
site = record {
  provider = prov;
  store = prov-Store;
  unfailing = prov-Unfailing;
  domain = codes "example.org";
  long = refl;
  registrable = a_rr-domain;
  stable = a_rr-IsStable;
}

finalizer-held : has_finalizer held_record.metadata.finalizers ≡ true
unfolding has_finalizer text_eq
finalizer-held = refl

-- The record without its finalizer.
abbrev fresh : State
fresh = record { object = a_record; client = [] }

-- The record is marked for deletion, and the zone has its record of the id 1.
abbrev leaving_record : DnsRecord
leaving_record = record held_record {
  metadata = record held_record.metadata { deletion_timestamp = some 1 };
  status = record held_record.status { provider = codes "test"; id = codes "1" };
}

abbrev leaving : State
leaving = record {
  object = leaving_record;
  client = append_records (codes "example.org.") foreign ∷ [];
}

abbrev left : State
left = round_of deps prov world key setting.server leaving
