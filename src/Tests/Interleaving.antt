-- ===== src/Tests/Interleaving.antt =====
-- A DNSRecord that is added and deleted while a query is under way.
use k8s_dns_manager.Prelude.{◌≡◌, refl, ◌⊎◌, Option, none, some, [], ◌∷◌, lookup, insert, text_eq}
use k8s_dns_manager.Deps.{Ip}
use k8s_dns_manager.GoStrings.{join, has_suffix}
use k8s_dns_manager.Ptr.{to_bool_d}
use k8s_dns_manager.Coredns.{Provider, new_provider}
use k8s_dns_manager.Coredns.Sync.{sync, fill, enter, place, complete, complete_all}
use k8s_dns_manager.Coredns.Informer.{
  make_record, is_active, put, drop, change_added, change_deleted,
}
use k8s_dns_manager.Coredns.Serve.{serve_dns, serve_zone, server_failed}
use k8s_dns_manager.Coredns.Interleaved.{
  added, deleted, resting, syncing, Plugin, change, started, synced, Steps, here, later, init,
  Reach,
}
use k8s_dns_manager.Coredns.Interleaved.Queries.{IsRemoved, serve_dns-between}
use k8s_dns_manager.Tests.Samples.{deps, a_rr, a_record}
use k8s_dns_manager.Tests.Plugin.{lib, query, query-MatchesAName, a_record-converts}

abbrev address : Option Ip
address = none

abbrev start : Plugin lib
start = init deps lib address

abbrev inside : Plugin lib
inside = record {
  provider = put deps lib start.provider a_rr;
  turn = syncing;
  events = added a_record ∷ [];
}

abbrev shown : Plugin lib
shown = record inside { provider = (sync deps lib inside.provider).0; turn = resting }

abbrev dropping : Plugin lib
dropping = record {
  provider = drop deps lib shown.provider a_rr;
  turn = syncing;
  events = deleted a_record ∷ shown.events;
}

abbrev gone : Plugin lib
gone = record dropping { provider = (sync deps lib dropping.provider).0; turn = resting }

pub change-added :
    (p : Provider lib) → change deps lib p (added a_record) ≡ some (put deps lib p a_rr)
unfolding change change_added make_record is_active to_bool_d
change-added p = rw a_record-converts refl

change-deleted :
    (p : Provider lib) → change deps lib p (deleted a_record) ≡ some (drop deps lib p a_rr)
unfolding change change_deleted make_record
change-deleted p = rw a_record-converts refl

inside-Reach : Reach deps lib address inside
inside-Reach =
    later here (started (added a_record) inside.provider refl (change-added start.provider))

shown-Reach : Reach deps lib address shown
shown-Reach = later inside-Reach (synced refl)

gone-Steps : Steps deps lib shown gone
gone-Steps =
    later
      (later here
        (started (deleted a_record) dropping.provider refl (change-deleted shown.provider)))
      (synced refl)

-- The query fails, although the zone was there when it was asked.
response_failed : serve_dns lib query shown.provider.zones gone.provider.zones ≡ server_failed none
unfolding serve_dns sync fill enter place complete complete_all text_eq insert new_provider
    has_suffix join lookup
response_failed = refl

serve_dns-between_example :
    let zone_name = query.matches shown.provider.zones.names in
    let response = serve_dns lib query shown.provider.zones gone.provider.zones in
    ((zone_name ≡ []) × (response ≡ query.next))
    ⊎ ((z : lib.Zone) × (lookup zone_name gone.provider.zones.table ≡ some z)
        × (response ≡ serve_zone lib query z))
    ⊎ ((response ≡ server_failed none) × IsRemoved deps lib zone_name shown gone)
serve_dns-between_example =
    serve_dns-between deps lib query query-MatchesAName address shown-Reach gone-Steps
