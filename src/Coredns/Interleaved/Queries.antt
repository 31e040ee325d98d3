-- ===== src/Coredns/Interleaved/Queries.antt =====
-- A query whose two readings of the provider (pkg/coredns/k8s_dns/crds.go) have handlers in between.
use k8s_dns_manager.Prelude.{
  ◌≡◌, refl, sym, ap, subst, ◌∙◌, ◌⊎◌, inl, inr, Option, none, some, List, [], Text, arith, lookup,
  is_some, text_eq, text_eq_iff, Option-cases, Bool-cases,
}
use k8s_dns_manager.Deps.{Deps, Ip}
use k8s_dns_manager.Coredns.{ZoneLib, Zones, Provider}
use k8s_dns_manager.Coredns.Sync.{sync}
use k8s_dns_manager.Coredns.Sync.Names.{is_listed, sync-NamesAgree}
use k8s_dns_manager.Coredns.Serve.{
  Query, Served, MatchesAName, serve_dns, serve_zone, server_failed,
}
use k8s_dns_manager.Coredns.System.Synced.{handled-IsSynced}
use k8s_dns_manager.Coredns.Interleaved.{
  Event, resting, syncing, Plugin, Step, ignored, started, synced, Steps, here, later, Reach,
  handled,
}
use k8s_dns_manager.Coredns.Interleaved.Atomic.{change-zones, Reach-IsAtomic}

module _ (deps : Deps) (lib : ZoneLib) where
  -- The names are those of the map, as `serve_dns` reads them.
  abbrev Agree : Zones lib → Type 0
  Agree zs = (n : Text) → is_some (lookup n zs.table) ≡ is_listed n zs.names

  handled-Agree :
      (address : Option Ip) (es : List Event) → Agree (handled deps lib address es).zones
  handled-Agree address es =
      subst (λ (p : Provider lib). Agree p.zones) (handled-IsSynced deps lib address es)
        (sync-NamesAgree deps lib (handled deps lib address es)).0

  Reach-Agree :
      (address : Option Ip) {s : Plugin lib} → Reach deps lib address s → Agree s.provider.zones
  Reach-Agree address {s} r = elim (Reach-IsAtomic deps lib address r) [
    | inl (_, at) ↦
        subst (λ (p : Provider lib). Agree p.zones) (sym at) (handled-Agree address s.events)
    | inr i ↦
        let (_, _, _, before, _, same) = i in subst Agree (sym same) (handled-Agree address before)
  ]

  -- Between two states, a `sync` that takes a zone away.
  pub record IsRemoved (n : Text) (s t : Plugin lib) : Type 0 where
    pub at : Plugin lib
    pub before : Steps deps lib s at
    pub step : at.turn ≡ syncing
    pub zone : lib.Zone
    pub there : lookup n at.provider.zones.table ≡ some zone
    pub gone : lookup n (sync deps lib at.provider).0.zones.table ≡ none
    pub after :
        Steps deps lib (record at { provider = (sync deps lib at.provider).0; turn = resting }) t

  extended : (n : Text) {s t u : Plugin lib} → Step deps lib t u → IsRemoved n s t → IsRemoved n s u
  extended n st i = record {
    at = i.at;
    before = i.before;
    step = i.step;
    zone = i.zone;
    there = i.there;
    gone = i.gone;
    after = later i.after st;
  }

  Steps-IsRemoved :
      (n : Text) {s t : Plugin lib} (z : lib.Zone)
      → Steps deps lib s t
      → lookup n s.provider.zones.table ≡ some z
      → lookup n t.provider.zones.table ≡ none
      → IsRemoved n s t
  Steps-IsRemoved n z here there gone = absurd (ground (arith, there, gone))
  Steps-IsRemoved n z (later {t} r (ignored e rests h)) there gone =
      extended n (ignored e rests h) (Steps-IsRemoved n z r there gone)
  Steps-IsRemoved n z (later {t} r (started e p rests h)) there gone =
      extended n (started e p rests h) (
        Steps-IsRemoved n z r there
          (ap (λ (zs : Zones lib). lookup n zs.table) (sym (change-zones deps lib _ p e h)) ∙ gone))
  Steps-IsRemoved n z (later {t} r (synced syncs)) there gone =
      elim (Option-cases (lookup n t.provider.zones.table)) [
        | inl missing ↦ extended n (synced syncs) (Steps-IsRemoved n z r there missing)
        | inr (z', still) ↦ record {
          at = t;
          before = r;
          step = syncs;
          zone = z';
          there = still;
          gone = gone;
          after = here;
        }
      ]

  module _ (q : Query lib) (law : MatchesAName q) (address : Option Ip) {s t : Plugin lib}
      (reached : Reach deps lib address s) (then' : Steps deps lib s t) where
    abbrev zone_name : Text
    zone_name = q.matches s.provider.zones.names

    abbrev response : Served
    response = serve_dns lib q s.provider.zones t.provider.zones

    -- A query reads the provider, and reads it again after any critical sections of handlers. It
    -- is handed on, for a name that matches no zone; or it is answered from the zone of its name,
    -- as this is at the second reading; or it fails with SERVFAIL, and then the zone was there at
    -- the first reading and a `sync` in between has taken it away.
    pub serve_dns-between :
        ((zone_name ≡ []) × (response ≡ q.next))
        ⊎ ((z : lib.Zone) × (lookup zone_name t.provider.zones.table ≡ some z)
            × (response ≡ serve_zone lib q z))
        ⊎ ((response ≡ server_failed none) × IsRemoved zone_name s t)
    unfolding serve_dns
    serve_dns-between = elim (Bool-cases (text_eq zone_name [])) [
      | inl unmatched ↦ inl ((text_eq_iff _ _).0 unmatched, rw unmatched refl)
      | inr matched ↦ elim (Option-cases (lookup zone_name t.provider.zones.table)) [
        | inr (z, there) ↦ inr (inl (z, there, rw (matched, there) refl))
        | inl missing ↦ elim (Option-cases (lookup zone_name s.provider.zones.table)) [
          | inr (z, there) ↦
              inr
                (inr (rw (matched, missing) refl, Steps-IsRemoved zone_name z then' there missing))
          | inl never ↦ absurd (
              ground (
                arith,
                law s.provider.zones.names,
                Reach-Agree address reached zone_name,
                text_eq_iff zone_name [],
              ))
        ]
      ]
    ]
