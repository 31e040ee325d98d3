-- ===== src/Coredns/System/Synced.antt =====
-- The zones of the plugin after any events.
use k8s_dns_manager.Prelude.{
  ℕ, ◌≡◌, List, [], ◌∷◌, refl, subst, Option, none, some, Text, All, text_eq, arith, Bool-cases,
  inl, inr, Result-cases,
}
use k8s_dns_manager.Deps.{Deps, Ip, Rr, type_a}
use k8s_dns_manager.Api.{DnsRecord}
use k8s_dns_manager.Record.{to_rr}
use k8s_dns_manager.Coredns.{
  ZoneLib, Provider, new_provider, default_hostmaster, default_ttl, default_apex,
}
use k8s_dns_manager.Coredns.Sync.{sync, or_text, or_number, fill, complete_all}
use k8s_dns_manager.Coredns.Sync.Names.{NamesAgree, sync-NamesAgree}
use k8s_dns_manager.Coredns.Sync.Apexes.{ZoneLaws, HasApex, sync-HasApex}
use k8s_dns_manager.Coredns.Informer.{
  is_active, make_record, handle_add, handle_update, handle_delete,
}
use k8s_dns_manager.Coredns.Interleaved.{Event, added, updated, deleted, lost, handled}
use k8s_dns_manager.Coredns.System.{
  System, Step, created, changed, removed, created_broken, changed_broken, Reach, start, later,
}

or_text_idem : (d s : Text) → or_text d (or_text d s) ≡ or_text d s
or_text_idem d s = ground arith

or_number_idem : (d n : ℕ) → or_number d (or_number d n) ≡ or_number d n
or_number_idem d n = ground arith

module _ (deps : Deps) (lib : ZoneLib) where
  -- The zones are those that `sync` makes of the table, and the settings are those that it leaves.
  abbrev pub IsSynced : Provider lib → Type 0
  IsSynced p = (sync deps lib p).0 ≡ p

  sync-IsSynced : (p : Provider lib) → IsSynced (sync deps lib p).0
  unfolding sync
  sync-IsSynced p =
      rw
        (
          or_text_idem default_hostmaster p.hostmaster,
          or_number_idem default_ttl p.ttl,
          or_text_idem default_apex p.apex,
        )
        refl

  pub handle_add-IsSynced :
      (p : Provider lib) (o : DnsRecord) → IsSynced p → IsSynced (handle_add deps lib p (some o))
  unfolding handle_add make_record
  handle_add-IsSynced p o h = elim (Result-cases (to_rr deps o)) [
    | inl (rr, c) ↦ elim (Bool-cases (is_active deps o)) [
      | inl on ↦ rw (c, on) (sync-IsSynced _)
      | inr off ↦ rw (c, off) h
    ]
    | inr (e, c) ↦ rw c h
  ]

  pub handle_update-IsSynced :
      (p : Provider lib) (old new : DnsRecord)
      → IsSynced p
      → IsSynced (handle_update deps lib p (some old) (some new))
  unfolding handle_update make_record
  handle_update-IsSynced p old new h = elim (Result-cases (to_rr deps old)) [
    | inl (was, c) ↦ elim (Result-cases (to_rr deps new)) [
      | inl (rr, d) ↦ rw (c, d) (sync-IsSynced _)
      | inr (e, d) ↦ rw (c, d) h
    ]
    | inr (e, c) ↦ rw c h
  ]

  pub handle_delete-IsSynced :
      (p : Provider lib) (o : DnsRecord) → IsSynced p → IsSynced (handle_delete deps lib p (some o))
  unfolding handle_delete make_record
  handle_delete-IsSynced p o h = elim (Result-cases (to_rr deps o)) [
    | inl (rr, c) ↦ rw c (sync-IsSynced _)
    | inr (e, c) ↦ rw c h
  ]

  pub new_provider-IsSynced : (address : Option Ip) → IsSynced (new_provider lib address)
  unfolding new_provider sync fill complete_all text_eq
  new_provider-IsSynced address = refl

  Step-IsSynced : {s t : System lib} → Step deps lib s t → IsSynced s.plugin → IsSynced t.plugin
  Step-IsSynced {s} (created k o absent a) h = handle_add-IsSynced s.plugin o h
  Step-IsSynced {s} (created_broken k o e absent c) h = handle_add-IsSynced s.plugin o h
  Step-IsSynced {s} (changed_broken k old new e e' there c d) h =
      handle_update-IsSynced s.plugin old new h
  Step-IsSynced {s} (changed k old new was there c a) h = handle_update-IsSynced s.plugin old new h
  Step-IsSynced {s} (removed k old there) h = handle_delete-IsSynced s.plugin old h

  pub Reach-IsSynced :
      {address : Option Ip} {s : System lib} → Reach deps lib address s → IsSynced s.plugin
  Reach-IsSynced {address} start = new_provider-IsSynced address
  Reach-IsSynced (later r st) = Step-IsSynced st (Reach-IsSynced r)

  pub handled-IsSynced :
      (address : Option Ip) (es : List Event) → IsSynced (handled deps lib address es)
  unfolding handled handle_delete make_record
  handled-IsSynced address [] = new_provider-IsSynced address
  handled-IsSynced address (added o ∷ es) = handle_add-IsSynced _ o (handled-IsSynced address es)
  handled-IsSynced address (updated old new ∷ es) =
      handle_update-IsSynced _ old new (handled-IsSynced address es)
  handled-IsSynced address (deleted o ∷ es) =
      handle_delete-IsSynced _ o (handled-IsSynced address es)
  handled-IsSynced address (lost ∷ es) = handled-IsSynced address es

  -- Whatever events the informer passes on to a new provider, a deletion whose last object is not
  -- known among them, its list of names then holds exactly the names of its map of zones, and,
  -- where zones keep their SOA and NS records apart and accept A records, every zone has an SOA
  -- record and a name server.
  pub handled-HasApex :
      (address : Option Ip) (es : List Event)
      → ZoneLaws lib
      → ((z : lib.Zone) (r : Rr) → r.header.rrtype ≡ type_a → (lib.insert z r).1 ≡ none)
      → let p = handled deps lib address es in
        NamesAgree deps lib p.zones.table p.zones.names × All (λ kz. HasApex lib kz.1) p.zones.table
  handled-HasApex address es laws accepts =
      let p = handled deps lib address es in
      subst
        (λ (q : Provider lib).
          NamesAgree deps lib q.zones.table q.zones.names
          × All (λ kz. HasApex lib kz.1) q.zones.table)
        (handled-IsSynced address es)
        ((sync-NamesAgree deps lib p).0, sync-HasApex deps lib p laws accepts)
