-- ===== src/Coredns/Interleaved/Atomic.antt =====
-- The states between critical sections and the handlers as wholes.
use k8s_dns_manager.Prelude.{
  ◌≡◌, refl, sym, ◌⊎◌, inl, inr, Option, none, some, List, ◌∷◌, Result, ok, err, arith,
  Result-cases,
}
use k8s_dns_manager.Deps.{Deps, Ip, Rr}
use k8s_dns_manager.Api.{DnsRecord}
use k8s_dns_manager.Record.{to_rr}
use k8s_dns_manager.Coredns.{ZoneLib, Provider}
use k8s_dns_manager.Coredns.Informer.{
  change_added, change_updated, change_replaced, change_deleted, make_record, handle_add,
  handle_update, handle_delete,
}
use k8s_dns_manager.Coredns.Sync.{sync}
use k8s_dns_manager.Coredns.Interleaved.{
  Event, added, updated, deleted, lost, resting, syncing, Plugin, change, handle, Step, ignored,
  started, synced, here, later, init, Reach, handled,
}

module _ (deps : Deps) (lib : ZoneLib) where
  -- A handler is its first critical section, and `sync` if it has one.
  pub handle-change :
      (p : Provider lib) (e : Event)
      → handle deps lib p e ≡ elim (change deps lib p e) [ none ↦ p | some q ↦ (sync deps lib q).0 ]
  unfolding change handle_add handle_update handle_delete make_record
  handle-change p (added o) = elim (Result-cases (to_rr deps o)) [
    | inl (rr, c) ↦ rw c (ground arith)
    | inr (e, c) ↦ rw c refl
  ]
  handle-change p (updated old new) = elim (Result-cases (to_rr deps old)) [
    | inl (was, c) ↦ elim (Result-cases (to_rr deps new)) [
      | inl (rr, d) ↦ rw (c, d) refl
      | inr (e, d) ↦ rw (c, d) refl
    ]
    | inr (e, c) ↦ rw c refl
  ]
  handle-change p (deleted o) = elim (Result-cases (to_rr deps o)) [
    | inl (rr, c) ↦ rw c refl
    | inr (e, c) ↦ rw c refl
  ]
  handle-change p lost = refl

  change_added-zones :
      (p q : Provider lib) (r : Result (Rr × DnsRecord))
      → change_added deps lib p r ≡ some q
      → q.zones ≡ p.zones
  unfolding change_added
  change_added-zones p q (err e) h = cc
  change_added-zones p q (ok (rr, r)) h = ground arith

  change_deleted-zones :
      (p q : Provider lib) (r : Result (Rr × DnsRecord))
      → change_deleted deps lib p r ≡ some q
      → q.zones ≡ p.zones
  unfolding change_deleted
  change_deleted-zones p q (err e) h = cc
  change_deleted-zones p q (ok (rr, r)) h = ground arith

  change_updated-zones :
      (p q : Provider lib) (r r' : Result (Rr × DnsRecord))
      → change_updated deps lib p r r' ≡ some q
      → q.zones ≡ p.zones
  unfolding change_updated change_replaced
  change_updated-zones p q (err e) r' h = cc
  change_updated-zones p q (ok (rr, r)) (err e) h = cc
  change_updated-zones p q (ok (rr, r)) (ok (rr', r')) h = ground arith

  -- The zones are left to `sync`.
  pub change-zones :
      (p q : Provider lib) (e : Event) → change deps lib p e ≡ some q → q.zones ≡ p.zones
  unfolding change
  change-zones p q (added o) h = change_added-zones p q _ h
  change-zones p q (updated old new) h = change_updated-zones p q _ _ h
  change-zones p q (deleted o) h = change_deleted-zones p q _ h
  change-zones p q lost h = change_deleted-zones p q _ h

  -- The events before the last one, and the handler that it is in.
  record IsInside (address : Option Ip) (s : Plugin lib) : Type 0 where
    last : Event
    before : List Event
    passed : s.events ≡ last ∷ before
    changed : change deps lib (handled deps lib address before) last ≡ some s.provider

  abbrev IsAt : Option Ip → Plugin lib → Type 0
  IsAt address s =
      ((s.turn ≡ resting) × (s.provider ≡ handled deps lib address s.events))
      ⊎ ((s.turn ≡ syncing) × IsInside address s)

  Step-IsAt :
      {address : Option Ip} {s t : Plugin lib} → Step deps lib s t → IsAt address s → IsAt address t
  unfolding handled
  Step-IsAt {s = s} (ignored e rests h) (inl (_, at)) =
      inl (rests, sym (rw (← at, handle-change s.provider e, h) refl))
  Step-IsAt {s = s} (started e p rests h) (inl (_, at)) =
      inr (refl, record { last = e; before = s.events; passed = refl; changed = rw (← at) h })
  Step-IsAt {address} {s} (synced _) (inr (_, i)) = inl (
    refl,
    sym (rw (i.passed, handle-change (handled deps lib address i.before) i.last, i.changed) refl),
  )
  Step-IsAt (ignored e rests _) (inr (syncs, _)) = absurd (ground arith)
  Step-IsAt (started e p rests _) (inr (syncs, _)) = absurd (ground arith)
  Step-IsAt (synced syncs) (inl (rests, _)) = absurd (ground arith)

  init-IsAt : (address : Option Ip) → IsAt address (init deps lib address)
  unfolding handled
  init-IsAt address = inl (refl, refl)

  Steps-IsAt : (address : Option Ip) {s : Plugin lib} → Reach deps lib address s → IsAt address s
  Steps-IsAt address here = init-IsAt address
  Steps-IsAt address (later r st) = Step-IsAt st (Steps-IsAt address r)

  abbrev pub InHandler : Option Ip → Plugin lib → Type 0
  InHandler address s =
      (s.turn ≡ syncing)
      × ((sync deps lib s.provider).0 ≡ handled deps lib address s.events)
      × (last : Event) × (before : List Event) × (s.events ≡ last ∷ before)
      × (s.provider.zones ≡ (handled deps lib address before).zones)

  handler_cases :
      {address : Option Ip} {s : Plugin lib}
      → s.turn ≡ syncing
      → IsInside address s
      → InHandler address s
  unfolding handled
  handler_cases {address} {s} syncs i =
      let before = handled deps lib address i.before in
      (
        syncs,
        sym (rw (i.passed, handle-change before i.last, i.changed) refl),
        i.last,
        i.before,
        i.passed,
        change-zones before s.provider i.last i.changed,
      )

  -- In every state that the critical sections come to, in any order that the mutex allows: if no
  -- handler is under way, the provider is what it is when the events so far are each handled with
  -- nothing in between; if one is, `sync` will make the provider that, and until then the zones
  -- are those of the events before the last one.
  pub Reach-IsAtomic :
      (address : Option Ip) {s : Plugin lib}
      → Reach deps lib address s
      → ((s.turn ≡ resting) × (s.provider ≡ handled deps lib address s.events))
        ⊎ InHandler address s
  Reach-IsAtomic address r = elim (Steps-IsAt address r) [
    | inl rests ↦ inl rests
    | inr (syncs, i) ↦ inr (handler_cases syncs i)
  ]
