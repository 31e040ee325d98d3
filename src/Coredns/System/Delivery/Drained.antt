-- ===== src/Coredns/System/Delivery/Drained.antt =====
-- The queue of changes drains, and the table of the plugin is then that of the cluster.
use k8s_dns_manager.Prelude.{
  ◌≡◌, ◌≢◌, ap, ℕ, ◌+◌, ◌*◌, ◌≤◌, length, refl, ◌∙◌, ◌⊎◌, inl, inr, Option, List, [], ◌∷◌, arith,
  Option-cases,
}
use k8s_dns_manager.Deps.{Deps, Ip}
use k8s_dns_manager.Coredns.{ZoneLib}
use k8s_dns_manager.Coredns.Sync.{sync}
use k8s_dns_manager.Coredns.Interleaved as Interleaved
use k8s_dns_manager.Coredns.Interleaved.{
  Event, Turn, Plugin, resting, syncing, change, handle, handled, ignored, started, synced,
}
use k8s_dns_manager.Coredns.System.Delivery.Delivered.{IsQuiet, IsMirrored, quiet-IsMirrored}
use k8s_dns_manager.Coredns.System.Delivery.{
  Change, event_of, Delayed, passed, finished, Work, worked, Works, still, further, Steps, later,
  init,
}

module _ (deps : Deps) (lib : ZoneLib) (address : Option Ip) where
  -- How many steps are left.
  abbrev busy : Turn → ℕ
  busy resting = 0
  busy syncing = 1

  abbrev pub left : Delayed lib → ℕ
  left s = 2 * length s.queue + busy s.plugin.turn

  length-longer : (e : Event) (es : List Event) → length (e ∷ es) ≢ length es
  length-longer e es h = ground arith

  Interleaved-busy :
      {p q : Plugin lib} → Interleaved.Step deps lib p q → busy q.turn ≤ busy p.turn + 1
  Interleaved-busy (ignored e rests h) = ground arith
  Interleaved-busy (started e p rests h) = ground arith
  Interleaved-busy (synced syncs) = ground arith

  finished-busy :
      {p q : Plugin lib}
      → Interleaved.Step deps lib p q
      → q.events ≡ p.events
      → busy q.turn + 1 ≤ busy p.turn
  finished-busy {p} (ignored e rests h) ev = absurd (length-longer e p.events (ap length ev))
  finished-busy {p} (started e q rests h) ev = absurd (length-longer e p.events (ap length ev))
  finished-busy (synced syncs) ev = rw syncs (omega arith)

  Work-left : {s t : Delayed lib} → Work deps lib s t → left t + 1 ≤ left s
  Work-left {s} (passed c rest p q st ev) = let b = Interleaved-busy st in rw q (omega arith)
  Work-left (finished p st ev) = let b = finished-busy st ev in omega arith

  Works-left :
      {s : Delayed lib} {n : ℕ} {t : Delayed lib} → Works deps lib s n t → left t + n ≤ left s
  Works-left still = omega arith
  Works-left (further r w) = let a = Works-left r in let b = Work-left w in omega arith

  Work-cluster : {s t : Delayed lib} → Work deps lib s t → t.cluster ≡ s.cluster
  Work-cluster (passed _ _ _ _ _ _) = refl
  Work-cluster (finished _ _ _) = refl

  Works-cluster :
      {s : Delayed lib} {n : ℕ} {t : Delayed lib} → Works deps lib s n t → t.cluster ≡ s.cluster
  Works-cluster still = refl
  Works-cluster (further r w) = Work-cluster w ∙ Works-cluster r

  Works-Steps :
      {s t : Delayed lib} {n : ℕ} {u : Delayed lib}
      → Steps deps lib s t
      → Works deps lib t n u
      → Steps deps lib s u
  Works-Steps a still = a
  Works-Steps a (further r w) = later (Works-Steps a r) (worked w)

  syncing-Work : (s : Delayed lib) → s.plugin.turn ≡ syncing → (t : Delayed lib) × Work deps lib s t
  syncing-Work s syncs =
      let p = record s.plugin { provider = (sync deps lib s.plugin.provider).0; turn = resting } in
      (record s { plugin = p }, finished p (synced syncs) refl)

  resting-Work :
      (s : Delayed lib) (c : Change) (rest : List Change)
      → s.queue ≡ c ∷ rest
      → s.plugin.turn ≡ resting
      → (t : Delayed lib) × Work deps lib s t
  resting-Work s c rest queued rests =
      let e = event_of c in
      elim (Option-cases (change deps lib s.plugin.provider e)) [
        | inl h ↦
            let p = record s.plugin { events = e ∷ s.plugin.events } in
            (record s { queue = rest; plugin = p }, passed c rest p queued (ignored e rests h) refl)
        | inr (q, h) ↦
            let p = record s.plugin {
              provider = q;
              turn = syncing;
              events = e ∷ s.plugin.events;
            } in
            (
              record s { queue = rest; plugin = p },
              passed c rest p queued (started e q rests h) refl,
            )
      ]

  abbrev Proceeds : Delayed lib → Type 0
  Proceeds s = IsQuiet deps lib address s ⊎ ((t : Delayed lib) × Work deps lib s t)

  -- A plugin with anything left to do has a step.
  proceed : (s : Delayed lib) → Proceeds s
  proceed s =
      elim s.plugin.turn as (λ t. s.plugin.turn ≡ t → Proceeds s) [
        | syncing ↦ λ syncs. inr (syncing-Work s syncs)
        | resting ↦ λ rests.
            elim s.queue as (λ q. s.queue ≡ q → Proceeds s) [
              | [] ↦ λ empty. inl (empty, rests)
              | c ∷ rest ↦ λ queued. inr (resting-Work s c rest queued rests)
            ]
              refl
      ]
        refl

  -- Let changes come to the cluster and wait in the queue in any order with the passing on and the
  -- critical sections, each by itself and a deletion with the last object, where no two DNSRecords
  -- are converted to records with one text, and no change turns a DNSRecord that is converted into
  -- one that is not, or back. From a state that this comes to, with the cluster standing still,
  -- the plugin takes at most two steps for each change that waits, and one for a handler that is
  -- under way; it can take a step unless no change waits and no handler is under way, and then its
  -- table holds exactly the records of the active DNSRecords of the cluster that are converted.
  pub drained-IsMirrored :
      {s : Delayed lib} {n : ℕ} {t : Delayed lib}
      → Steps deps lib (init deps lib address) s
      → Works deps lib s n t
      → (n ≤ left s)
        × (t.cluster ≡ s.cluster)
        × ((IsQuiet deps lib address t × IsMirrored deps lib address t)
            ⊎ ((u : Delayed lib) × Work deps lib t u))
  drained-IsMirrored {s} {n} {t} r w =
      let a = Works-left w in
      (
        omega arith,
        Works-cluster w,
        elim (proceed t) [
          | inl q ↦ inl (q, quiet-IsMirrored deps lib address (Works-Steps r w) q)
          | inr u ↦ inr u
        ],
      )
