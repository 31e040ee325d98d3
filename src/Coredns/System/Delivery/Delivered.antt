-- ===== src/Coredns/System/Delivery/Delivered.antt =====
-- What the informer has passed on stands for a state of the plugin beside the cluster.
use k8s_dns_manager.Prelude.{
  ◌≡◌, refl, sym, ◌∙◌, subst, inl, inr, Option, List, [], ◌∷◌, ◌++◌, lookup, arith,
}
use k8s_dns_manager.Deps.{Deps, Ip}
use k8s_dns_manager.Coredns.{ZoneLib}
use k8s_dns_manager.Coredns.Interleaved as Interleaved
use k8s_dns_manager.Coredns.Interleaved.{
  Event, Turn, Plugin, resting, syncing, change, handle, handled, ignored, started, synced,
}
use k8s_dns_manager.Coredns.Interleaved.Atomic.{Reach-IsAtomic}
use k8s_dns_manager.Coredns.System as System
use k8s_dns_manager.Coredns.System.Contents.{Mirrors}
use k8s_dns_manager.Coredns.System.Refines.{Reach-IsMirror}
use k8s_dns_manager.Coredns.System.Delivery.{
  Cluster, Change, event_of, apply, Delayed, Fits, creates, creates_broken, replaces,
  replaces_broken, removes, Step, changed, passed, finished, Work, worked, Steps, here, later, init,
}

module _ (deps : Deps) (lib : ZoneLib) (address : Option Ip) where
  -- The changes lead from one cluster to the other.
  data Follows : Cluster → List Change → Cluster → Type 0 where
    done : (c : Cluster) → Follows c [] c
    next :
        (c d : Cluster) (x : Change) (xs : List Change)
        → Fits deps c x
        → Follows (apply x c) xs d
        → Follows c (x ∷ xs) d

  Follows-append :
      (c d : Cluster) (x : Change) (xs : List Change)
      → Follows c xs d
      → Fits deps d x
      → Follows c (xs ++ x ∷ []) (apply x d)
  Follows-append c d x [] (done _) f = next c _ x [] f (done _)
  Follows-append c d x (y ∷ xs) (next _ _ _ _ g h) f =
      next c _ y _ g (Follows-append (apply y c) d x xs h f)

  -- A change that fits is a step of the cluster with its handler.
  Fits-Step :
      (s : System.System lib) (x : Change)
      → Fits deps s.cluster x
      → System.Step deps lib s
          (record { cluster = apply x s.cluster; plugin = handle deps lib s.plugin (event_of x) })
  Fits-Step s _ (creates k o absent a) = System.created k o absent a
  Fits-Step s _ (creates_broken k o e absent c) = System.created_broken k o e absent c
  Fits-Step s _ (replaces k old new was there c a) = System.changed k old new was there c a
  Fits-Step s _ (replaces_broken k old new e e' there c d) =
      System.changed_broken k old new e e' there c d
  Fits-Step s _ (removes k old there) = System.removed k old there

  -- What was passed on so far stands for a state of the plugin beside the cluster.
  record IsDelivered (s : Delayed lib) : Type 0 where
    before : System.System lib
    reached : System.Reach deps lib address before
    same : before.plugin ≡ handled deps lib address s.plugin.events
    follows : Follows before.cluster s.queue s.cluster
    inside : Interleaved.Reach deps lib address s.plugin

  handled-next :
      (c : Change) (es : List Event)
      → handled deps lib address (event_of c ∷ es)
        ≡ handle deps lib (handled deps lib address es) (event_of c)
  unfolding handled
  handled-next c es = refl

  init-IsDelivered : IsDelivered (init deps lib address)
  unfolding handled
  init-IsDelivered = record {
    before = System.init deps lib address;
    reached = System.start;
    same = refl;
    follows = done [];
    inside = Interleaved.here;
  }

  pass :
      (s : Delayed lib) (c : Change) (rest : List Change) (p : Plugin lib)
      → IsDelivered s
      → s.queue ≡ c ∷ rest
      → Interleaved.Step deps lib s.plugin p
      → p.events ≡ event_of c ∷ s.plugin.events
      → IsDelivered (record s { queue = rest; plugin = p })
  pass s c rest p d q st ev =
      elim (subst (λ xs. Follows d.before.cluster xs s.cluster) q d.follows) [
        | next _ _ _ _ f fs ↦ record {
          before = record {
            cluster = apply c d.before.cluster;
            plugin = handle deps lib d.before.plugin (event_of c);
          };
          reached = System.later d.reached (Fits-Step d.before c f);
          same = rw (ev, d.same) (sym (handled-next c s.plugin.events));
          follows = fs;
          inside = Interleaved.later d.inside st;
        }
      ]

  Work-IsDelivered : {s t : Delayed lib} → Work deps lib s t → IsDelivered s → IsDelivered t
  Work-IsDelivered {s} (passed c rest p q st ev) d = pass s c rest p d q st ev
  Work-IsDelivered {s} (finished p st ev) d = record {
    before = d.before;
    reached = d.reached;
    same = rw ev d.same;
    follows = d.follows;
    inside = Interleaved.later d.inside st;
  }

  Step-IsDelivered : {s t : Delayed lib} → Step deps lib s t → IsDelivered s → IsDelivered t
  Step-IsDelivered {s} (changed c f) d = record {
    before = d.before;
    reached = d.reached;
    same = d.same;
    follows = Follows-append d.before.cluster s.cluster c s.queue d.follows f;
    inside = d.inside;
  }
  Step-IsDelivered (worked w) d = Work-IsDelivered w d

  Steps-IsDelivered : {s : Delayed lib} → Steps deps lib (init deps lib address) s → IsDelivered s
  Steps-IsDelivered here = init-IsDelivered
  Steps-IsDelivered (later r st) = Step-IsDelivered st (Steps-IsDelivered r)

  -- Nothing is left to pass on, and no handler is under way.
  abbrev pub IsQuiet : Delayed lib → Type 0
  IsQuiet s = (s.queue ≡ []) × (s.plugin.turn ≡ resting)

  abbrev pub IsMirrored : Delayed lib → Type 0
  IsMirrored s = Mirrors deps (λ k. lookup k s.cluster) (λ t. lookup t s.plugin.provider.records)

  unfollowed : {c d : Cluster} {xs : List Change} → xs ≡ [] → Follows c xs d → c ≡ d
  unfollowed e (done _) = refl
  unfollowed e (next _ _ x xs _ _) = absurd (ground arith)

  pub quiet-IsMirrored :
      {s : Delayed lib} → Steps deps lib (init deps lib address) s → IsQuiet s → IsMirrored s
  quiet-IsMirrored {s} r (empty, rests) =
      let d = Steps-IsDelivered r in
      elim (Reach-IsAtomic deps lib address d.inside) [
        | inl (_, at) ↦
            let same = d.same ∙ sym at in
            subst (λ c. Mirrors deps (λ k. lookup k c) (λ t. lookup t s.plugin.provider.records))
              (unfollowed empty d.follows)
              (subst (λ p. Mirrors deps (λ k. lookup k d.before.cluster) (λ t. lookup t p.records))
                same (Reach-IsMirror deps lib d.reached))
        | inr (syncs, _, _, _, _, _) ↦ absurd (ground arith)
      ]
