-- ===== src/Coredns/Interleaved.antt =====
-- The provider between its critical sections (pkg/coredns/k8s_dns/provider.go): a handler of `Run`
-- changes the table under the mutex, lets the mutex go, and takes it again in `sync`. `Zones` may
-- take it in between. The informer calls one handler at a time.
pub mod Atomic
pub mod Queries
use k8s_dns_manager.Prelude.{◌≡◌, Option, none, some, List, [], ◌∷◌, Result, ok, err, if◌then◌else◌}
use k8s_dns_manager.Deps.{Deps, Ip, Rr}
use k8s_dns_manager.Api.{DnsRecord}
use k8s_dns_manager.Coredns.{ZoneLib, Provider, new_provider}
use k8s_dns_manager.Coredns.Sync.{sync}
use k8s_dns_manager.Coredns.Informer.{
  make_record, change_added, change_updated, change_deleted, handle_add, handle_update,
  handle_delete,
}

-- What the informer passes on.
pub data Event : Type 0 where
  added deleted : DnsRecord → Event
  updated : DnsRecord → DnsRecord → Event
  -- a deletion whose last object is not known: DeletedFinalStateUnknown, which is no DNSRecord
  lost : Event

-- Where the handler stands: there is none, or it has changed the table and is to call `sync`.
pub data Turn : Type 0 where
  resting syncing : Turn

-- The provider, the handler, and the events that were passed on, the last one first.
pub record Plugin (lib : ZoneLib) : Type 0 where
  pub provider : Provider lib
  pub turn : Turn
  pub events : List Event

module _ (deps : Deps) (lib : ZoneLib) where
  -- The first critical section of a handler; without one, it has returned early.
  unfoldable pub change : Provider lib → Event → Option (Provider lib)
  unfolding change_added change_updated change_deleted
  change p (added o) = change_added deps lib p (make_record deps (some o))
  change p (updated old new) =
      change_updated deps lib p (make_record deps (some old)) (make_record deps (some new))
  change p (deleted o) = change_deleted deps lib p (make_record deps (some o))
  change p lost = change_deleted deps lib p (make_record deps none)

  -- The whole handler of an event, with no other call between its critical sections.
  abbrev pub handle : Provider lib → Event → Provider lib
  handle p (added o) = handle_add deps lib p (some o)
  handle p (updated old new) = handle_update deps lib p (some old) (some new)
  handle p (deleted o) = handle_delete deps lib p (some o)
  handle p lost = handle_delete deps lib p none

  pub data Step (s : Plugin lib) : Plugin lib → Type 0 where
    ignored :
        (e : Event)
        → s.turn ≡ resting
        → change s.provider e ≡ none
        → Step s (record s { events = e ∷ s.events })
    started :
        (e : Event) (p : Provider lib)
        → s.turn ≡ resting
        → change s.provider e ≡ some p
        → Step s (record { provider = p; turn = syncing; events = e ∷ s.events })
    synced :
        s.turn ≡ syncing
        → Step s (record s { provider = (sync deps lib s.provider).0; turn = resting })

  pub data Steps (s : Plugin lib) : Plugin lib → Type 0 where
    here : Steps s s
    later : {t u : Plugin lib} → Steps s t → Step t u → Steps s u

  abbrev pub init : Option Ip → Plugin lib
  init address = record { provider = new_provider lib address; turn = resting; events = [] }

  abbrev pub Reach : Option Ip → Plugin lib → Type 0
  Reach address s = Steps (init address) s

  -- What the provider is after the events, the last one first, each handled as a whole.
  unfoldable pub handled : Option Ip → List Event → Provider lib
  handled address [] = new_provider lib address
  handled address (e ∷ es) = handle (handled address es) e
