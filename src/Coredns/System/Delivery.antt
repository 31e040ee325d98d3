-- ===== src/Coredns/System/Delivery.antt =====
-- The plugin beside a cluster whose changes the informer passes on later: a queue of them stands
-- between, and a handler has its critical sections one by one (pkg/coredns/k8s_dns/provider.go).
pub mod Delivered
pub mod Drained
use k8s_dns_manager.Prelude.{
  ◌≡◌, ℕ, suc, Option, none, some, List, [], ◌∷◌, ◌++◌, Text, Error, ok, err, lookup, insert,
  delete,
}
use k8s_dns_manager.Deps.{Deps, Ip, Rr}
use k8s_dns_manager.Api.{DnsRecord}
use k8s_dns_manager.Record.{to_rr}
use k8s_dns_manager.Coredns.{ZoneLib}
use k8s_dns_manager.Coredns.Interleaved as Interleaved
use k8s_dns_manager.Coredns.Interleaved.{Event, added, updated, deleted, Plugin}
use k8s_dns_manager.Coredns.System.{IsApart}

abbrev pub Cluster : Type 0
Cluster = List (Text × DnsRecord)

-- A change of the DNSRecord of a name.
pub data Change : Type 0 where
  create remove : Text → DnsRecord → Change
  replace : Text → DnsRecord → DnsRecord → Change

abbrev pub event_of : Change → Event
event_of (create k o) = added o
event_of (remove k o) = deleted o
event_of (replace k old new) = updated old new

abbrev pub apply : Change → Cluster → Cluster
apply (create k o) c = insert k o c
apply (remove k o) c = delete k c
apply (replace k old new) c = insert k new c

-- The cluster, the changes that were not passed on yet, the first one first, and the plugin.
pub record Delayed (lib : ZoneLib) : Type 0 where
  pub cluster : Cluster
  pub queue : List Change
  pub plugin : Plugin lib

module _ (deps : Deps) where
  abbrev pub objects_of : Cluster → Text → Option DnsRecord
  objects_of c k = lookup k c

  -- The change is one of the cluster, a deletion with the last object: of a DNSRecord that is there, or not; what is converted stays
  -- so, with a record whose text is that of no other DNSRecord.
  pub data Fits (c : Cluster) : Change → Type 0 where
    creates :
        (k : Text) (o : DnsRecord)
        → lookup k c ≡ none
        → IsApart deps (objects_of c) k o
        → Fits c (create k o)
    creates_broken :
        (k : Text) (o : DnsRecord) (e : Error)
        → lookup k c ≡ none
        → to_rr deps o ≡ err e
        → Fits c (create k o)
    replaces :
        (k : Text) (old new : DnsRecord) (was : Rr)
        → lookup k c ≡ some old
        → to_rr deps old ≡ ok was
        → IsApart deps (objects_of c) k new
        → Fits c (replace k old new)
    replaces_broken :
        (k : Text) (old new : DnsRecord) (e e' : Error)
        → lookup k c ≡ some old
        → to_rr deps old ≡ err e
        → to_rr deps new ≡ err e'
        → Fits c (replace k old new)
    removes : (k : Text) (old : DnsRecord) → lookup k c ≡ some old → Fits c (remove k old)

  module _ (lib : ZoneLib) where
    -- The informer passes the first change on to a handler, which returns early or leaves its first
    -- critical section; or a handler leaves its second one.
    pub data Work (s : Delayed lib) : Delayed lib → Type 0 where
      passed :
          (c : Change) (rest : List Change) (p : Plugin lib)
          → s.queue ≡ c ∷ rest
          → Interleaved.Step deps lib s.plugin p
          → p.events ≡ event_of c ∷ s.plugin.events
          → Work s (record s { queue = rest; plugin = p })
      finished :
          (p : Plugin lib)
          → Interleaved.Step deps lib s.plugin p
          → p.events ≡ s.plugin.events
          → Work s (record s { plugin = p })

    pub data Step (s : Delayed lib) : Delayed lib → Type 0 where
      changed :
          (c : Change)
          → Fits s.cluster c
          → Step s (record s { cluster = apply c s.cluster; queue = s.queue ++ c ∷ [] })
      worked : {t : Delayed lib} → Work s t → Step s t

    pub data Steps (s : Delayed lib) : Delayed lib → Type 0 where
      here : Steps s s
      later : {t u : Delayed lib} → Steps s t → Step t u → Steps s u

    -- That many steps while the cluster stands still.
    pub data Works (s : Delayed lib) : ℕ → Delayed lib → Type 0 where
      still : Works s 0 s
      further : {n : ℕ} {t u : Delayed lib} → Works s n t → Work t u → Works s (suc n) u

    abbrev pub init : Option Ip → Delayed lib
    init address = record { cluster = []; queue = []; plugin = Interleaved.init deps lib address }
