-- ===== src/Coredns/System.antt =====
-- The CoreDNS plugin beside the API server: the DNSRecords of the cluster by namespace and name, and
-- the provider that the informer tells of every change to them. The informer documents that it
-- passes on each change of an object in order, an update with the version before. It may miss a
-- deletion, and then passes on a DeletedFinalStateUnknown; those runs are left out here, as are
-- those in which two DNSRecords have records with one text, or a change turns a DNSRecord that is
-- converted into one that is not, or back. Parted has what goes wrong in the last two.
pub mod Contents
pub mod Broken
pub mod Refines
pub mod Parted
pub mod Synced
pub mod Served
pub mod Published
pub mod Ingressed
pub mod Loopback
pub mod Delivery
pub mod Admitted
pub mod Starts
use k8s_dns_manager.Prelude.{
  ◌≡◌, Option, none, some, List, [], ◌∷◌, Text, Error, Result, ok, err, lookup, insert, delete,
}
use k8s_dns_manager.Deps.{Deps, Ip, Rr}
use k8s_dns_manager.Api.{DnsRecord}
use k8s_dns_manager.Record.{to_rr}
use k8s_dns_manager.Coredns.{ZoneLib, Provider, new_provider}
use k8s_dns_manager.Coredns.Informer.{handle_add, handle_update, handle_delete}

pub record System (lib : ZoneLib) : Type 0 where
  pub cluster : List (Text × DnsRecord)
  pub plugin : Provider lib

module _ (deps : Deps) where
  -- The object is converted, and its text is that of no object but the one of the name `k`.
  pub record IsApart (objects : Text → Option DnsRecord) (k : Text) (o : DnsRecord) : Type 0 where
    pub rr : Rr
    pub converted : to_rr deps o ≡ ok rr
    pub apart :
        (j : Text) (b : DnsRecord) (x : Rr)
        → objects j ≡ some b
        → to_rr deps b ≡ ok x
        → deps.rr_string x ≡ deps.rr_string rr
        → j ≡ k

  abbrev pub objects_of : {lib : ZoneLib} → System lib → Text → Option DnsRecord
  objects_of s k = lookup k s.cluster

  -- A change to the cluster, with the handler that it calls.
  pub data Step (lib : ZoneLib) (s : System lib) : System lib → Type 0 where
    created :
        (k : Text) (o : DnsRecord)
        → lookup k s.cluster ≡ none
        → IsApart (objects_of s) k o
        → Step lib s (record {
          cluster = insert k o s.cluster;
          plugin = handle_add deps lib s.plugin (some o);
        })
    changed :
        (k : Text) (old new : DnsRecord) (was : Rr)
        → lookup k s.cluster ≡ some old
        → to_rr deps old ≡ ok was
        → IsApart (objects_of s) k new
        → Step lib s (record {
          cluster = insert k new s.cluster;
          plugin = handle_update deps lib s.plugin (some old) (some new);
        })
    removed :
        (k : Text) (old : DnsRecord)
        → lookup k s.cluster ≡ some old
        → Step lib s (record {
          cluster = delete k s.cluster;
          plugin = handle_delete deps lib s.plugin (some old);
        })
    -- a DNSRecord that is not converted comes, or takes another such one's place
    created_broken :
        (k : Text) (o : DnsRecord) (e : Error)
        → lookup k s.cluster ≡ none
        → to_rr deps o ≡ err e
        → Step lib s (record {
          cluster = insert k o s.cluster;
          plugin = handle_add deps lib s.plugin (some o);
        })
    changed_broken :
        (k : Text) (old new : DnsRecord) (e e' : Error)
        → lookup k s.cluster ≡ some old
        → to_rr deps old ≡ err e
        → to_rr deps new ≡ err e'
        → Step lib s (record {
          cluster = insert k new s.cluster;
          plugin = handle_update deps lib s.plugin (some old) (some new);
        })

  abbrev pub init : (lib : ZoneLib) → Option Ip → System lib
  init lib address = record { cluster = []; plugin = new_provider lib address }

  -- The states of such a run of a plugin that was started on an empty cluster. The informer's first
  -- list counts as additions.
  pub data Reach (lib : ZoneLib) (address : Option Ip) : System lib → Type 0 where
    start : Reach lib address (init lib address)
    later : {s t : System lib} → Reach lib address s → Step lib s t → Reach lib address t
