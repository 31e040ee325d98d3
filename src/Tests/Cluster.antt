-- ===== src/Tests/Cluster.antt =====
-- The CoreDNS plugin beside a cluster with one DNSRecord.
use k8s_dns_manager.Prelude.{
  ◌≡◌, refl, any, true, arith, Option, none, some, List, [], ◌∷◌, codes, Text, ok, All, lookup,
  insert, text_eq,
}
use k8s_dns_manager.GoStrings.{has_suffix, join}
use k8s_dns_manager.Deps.{Rr}
use k8s_dns_manager.Api.{DnsRecord}
use k8s_dns_manager.Ptr.{to_bool_d}
use k8s_dns_manager.Record.{to_rr}
use k8s_dns_manager.Coredns.Sync.{in_zone, place}
use k8s_dns_manager.Coredns.Sync.Names.{NamesAgree}
use k8s_dns_manager.Coredns.Sync.Apexes.{HasApex}
use k8s_dns_manager.Coredns.Sync.Held.{Holding, IsPlain, IsHeld}
use k8s_dns_manager.Coredns.Informer.{is_active, handle_add, handle_delete}
use k8s_dns_manager.Coredns.Interleaved.{Event, added, lost, handled}
use k8s_dns_manager.Coredns.System.{System, IsApart, created, Reach, start, later, init}
use k8s_dns_manager.Coredns.System.Refines.{IsMirror, Reach-IsMirror}
use k8s_dns_manager.Coredns.System.Parted.{shared_text-lost}
use k8s_dns_manager.Coredns.System.Synced.{handled-HasApex}
use k8s_dns_manager.Coredns.System.Served.{Reach-IsHeld}
use k8s_dns_manager.Tests.Samples.{deps, a_rr, a_record}
use k8s_dns_manager.Tests.Plugin.{lib, lib-ZoneLaws, a_record-converts}

abbrev pub www : Text
www = codes "default/www"

abbrev pub address : Option Text
address = some (codes "5.6.7.8")

abbrev pub one_record : System lib
one_record = record {
  cluster = insert www a_record [];
  plugin = handle_add deps lib (init deps lib address).plugin (some a_record);
}

pub a_record-IsApart : IsApart deps (λ k. lookup k []) www a_record
unfolding lookup
a_record-IsApart = record { rr = a_rr; converted = a_record-converts; apart = λ j b x e c s. cc }

pub nothing-there : lookup {V = DnsRecord} www [] ≡ none
unfolding lookup
nothing-there = refl

pub one_record-Reach : Reach deps lib address one_record
one_record-Reach = later start (created www a_record nothing-there a_record-IsApart)

Reach-IsMirror_example : IsMirror deps lib one_record
Reach-IsMirror_example = Reach-IsMirror deps lib one_record-Reach

abbrev some_events : List Event
some_events = lost ∷ added a_record ∷ []

handled-HasApex_example :
    let p = handled deps lib address some_events in
    NamesAgree deps lib p.zones.table p.zones.names × All (λ kz. HasApex lib kz.1) p.zones.table
handled-HasApex_example = handled-HasApex deps lib address some_events lib-ZoneLaws (λ z r h. refl)

-- Membership in the records of a zone.
data IsIn (v : Rr) : List Rr → Type 0 where
  here : (rs : List Rr) → IsIn v (v ∷ rs)
  there : (r : Rr) (rs : List Rr) → IsIn v rs → IsIn v (r ∷ rs)

pub lib-Holding : Holding lib
lib-Holding = record {
  holds = λ z v. IsIn v z.2;
  holds-insert = λ z r e. here z.2;
  holds-later = λ z r v n h. there r z.2 h;
  holds-set_soa = λ z r v n h. h;
  holds-set_ns = λ z rs v n h. h;
}

any-duplicate : (rs : List Rr) → IsIn a_rr rs → any (λ v. deps.is_duplicate v a_rr) rs ≡ true
unfolding text_eq
any-duplicate [] i = elim i [ ]
any-duplicate (r ∷ rs) (here _) = refl
any-duplicate (r ∷ rs) (there _ _ i) = ground (arith, any-duplicate rs i)

pub holds-duplicate :
    (z : lib.Zone) → lib-Holding.holds z a_rr → any (λ v. deps.is_duplicate v a_rr) z.2 ≡ true
unfolding lib-Holding
holds-duplicate z h = any-duplicate z.2 h

pub a_rr-IsPlain : IsPlain deps lib lib-Holding a_rr
a_rr-IsPlain = record {
  accepted = λ z. refl;
  no_soa = λ e. omega (arith, e);
  no_ns = λ e. omega (arith, e);
}

pub www-there : lookup www one_record.cluster ≡ some a_record
unfolding lookup insert text_eq
www-there = refl

pub www-active : is_active deps a_record ≡ true
unfolding is_active to_bool_d
www-active = refl

pub www-placed : place deps lib a_rr ≡ in_zone (codes "example.org.")
unfolding place has_suffix join
www-placed = refl

Reach-IsHeld_example :
    IsHeld deps lib lib-Holding one_record.plugin.zones.table (codes "example.org.") a_rr
Reach-IsHeld_example =
    Reach-IsHeld deps lib lib-Holding one_record-Reach www (codes "example.org.") a_record a_rr
      www-there a_record-converts www-active www-placed a_rr-IsPlain

-- The record under another name of its object.
abbrev twin : DnsRecord
twin = record a_record { metadata = record a_record.metadata { name = codes "twin" } }

twin-converts : to_rr deps twin ≡ ok a_rr
unfolding to_rr
twin-converts = a_record-converts

shared_text-lost_example :
    let p = (init deps lib address).plugin in
    (lookup
        (codes "www.example.org.")
        (handle_add deps lib (handle_add deps lib p (some a_record)) (some twin)).records
      ≡ some a_rr)
    × (lookup
          (codes "www.example.org.")
          (handle_delete deps lib
            (handle_add deps lib (handle_add deps lib p (some a_record)) (some twin))
            (some a_record)).records
        ≡ none)
unfolding is_active
shared_text-lost_example =
    shared_text-lost deps lib (init deps lib address).plugin a_record twin a_rr a_rr
      a_record-converts twin-converts refl www-active
