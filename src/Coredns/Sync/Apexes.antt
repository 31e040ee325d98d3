-- ===== src/Coredns/Sync/Apexes.antt =====
-- The SOA and NS records of the zones after `sync`.
use k8s_dns_manager.Prelude.{
  ℕ, ◌≡◌, refl, true, false, Option, none, some, List, [], ◌∷◌, ◌++◌, Text, codes, Error, All,
  is_some, is_empty, arith, Bool-cases, inl, inr,
}
use k8s_dns_manager.Deps.{Deps, Ip, Rr, type_a}
use k8s_dns_manager.Coredns.{ZoneLib, Provider}
use k8s_dns_manager.Coredns.Sync.{
  fill, complete, complete_all, sync, or_text, or_number, with_soa, with_address, soa_record,
  address_record, go_on,
}

-- What file.Zone documents of its fields: what is stored is read, and the fields do not disturb one
-- another; inserting a record other than an SOA or NS record leaves them.
pub record ZoneLaws (lib : ZoneLib) : Type 0 where
  pub soa-set_soa : (z : lib.Zone) (r : Rr) → lib.soa (lib.set_soa z r) ≡ some r
  pub ns-set_ns : (z : lib.Zone) (rs : List Rr) → lib.ns (lib.set_ns z rs) ≡ rs
  pub soa-set_ns : (z : lib.Zone) (rs : List Rr) → lib.soa (lib.set_ns z rs) ≡ lib.soa z
  pub soa-insert :
      (z : lib.Zone) (r : Rr) → r.header.rrtype ≡ type_a → lib.soa (lib.insert z r).0 ≡ lib.soa z
  pub ns-insert :
      (z : lib.Zone) (r : Rr) → r.header.rrtype ≡ type_a → lib.ns (lib.insert z r).0 ≡ lib.ns z

-- The zone can be served: it has an SOA record and a name server.
pub record HasApex (lib : ZoneLib) (z : lib.Zone) : Type 0 where
  pub authority : is_some (lib.soa z) ≡ true
  pub served : is_empty (lib.ns z) ≡ false

is_empty-append : (rs : List Rr) (r : Rr) → is_empty (rs ++ r ∷ []) ≡ false
is_empty-append [] r = refl
is_empty-append (x ∷ rs) r = refl

module _ (deps : Deps) (lib : ZoneLib) (laws : ZoneLaws lib) (hostmaster apex : Text) (ttl : ℕ)
    (external : Option Ip) where
  with_soa-some :
      (k : Text) (z : lib.Zone)
      → is_some (lib.soa (with_soa deps lib hostmaster apex ttl external k z)) ≡ true
  unfolding with_soa
  with_soa-some k z =
      ground (arith, laws.soa-set_soa z (soa_record deps lib hostmaster apex ttl external k))

  with_address-HasApex :
      (k : Text) (z : lib.Zone) (e : Option Ip)
      → HasApex lib z
      → HasApex lib (with_address deps lib hostmaster apex ttl external k z e).0
  unfolding with_address
  with_address-HasApex k z none h = h
  with_address-HasApex k z (some ip) h = record {
    authority =
        rw (laws.soa-insert z (address_record deps lib hostmaster apex ttl external k ip) refl)
          h.authority;
    served =
        rw (laws.ns-insert z (address_record deps lib hostmaster apex ttl external k ip) refl)
          h.served;
  }

  complete-HasApex :
      (k : Text) (z : lib.Zone) → HasApex lib (complete deps lib hostmaster apex ttl external k z).0
  unfolding complete
  complete-HasApex k z =
      let z' = with_soa deps lib hostmaster apex ttl external k z in
      elim (Bool-cases (is_empty (lib.ns z'))) [
        | inl bare ↦ rw bare (
            with_address-HasApex k _ external (record {
              authority = rw laws.soa-set_ns (with_soa-some k z);
              served = rw laws.ns-set_ns (is_empty-append (lib.ns z') _);
            }))
        | inr full ↦ rw full (record { authority = with_soa-some k z; served = full })
      ]

  go_on-HasApex :
      (k : Text) (z : lib.Zone) (e : Option Error) (zs : List (Text × lib.Zone))
      (rest : List (Text × lib.Zone) × Option Error)
      → HasApex lib z
      → (rest.1 ≡ none → All (λ kz. HasApex lib kz.1) rest.0)
      → (go_on deps lib hostmaster apex ttl external k z e zs rest).1 ≡ none
      → All (λ kz. HasApex lib kz.1) (go_on deps lib hostmaster apex ttl external k z e zs rest).0
  unfolding go_on
  go_on-HasApex k z none zs rest a h fine = (a, h fine)
  go_on-HasApex k z (some e) zs rest a h fine = cc

  complete_all-HasApex :
      (zs : List (Text × lib.Zone))
      → (complete_all deps lib hostmaster apex ttl external zs).1 ≡ none
      → All (λ kz. HasApex lib kz.1) (complete_all deps lib hostmaster apex ttl external zs).0
  unfolding complete_all
  complete_all-HasApex [] h = tt
  complete_all-HasApex ((k, z) ∷ zs) h =
      go_on-HasApex k _ _ zs _ (complete-HasApex k z) (complete_all-HasApex zs) h

  -- An insertion that the zones of a table accept: the address of a name server.
  go_on-none :
      (k : Text) (z : lib.Zone) (e : Option Error) (zs : List (Text × lib.Zone))
      (rest : List (Text × lib.Zone) × Option Error)
      → e ≡ none
      → rest.1 ≡ none
      → (go_on deps lib hostmaster apex ttl external k z e zs rest).1 ≡ none
  unfolding go_on
  go_on-none k z none zs rest a h = h
  go_on-none k z (some e) zs rest a h = cc

  complete-none :
      ((z : lib.Zone) (r : Rr) → r.header.rrtype ≡ type_a → (lib.insert z r).1 ≡ none)
      → (k : Text) (z : lib.Zone) → (complete deps lib hostmaster apex ttl external k z).1 ≡ none
  unfolding complete
  complete-none h k z =
      let z' = with_soa deps lib hostmaster apex ttl external k z in
      elim (Bool-cases (is_empty (lib.ns z'))) [
        | inl bare ↦ rw bare (with_address-none _ external)
        | inr full ↦ rw full
      ]
    where
      with_address-none :
          (x : lib.Zone) (e : Option Ip)
          → (with_address deps lib hostmaster apex ttl external k x e).1 ≡ none
      with_address-none x none = unfold with_address in refl
      with_address-none x (some ip) = unfold with_address in h x _ refl

  complete_all-none :
      ((z : lib.Zone) (r : Rr) → r.header.rrtype ≡ type_a → (lib.insert z r).1 ≡ none)
      → (zs : List (Text × lib.Zone))
      → (complete_all deps lib hostmaster apex ttl external zs).1 ≡ none
  unfolding complete_all
  complete_all-none h [] = refl
  complete_all-none h ((k, z) ∷ zs) =
      go_on-none k _ _ zs _ (complete-none h k z) (complete_all-none h zs)

-- Where zones keep their SOA and NS records apart, and accept A records, every zone has an SOA
-- record and a name server after `sync`, whatever the records are and in whatever order they come.
pub sync-HasApex :
    (deps : Deps) (lib : ZoneLib) (p : Provider lib)
    → ZoneLaws lib
    → ((z : lib.Zone) (r : Rr) → r.header.rrtype ≡ type_a → (lib.insert z r).1 ≡ none)
    → All (λ kz. HasApex lib kz.1) (sync deps lib p).0.zones.table
unfolding sync
sync-HasApex deps lib p laws accepts =
    let hostmaster = or_text (codes "hostmaster") p.hostmaster in
    let ttl = or_number 3600 p.ttl in
    let apex = or_text (codes "dns") p.apex in
    let zs = (fill deps lib p.records (record { table = []; names = [] }) []).0.table in
    complete_all-HasApex deps lib laws hostmaster apex ttl p.external_address zs
      (complete_all-none deps lib laws hostmaster apex ttl p.external_address accepts zs)
