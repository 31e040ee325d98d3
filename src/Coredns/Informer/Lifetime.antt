-- ===== src/Coredns/Informer/Lifetime.antt =====
-- The table of records over the lifetime of one DNSRecord: it is added, updated any number of times,
-- and deleted.
use k8s_dns_manager.Prelude.{
  ◌≡◌, sym, ◌∙◌, ap, Option, none, some, List, [], ◌∷◌, Text, Result, ok, err, All, text_eq,
  text_eq_iff, lookup, delete, lookup-insert, lookup-delete, if◌then◌else◌, arith, Bool-cases, inl,
  inr,
}
use k8s_dns_manager.Deps.{Deps, Rr}
use k8s_dns_manager.Api.{DnsRecord}
use k8s_dns_manager.Record.{to_rr}
use k8s_dns_manager.Coredns.{ZoneLib, Provider}
use k8s_dns_manager.Coredns.Sync.{sync}
use k8s_dns_manager.Coredns.Informer.{
  make_record, is_active, handle_add, handle_update, handle_delete,
}

-- The events of a DNSRecord after its first one: the later versions, in order.
pub updates :
    (deps : Deps) (lib : ZoneLib) → Provider lib → DnsRecord → List DnsRecord → Provider lib
updates deps lib p o [] = p
updates deps lib p o (v ∷ vs) = updates deps lib (handle_update deps lib p (some o) (some v)) v vs

-- The last version.
abbrev pub last : DnsRecord → List DnsRecord → DnsRecord
last o [] = o
last o (v ∷ vs) = last v vs

abbrev pub or_else {ℓ} : {A : Type ℓ} → Option A → Option A → Option A
or_else (some a) b = some a
or_else none b = b

module _ (deps : Deps) (lib : ZoneLib) where
  -- The record that a version serves under a text.
  abbrev shown : Text → DnsRecord → Result Rr → Option Rr
  shown s o (err e) = none
  shown s o (ok rr) =
      if is_active deps o then (if text_eq (deps.rr_string rr) s then some rr else none) else none

  abbrev pub shows : DnsRecord → Text → Option Rr
  shows o s = shown s o (to_rr deps o)

  -- The version is converted, to a record whose text is not in the table.
  pub record IsFresh (table : List (Text × Rr)) (o : DnsRecord) : Type 0 where
    pub rr : Rr
    pub converted : to_rr deps o ≡ ok rr
    pub fresh : lookup (deps.rr_string rr) table ≡ none

  -- The provider's table is `table` with what the version shows.
  abbrev pub Serves : Provider lib → List (Text × Rr) → DnsRecord → Type 0
  Serves p table o = (s : Text) → lookup s p.records ≡ or_else (shows o s) (lookup s table)

  handle_add-Serves :
      (p : Provider lib) (o : DnsRecord)
      → IsFresh p.records o
      → Serves (handle_add deps lib p (some o)) p.records o
  unfolding handle_add make_record sync
  handle_add-Serves p o f s = rw f.converted (elim (Bool-cases (is_active deps o)) [
    | inl on ↦ rw on (ground (arith, lookup-insert (deps.rr_string f.rr) s f.rr p.records))
    | inr off ↦ rw off
  ])

  -- without the text of the version, the table is what it was before
  lookup-dropped :
      (records table : List (Text × Rr)) (o : DnsRecord) (f : IsFresh table o)
      → ((s : Text) → lookup s records ≡ or_else (shows o s) (lookup s table))
      → (s : Text) → lookup s (delete (deps.rr_string f.rr) records) ≡ lookup s table
  lookup-dropped records table o f h s = elim (Bool-cases (text_eq (deps.rr_string f.rr) s)) [
    | inl same ↦
        let e = (text_eq_iff (deps.rr_string f.rr) s).0 same in
        ground (
          arith,
          lookup-delete (deps.rr_string f.rr) s records,
          sym f.fresh ∙ ap (λ k. lookup k table) e,
        )
    | inr other ↦
        let there : lookup s records ≡ or_else (shown s o (ok f.rr)) (lookup s table) =
          h s ∙ ap (λ r. or_else (shown s o r) (lookup s table)) f.converted in
        ground (arith, lookup-delete (deps.rr_string f.rr) s records)
  ]

  handle_update-Serves :
      (p : Provider lib) (table : List (Text × Rr)) (o v : DnsRecord)
      → IsFresh table o
      → IsFresh table v
      → Serves p table o
      → Serves (handle_update deps lib p (some o) (some v)) table v
  unfolding handle_update make_record sync
  handle_update-Serves p table o v f g h s =
      let dropped = lookup-dropped p.records table o f h s in
      rw (f.converted, g.converted)
        (elim (Bool-cases (is_active deps v)) [
          | inl on ↦ rw on (
              ground (
                arith,
                lookup-insert (deps.rr_string g.rr) s g.rr (delete (deps.rr_string f.rr) p.records),
              ))
          | inr off ↦ rw off dropped
        ])

  updates-Serves :
      (p : Provider lib) (table : List (Text × Rr)) (o : DnsRecord) (vs : List DnsRecord)
      → IsFresh table o
      → All (IsFresh table) vs
      → Serves p table o
      → Serves (updates deps lib p o vs) table (last o vs)
  unfolding updates
  updates-Serves p table o [] f g h = h
  updates-Serves p table o (v ∷ vs) f g h =
      updates-Serves (handle_update deps lib p (some o) (some v)) table v vs g.0 g.1
        (handle_update-Serves p table o v f g.0 h)

  last-IsFresh :
      (table : List (Text × Rr)) (o : DnsRecord) (vs : List DnsRecord)
      → IsFresh table o
      → All (IsFresh table) vs
      → IsFresh table (last o vs)
  last-IsFresh table o [] f g = f
  last-IsFresh table o (v ∷ vs) f g = last-IsFresh table v vs g.0 g.1

  -- A DNSRecord is added and then updated any number of times. If each of its versions is
  -- converted to a record whose text was not in the table before, the table holds in the end what
  -- it held before and, if the last version is active, the record of that version; nothing of the
  -- earlier versions stays.
  pub lifetime-Serves :
      (p : Provider lib) (o : DnsRecord) (vs : List DnsRecord)
      → IsFresh p.records o
      → All (IsFresh p.records) vs
      → Serves (updates deps lib (handle_add deps lib p (some o)) o vs) p.records (last o vs)
  lifetime-Serves p o vs f g =
      updates-Serves (handle_add deps lib p (some o)) p.records o vs f g (handle_add-Serves p o f)

  -- After a DNSRecord is added, updated any number of times and deleted in its last version, where
  -- each version is converted to a record whose text was not in the table before, the table finds
  -- for each text what it found before the DNSRecord was added.
  pub lifetime-deleted :
      (p : Provider lib) (o : DnsRecord) (vs : List DnsRecord) (s : Text)
      → IsFresh p.records o
      → All (IsFresh p.records) vs
      → lookup s
          (handle_delete deps lib
            (updates deps lib (handle_add deps lib p (some o)) o vs)
            (some (last o vs))).records
        ≡ lookup s p.records
  unfolding handle_delete make_record sync
  lifetime-deleted p o vs s f g =
      let l = last-IsFresh p.records o vs f g in
      rw l.converted (lookup-dropped _ p.records (last o vs) l (lifetime-Serves p o vs f g) s)
