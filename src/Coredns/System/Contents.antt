-- ===== src/Coredns/System/Contents.antt =====
-- Objects and the table of their records as functions: what one object adds and takes away.
use k8s_dns_manager.Prelude.{
  ◌≡◌, ◌≢◌, text_eq_refl, refl, sym, ap, ◌∙◌, true, false, Option, none, some, Text, ok, text_eq,
  text_eq_iff, if◌then◌else◌, arith, Bool-cases, inl, inr,
}
use k8s_dns_manager.Deps.{Deps, Rr}
use k8s_dns_manager.Api.{DnsRecord}
use k8s_dns_manager.Record.{to_rr}
use k8s_dns_manager.Coredns.Informer.{is_active}
use k8s_dns_manager.Coredns.System.{IsApart}

-- A map with one key changed.
abbrev pub with_key {ℓ} : {V : Type ℓ} → (Text → Option V) → Text → Option V → Text → Option V
with_key f k v j = if text_eq k j then v else f j

module _ (deps : Deps) where
  -- An active object that is converted to the record.
  pub record Shows (objects : Text → Option DnsRecord) (t : Text) (rr : Rr) : Type 0 where
    pub key : Text
    pub object : DnsRecord
    pub there : objects key ≡ some object
    pub converted : to_rr deps object ≡ ok rr
    pub text : deps.rr_string rr ≡ t
    pub active : is_active deps object ≡ true

  -- The table holds exactly the records of the active objects, whose texts are distinct.
  pub record Mirrors (objects : Text → Option DnsRecord) (table : Text → Option Rr) : Type 0 where
    pub sound : (t : Text) (rr : Rr) → table t ≡ some rr → Shows objects t rr
    pub complete :
        (k : Text) (o : DnsRecord) (rr : Rr)
        → objects k ≡ some o
        → to_rr deps o ≡ ok rr
        → is_active deps o ≡ true
        → table (deps.rr_string rr) ≡ some rr
    pub distinct :
        (j k : Text) (a b : DnsRecord) (x y : Rr)
        → objects j ≡ some a
        → objects k ≡ some b
        → to_rr deps a ≡ ok x
        → to_rr deps b ≡ ok y
        → deps.rr_string x ≡ deps.rr_string y
        → j ≡ k

  -- No object is there that is converted.
  abbrev pub IsBroken : Option DnsRecord → Type 0
  IsBroken v = (b : DnsRecord) (x : Rr) → v ≡ some b → to_rr deps b ≢ ok x

module _ (deps : Deps) (objects : Text → Option DnsRecord) (table : Text → Option Rr)
    (m : Mirrors deps objects table) where
  module _ (k : Text) (old : DnsRecord) (rr : Rr) (there : objects k ≡ some old)
      (converted : to_rr deps old ≡ ok rr) where
    -- the other objects show what they did
    Shows-without :
        (t : Text) (x : Rr)
        → text_eq (deps.rr_string rr) t ≡ false
        → Shows deps objects t x
        → Shows deps (with_key objects k none) t x
    Shows-without t x other s = record {
      key = s.key;
      object = s.object;
      there = elim (Bool-cases (text_eq k s.key)) [
        | inl same ↦ absurd (
            ground (
              arith,
              s.there,
              s.converted,
              s.text,
              there,
              converted,
              ap objects ((text_eq_iff k s.key).0 same),
              text_eq_iff (deps.rr_string rr) t,
            ))
        | inr apart ↦ rw apart s.there
      ];
      converted = s.converted;
      text = s.text;
      active = s.active;
    }

    pub without-Mirrors :
        Mirrors deps (with_key objects k none) (with_key table (deps.rr_string rr) none)
    without-Mirrors = record {
      sound = λ t x e. elim (Bool-cases (text_eq (deps.rr_string rr) t)) [
        | inl same ↦ absurd (ground arith)
        | inr other ↦ Shows-without t x other (m.sound t x (rw other at e))
      ];
      complete = λ j o x e c a. elim (Bool-cases (text_eq k j)) [
        | inl same ↦ absurd (ground arith)
        | inr other ↦ elim (Bool-cases (text_eq (deps.rr_string rr) (deps.rr_string x))) [
          | inl clash ↦ absurd (
              ground (
                arith,
                text_eq_iff k j,
                m.distinct k j old o rr x there (rw other at e) converted c
                    ((text_eq_iff _ _).0 clash),
              ))
          | inr apart ↦ rw apart (m.complete j o x (rw other at e) c a)
        ]
      ];
      distinct = λ i j a b x y e f. m.distinct i j a b x y (ground arith) (ground arith);
    }

  module _ (k : Text) (o : DnsRecord) (a : IsApart deps objects k o)
      (absent : objects k ≡ none) where
    abbrev added : Text → Option Rr
    added = if is_active deps o then with_key table (deps.rr_string a.rr) (some a.rr) else table

    Shows-beside :
        (t : Text) (x : Rr) → Shows deps objects t x → Shows deps (with_key objects k (some o)) t x
    Shows-beside t x s = record {
      key = s.key;
      object = s.object;
      there = elim (Bool-cases (text_eq k s.key)) [
        | inl same ↦
            absurd (ground (arith, s.there, absent, ap objects ((text_eq_iff k s.key).0 same)))
        | inr apart ↦ rw apart s.there
      ];
      converted = s.converted;
      text = s.text;
      active = s.active;
    }

    added-Shows :
        (t : Text) (x : Rr) → added t ≡ some x → Shows deps (with_key objects k (some o)) t x
    added-Shows t x e = elim (Bool-cases (is_active deps o)) [
      | inl on ↦ elim (Bool-cases (text_eq (deps.rr_string a.rr) t)) [
        | inl same ↦
            let shown : a.rr ≡ x = ground arith in
            record {
              key = k;
              object = o;
              there = rw (text_eq_refl k) refl;
              converted = a.converted ∙ ap ok shown;
              text = ap deps.rr_string (sym shown) ∙ (text_eq_iff _ _).0 same;
              active = on;
            }
        | inr other ↦ Shows-beside t x (m.sound t x (ground arith))
      ]
      | inr off ↦ Shows-beside t x (m.sound t x (rw off at e))
    ]

    -- no other object has the text of the new one
    apart_text :
        (j : Text) (b : DnsRecord) (x : Rr)
        → objects j ≡ some b
        → to_rr deps b ≡ ok x
        → text_eq (deps.rr_string a.rr) (deps.rr_string x) ≡ false
    apart_text j b x e c = elim (Bool-cases (text_eq (deps.rr_string a.rr) (deps.rr_string x))) [
      | inl clash ↦ absurd (
          ground
            (arith, absent, e, ap objects (a.apart j b x e c (sym ((text_eq_iff _ _).0 clash)))))
      | inr apart ↦ apart
    ]

    -- under its name the new object is found, which has its record
    itself :
        (j : Text) (b : DnsRecord)
        → with_key objects k (some o) j ≡ some b
        → text_eq k j ≡ true
        → (o ≡ b) × (to_rr deps b ≡ ok a.rr)
    itself j b e same =
        let is_o : o ≡ b = ground arith in (is_o, ap (to_rr deps) (sym is_o) ∙ a.converted)

    not_both :
        (i j : Text) (p q : DnsRecord) (x y : Rr)
        → with_key objects k (some o) i ≡ some p
        → text_eq k i ≡ true
        → to_rr deps p ≡ ok x
        → objects j ≡ some q
        → to_rr deps q ≡ ok y
        → deps.rr_string x ≢ deps.rr_string y
    not_both i j p q x y e same c f d s =
        let is_rr : a.rr ≡ x = ground (arith, (itself i p e same).1, c) in
        ground (
          arith,
          apart_text j q y f d,
          text_eq_iff (deps.rr_string a.rr) (deps.rr_string y),
          ap deps.rr_string is_rr,
          s,
        )

    added_complete :
        (j : Text) (b : DnsRecord) (x : Rr)
        → with_key objects k (some o) j ≡ some b
        → to_rr deps b ≡ ok x
        → is_active deps b ≡ true
        → added (deps.rr_string x) ≡ some x
    added_complete j b x e c on = elim (Bool-cases (text_eq k j)) [
      | inl same ↦
          let (is_o, converted) = itself j b e same in
          let is_rr : a.rr ≡ x = ground (arith, converted, c) in
          let active_o : is_active deps o ≡ true = ap (is_active deps) is_o ∙ on in
          rw (active_o, ap deps.rr_string is_rr, text_eq_refl (deps.rr_string x)) (ap some is_rr)
      | inr other ↦
          let e' : objects j ≡ some b = rw other at e in
          let apart = apart_text j b x e' c in
          elim (Bool-cases (is_active deps o)) [
            | inl active ↦ rw (active, apart) (m.complete j b x e' c on)
            | inr idle ↦ rw idle (m.complete j b x e' c on)
          ]
    ]

    added-distinct :
        (i j : Text) (p q : DnsRecord) (x y : Rr)
        → with_key objects k (some o) i ≡ some p
        → with_key objects k (some o) j ≡ some q
        → to_rr deps p ≡ ok x
        → to_rr deps q ≡ ok y
        → deps.rr_string x ≡ deps.rr_string y
        → i ≡ j
    added-distinct i j p q x y e f c d s = elim (Bool-cases (text_eq k i)) [
      | inl same_i ↦ elim (Bool-cases (text_eq k j)) [
        | inl same_j ↦ sym ((text_eq_iff k i).0 same_i) ∙ (text_eq_iff k j).0 same_j
        | inr other_j ↦ absurd (not_both i j p q x y e same_i c (rw other_j at f) d s)
      ]
      | inr other_i ↦ elim (Bool-cases (text_eq k j)) [
        | inl same_j ↦ absurd (not_both j i q p y x f same_j d (rw other_i at e) c (sym s))
        | inr other_j ↦ m.distinct i j p q x y (rw other_i at e) (rw other_j at f) c d s
      ]
    ]

    pub with-Mirrors : Mirrors deps (with_key objects k (some o)) added
    with-Mirrors = record {
      sound = added-Shows;
      complete = added_complete;
      distinct = added-distinct;
    }

  -- An object that is not converted has no part in the table.
  pub broken-Mirrors :
      (k : Text) (v : Option DnsRecord)
      → IsBroken deps (objects k)
      → IsBroken deps v
      → Mirrors deps (with_key objects k v) table
  broken-Mirrors k v was broken =
      let kept : (j : Text) (b : DnsRecord) (x : Rr)
          → with_key objects k v j ≡ some b
          → to_rr deps b ≡ ok x
          → objects j ≡ some b =
        λ j b x e c. elim (Bool-cases (text_eq k j)) [
          | inl same ↦ absurd (broken b x (rw same at e) c)
          | inr other ↦ rw other at e
        ] in
      let stays : (j : Text) (b : DnsRecord) (x : Rr)
          → objects j ≡ some b
          → to_rr deps b ≡ ok x
          → with_key objects k v j ≡ some b =
        λ j b x e c. elim (Bool-cases (text_eq k j)) [
          | inl same ↦ absurd (was b x (ap objects ((text_eq_iff k j).0 same) ∙ e) c)
          | inr other ↦ rw other e
        ] in
      record {
        sound = λ t x e.
            let s = m.sound t x e in
            record {
              key = s.key;
              object = s.object;
              there = stays s.key s.object x s.there s.converted;
              converted = s.converted;
              text = s.text;
              active = s.active;
            };
        complete = λ j b x e c a. m.complete j b x (kept j b x e c) c a;
        distinct =
            λ i j a b x y e f c d s. m.distinct i j a b x y (kept i a x e c) (kept j b y f d) c d s;
      }
