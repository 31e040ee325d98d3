-- ===== src/Controllers/Children/Differences.antt =====
-- What diffRecords of controllers/child_records.go leads to, name by name.
use k8s_dns_manager.Prelude.{
  ◌≡◌, refl, sym, ap, true, false, Option, none, some, List, [], ◌∷◌, Text, text_eq, text_eq_iff,
  if◌then◌else◌, arith, is_some, Bool-cases, inl, inr,
}
use k8s_dns_manager.Api.{DnsRecord}
use k8s_dns_manager.Controllers.Children.{
  Diff, find, deep_equal, spec_discrete, annotations_discrete, owners_discrete, is_changed,
  with_version, all_added, all_updated, all_deleted, diff_records,
}

-- The part of a record that the controller looks after.
pub record SameContent (r v : DnsRecord) : Type 0 where
  pub spec : r.spec ≡ v.spec
  pub annotations : r.metadata.annotations ≡ v.metadata.annotations
  pub owners : r.metadata.owner_references ≡ v.metadata.owner_references

-- Two names' records are both missing, or have the same content.
abbrev pub Matches : Option DnsRecord → Option DnsRecord → Type 0
Matches none none = Unit
Matches (some r) (some v) = SameContent r v
Matches _ _ = ⊥

-- The record of a name once the diff has been carried out: what it finds among the deleted, the
-- added and the updated records, and before.
unfoldable pub settle :
    Option DnsRecord → Option DnsRecord → Option DnsRecord → Option DnsRecord → Option DnsRecord
settle (some _) add update got = none
settle none (some v) update got = some v
settle none none (some v) got = some v
settle none none none got = got

abbrev pub after : Diff → List DnsRecord → Text → Option DnsRecord
after d got n = settle (find n d.del) (find n d.add) (find n d.update) (find n got)

deep_equal-true {ℓ} : {A : Type ℓ} (d : Discrete A) (a b : A) → deep_equal d a b ≡ true → a ≡ b
deep_equal-true d a b h =
    elim (d a b) as (λ e. (elim e [ yes _ ↦ true | no _ ↦ false ]) ≡ true → a ≡ b) [
      | yes p ↦ λ _. p
      | no _ ↦ λ e. cc
    ]
      h

not_changed : (v vv : DnsRecord) → is_changed v vv ≡ false → SameContent vv v
unfolding is_changed
not_changed v vv h = record {
  spec = sym (deep_equal-true spec_discrete _ _ (ground arith));
  annotations = sym (deep_equal-true annotations_discrete _ _ (ground arith));
  owners = sym (deep_equal-true owners_discrete _ _ (ground arith));
}

find-name :
    (n : Text) (rs : List DnsRecord) (r : DnsRecord) → find n rs ≡ some r → n ≡ r.metadata.name
unfolding find
find-name n [] r h = cc
find-name n (x ∷ rs) r h = ground (arith, find-name n rs r, text_eq_iff n x.metadata.name)

-- What a name finds in each of the three lists.
find-all_added :
    (n : Text) (got want : List DnsRecord)
    → find n (all_added got want) ≡ (if is_some (find n got) then none else find n want)
unfolding find all_added
find-all_added n got [] = ground arith
find-all_added n got (v ∷ want) =
    ground (arith, find-all_added n got want, text_eq_iff n v.metadata.name)

find-all_deleted :
    (n : Text) (want got : List DnsRecord)
    → find n (all_deleted want got) ≡ (if is_some (find n want) then none else find n got)
unfolding find all_deleted
find-all_deleted n want [] = ground arith
find-all_deleted n want (v ∷ got) =
    ground (arith, find-all_deleted n want got, text_eq_iff n v.metadata.name)

-- No two records have one name.
abbrev pub HasUniqueNames : List DnsRecord → Type 0
HasUniqueNames [] = Unit
HasUniqueNames (v ∷ vs) = (find v.metadata.name vs ≡ none) × HasUniqueNames vs

abbrev update_of : Option DnsRecord → Option DnsRecord → Option DnsRecord
update_of none _ = none
update_of (some v) none = none
update_of (some v) (some vv) = if is_changed v vv then some (with_version v vv) else none

find-all_updated :
    (n : Text) (got want : List DnsRecord)
    → HasUniqueNames want
    → find n (all_updated got want) ≡ update_of (find n want) (find n got)
unfolding find all_updated
find-all_updated n got [] h = refl
find-all_updated n got (v ∷ want) h = elim (Bool-cases (text_eq n v.metadata.name)) [
  | inl same ↦
      let e = (text_eq_iff _ _).0 same in
      ground
        (arith, find-all_updated n got want h.1, ap (λ k. find k got) e, ap (λ k. find k want) e)
  | inr other ↦ ground (arith, find-all_updated n got want h.1)
]

settle-Matches :
    (want got : Option DnsRecord)
    → Matches
        (settle
          (if is_some want then none else got)
          (if is_some got then none else want)
          (update_of want got)
          got)
        want
unfolding settle
settle-Matches none none = tt
settle-Matches none (some vv) = tt
settle-Matches (some v) none = record { spec = refl; annotations = refl; owners = refl }
settle-Matches (some v) (some vv) = elim (Bool-cases (is_changed v vv)) [
  | inl new ↦ rw new (record { spec = refl; annotations = refl; owners = refl })
  | inr same ↦ rw same (not_changed v vv same)
]

-- With wanted records of distinct names, carrying out the three lists of diffRecords leaves, for
-- each name, a record exactly if one is wanted, with the wanted specification, annotations and
-- owners.
pub diff_records-Matches :
    (got want : List DnsRecord) (n : Text)
    → HasUniqueNames want
    → Matches (after (diff_records got want) got n) (find n want)
diff_records-Matches got want n h =
    unfold diff_records in
    rw (find-all_deleted n want got, find-all_added n got want, find-all_updated n got want h)
      (settle-Matches (find n want) (find n got))
