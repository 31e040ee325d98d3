-- ===== src/Controllers/Children/Quiet.antt =====
-- diffRecords of controllers/child_records.go where nothing is left to do.
use k8s_dns_manager.Prelude.{
  ◌≡◌, refl, sym, subst, true, false, Option, none, some, List, [], ◌∷◌, Text, text_eq, text_eq_iff,
  text_eq_refl, arith, is_some, Option-cases, inl, inr, All,
}
use k8s_dns_manager.Api.{DnsRecord}
use k8s_dns_manager.Controllers.Children.{
  find, deep_equal, spec_discrete, annotations_discrete, owners_discrete, is_changed, all_added,
  all_updated, all_deleted, diff_records,
}
use k8s_dns_manager.Controllers.Children.Differences.{SameContent, Matches, HasUniqueNames}

deep_equal-eq {ℓ} : {A : Type ℓ} (d : Discrete A) (a b : A) → a ≡ b → deep_equal d a b ≡ true
deep_equal-eq d a b p = elim (d a b) as (λ e. (elim e [ yes _ ↦ true | no _ ↦ false ]) ≡ true) [
  | yes _ ↦ refl
  | no q ↦ absurd (q p)
]

is_changed-SameContent : (v vv : DnsRecord) → SameContent vv v → is_changed v vv ≡ false
unfolding is_changed
is_changed-SameContent v vv s = rw (
  deep_equal-eq spec_discrete v.spec vv.spec (sym s.spec),
  deep_equal-eq annotations_discrete v.metadata.annotations vv.metadata.annotations
      (sym s.annotations),
  deep_equal-eq owners_discrete v.metadata.owner_references vv.metadata.owner_references
      (sym s.owners),
)

-- What a list of wanted records finds, name by name.
abbrev Finds : List DnsRecord → List DnsRecord → Type 0
Finds want vs = All (λ v. find v.metadata.name want ≡ some v) vs

Matches-some :
    (o : Option DnsRecord) (v : DnsRecord)
    → Matches o (some v)
    → (vv : DnsRecord) × (o ≡ some vv) × SameContent vv v
Matches-some none v m = absurd m
Matches-some (some vv) v m = (vv, refl, m)

module _ (got want : List DnsRecord) (m : (n : Text) → Matches (find n got) (find n want)) where
  matched :
      (v : DnsRecord)
      → find v.metadata.name want ≡ some v
      → (vv : DnsRecord) × (find v.metadata.name got ≡ some vv) × SameContent vv v
  matched v f =
      Matches-some (find v.metadata.name got) v
        (subst (λ o. Matches (find v.metadata.name got) o) f (m v.metadata.name))

  all_added-nil : (vs : List DnsRecord) → Finds want vs → all_added got vs ≡ []
  unfolding all_added
  all_added-nil [] h = refl
  all_added-nil (v ∷ vs) h = let (vv, f, _) = matched v h.0 in rw f (all_added-nil vs h.1)

  all_updated-nil : (vs : List DnsRecord) → Finds want vs → all_updated got vs ≡ []
  unfolding all_updated
  all_updated-nil [] h = refl
  all_updated-nil (v ∷ vs) h =
      let (vv, f, s) = matched v h.0 in
      rw (f, is_changed-SameContent v vv s) (all_updated-nil vs h.1)

  found : (n : Text) → is_some (find n got) ≡ true → is_some (find n want) ≡ true
  found n h = elim (Option-cases (find n want)) [
    | inl missing ↦ elim (Option-cases (find n got)) [
      | inl none_got ↦ ground arith
      | inr (vv, got_it) ↦
          absurd
            (subst (λ o. Matches o none) got_it (subst (λ o. Matches (find n got) o) missing (m n)))
    ]
    | inr (v, there) ↦ rw there refl
  ]

  all_deleted-nil :
      (vs : List DnsRecord)
      → All (λ v. is_some (find v.metadata.name got) ≡ true) vs
      → all_deleted want vs ≡ []
  unfolding all_deleted
  all_deleted-nil [] h = refl
  all_deleted-nil (v ∷ vs) h = elim (Option-cases (find v.metadata.name want)) [
    | inl missing ↦ ground (arith, found v.metadata.name h.0)
    | inr (vv, there) ↦ rw there (all_deleted-nil vs h.1)
  ]

-- A record in a list finds a record of its name there.
find-more :
    (x : DnsRecord) (rs vs : List DnsRecord)
    → All (λ v. is_some (find v.metadata.name rs) ≡ true) vs
    → All (λ v. is_some (find v.metadata.name (x ∷ rs)) ≡ true) vs
unfolding find
find-more x rs [] h = tt
find-more x rs (v ∷ vs) h = (ground arith, find-more x rs vs h.1)

find-member : (rs : List DnsRecord) → All (λ v. is_some (find v.metadata.name rs) ≡ true) rs
unfolding find
find-member [] = tt
find-member (x ∷ rs) = (rw (text_eq_refl x.metadata.name) refl, find-more x rs rs (find-member rs))

-- In a list of distinct names, a record finds itself.
others_apart :
    (n : Text) (vs : List DnsRecord)
    → find n vs ≡ none
    → All (λ v. text_eq v.metadata.name n ≡ false) vs
unfolding find
others_apart n [] h = tt
others_apart n (v ∷ vs) h = (
  ground (arith, text_eq_iff n v.metadata.name, text_eq_iff v.metadata.name n),
  others_apart n vs (ground arith),
)

cons-Finds :
    (x : DnsRecord) (rs vs : List DnsRecord)
    → All (λ v. text_eq v.metadata.name x.metadata.name ≡ false) vs
    → Finds rs vs
    → Finds (x ∷ rs) vs
unfolding find
cons-Finds x rs [] h f = tt
cons-Finds x rs (v ∷ vs) h f = (rw h.0 f.0, cons-Finds x rs vs h.1 f.1)

HasUniqueNames-Finds : (want : List DnsRecord) → HasUniqueNames want → Finds want want
unfolding find
HasUniqueNames-Finds [] u = tt
HasUniqueNames-Finds (v ∷ vs) u = (
  rw (text_eq_refl v.metadata.name) refl,
  cons-Finds v vs vs (others_apart v.metadata.name vs u.0) (HasUniqueNames-Finds vs u.1),
)

-- If for each name a record is there exactly if one is wanted, with the wanted specification,
-- annotations and owners, and the wanted records have distinct names, diffRecords asks for
-- nothing.
pub diff_records-nothing :
    (got want : List DnsRecord)
    → HasUniqueNames want
    → ((n : Text) → Matches (find n got) (find n want))
    → diff_records got want ≡ record { add = []; update = []; del = [] }
unfolding diff_records
diff_records-nothing got want u m =
    let self = HasUniqueNames-Finds want u in
    rw (
      all_added-nil got want m want self,
      all_updated-nil got want m want self,
      all_deleted-nil got want m got (find-member got),
    )
