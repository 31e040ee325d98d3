-- ===== src/Controllers/Finalizers.antt =====
-- `hasFinalizer` and `removeFinalizer` of controllers/dnsrecord_controller.go.
use k8s_dns_manager.Prelude.{
  ◌≡◌, refl, ◌≢◌, Bool, true, false, ◌||◌, Option, none, some, List, [], ◌∷◌, ◌++◌, Text, codes,
  length, text_eq, text_eq_iff, arith, ◌==◌, if◌then◌else◌, ◌⊎◌, inr,
}

abbrev pub record_finalizer : Text
record_finalizer = codes "dns.linka.cloud/finalizer"

unfoldable pub has_finalizer : List Text → Bool
has_finalizer [] = false
has_finalizer (v ∷ fins) = text_eq v record_finalizer || has_finalizer fins

-- The loop at index i, over `Finalizers[i:]`. The slice that it stores is
-- `append(Finalizers[i:], Finalizers[i+1:]...)`.
remove_from : List Text → List Text → Option (List Text)
remove_from whole [] = none
remove_from whole (v ∷ fins) =
    if text_eq v record_finalizer
    then some (if length whole == 1 then [] else (v ∷ fins) ++ fins)
    else remove_from whole fins

-- The finalizers after a removal, or `none` for the result false.
unfoldable pub remove_finalizer : List Text → Option (List Text)
unfolding remove_from
remove_finalizer fins = remove_from fins fins

remove_from-ne-none :
    (whole fins : List Text) → has_finalizer fins ≡ true → remove_from whole fins ≢ none
unfolding has_finalizer remove_from
remove_from-ne-none whole [] h = cc
remove_from-ne-none whole (v ∷ fins) h = ground (arith, remove_from-ne-none whole fins)

remove_from-keeps :
    (whole fins rest : List Text)
    → length whole ≢ 1
    → remove_from whole fins ≡ some rest
    → has_finalizer rest ≡ true
unfolding has_finalizer remove_from
remove_from-keeps whole [] rest h e = cc
remove_from-keeps whole (v ∷ fins) rest h e = ground (arith, remove_from-keeps whole fins rest)

-- From a list that holds the record finalizer and nothing else, the removal leaves no finalizer.
-- From a list of another length it leaves a list that still holds the record finalizer, if it
-- changes the list at all.
pub remove_finalizer_lem :
    (fins rest : List Text)
    → remove_finalizer fins ≡ some rest
    → ((fins ≡ record_finalizer ∷ []) × (rest ≡ []))
      ⊎ ((length fins ≢ 1) × (has_finalizer rest ≡ true))
unfolding remove_finalizer
remove_finalizer_lem [] rest e = cc
remove_finalizer_lem (v ∷ []) rest e = ground (arith, text_eq_iff v record_finalizer)
remove_finalizer_lem (v ∷ u ∷ fins) rest e =
    inr (ground arith, remove_from-keeps (v ∷ u ∷ fins) (v ∷ u ∷ fins) rest (ground arith) e)

remove_from-eq-none :
    (whole fins : List Text) → remove_from whole fins ≡ none → has_finalizer fins ≡ false
unfolding has_finalizer remove_from
remove_from-eq-none whole [] e = refl
remove_from-eq-none whole (v ∷ fins) e = ground (arith, remove_from-eq-none whole fins)

pub remove_finalizer-eq-none :
    (fins : List Text) → remove_finalizer fins ≡ none → has_finalizer fins ≡ false
unfolding remove_finalizer
remove_finalizer-eq-none fins e = remove_from-eq-none fins fins e
