-- ===== src/Corefile/Words.antt =====
-- Lines, and words between blanks: how a configuration is read.
use k8s_dns_manager.Prelude.{
  ℕ, ap, sym, ◌∙◌, All-map, all, ◌≡◌, ◌≢◌, refl, Bool, true, false, not, ◌||◌, List, [], ◌∷◌, ◌++◌,
  Text, codes, All, arith, ◌==◌, is_empty, if◌then◌else◌, Bool-cases, inl, inr, ==_iff,
}
use k8s_dns_manager.GoStrings.{split_from}
use k8s_dns_manager.Corefile.{broken}
use mathlib.Core.List.{append_assoc, append-nil}

abbrev pub is_blank : ℕ → Bool
is_blank c = c == b' ' || c == b'\t'

unfoldable pub words_from : Text → Text → List Text
words_from word [] = if is_empty word then [] else word ∷ []
words_from word (c ∷ s) =
    let here = words_from [] s in
    let more = words_from (word ++ c ∷ []) s in
    if is_blank c then (if is_empty word then here else word ∷ here) else more

-- The lines behind what was read of the first one.
abbrev pub lines_from : Text → Text → List Text
lines_from = split_from (b'\n')

abbrev pub lines : Text → List Text
lines = lines_from []

abbrev pub words : Text → List Text
words = words_from []

neq_lem : (c d : ℕ) → c ≢ d → (c == d) ≡ false
neq_lem c d h = ground (arith, ==_iff c d)

-- A text of one line, and a word of one line: it is not empty and has no blank.
abbrev pub IsLine : Text → Type 0
IsLine = All λ c. c ≢ b'\n'

abbrev pub IsSolid : Text → Type 0
IsSolid = All λ c. (is_blank c ≡ false) × (c ≢ b'\n')

abbrev pub IsWord : Text → Type 0
IsWord t = (is_empty t ≡ false) × IsSolid t

pub IsSolid-IsLine : (t : Text) → IsSolid t → IsLine t
IsSolid-IsLine t = All-map t (λ c h. h.1)

-- A fixed text is tested.
pub IsLine-test : (t : Text) → all (λ c. not (c == b'\n')) t ≡ true → IsLine t
IsLine-test [] h = tt
IsLine-test (c ∷ t) h = elim (Bool-cases (c == b'\n')) [
  | inl e ↦ cc (rw e at h)
  | inr e ↦ (λ q. ground (arith, ==_iff c (b'\n'), q, e), IsLine-test t (rw e at h))
]

pub IsSolid-test : (t : Text) → all (λ c. not (is_blank c || c == b'\n')) t ≡ true → IsSolid t
IsSolid-test [] h = tt
IsSolid-test (c ∷ t) h = elim (Bool-cases (is_blank c)) [
  | inl blank ↦ cc (rw blank at h)
  | inr solid ↦ elim (Bool-cases (c == b'\n')) [
    | inl e ↦ cc (rw e at rw solid at h)
    | inr e ↦ (
      (solid, λ q. ground (arith, ==_iff c (b'\n'), q, e)),
      IsSolid-test t (rw e at rw solid at h),
    )
  ]
]

-- What is left of the line is read on to its end.
pub lines_from-line :
    (line s t : Text) → IsLine s → lines_from line (s ++ t) ≡ lines_from (line ++ s) t
unfolding split_from
lines_from-line line [] t h = rw (append-nil line) refl
lines_from-line line (c ∷ s) t h = rw (neq_lem c (b'\n') h.0) (
    lines_from-line (line ++ c ∷ []) s t h.1
    ∙ ap (λ l. lines_from l t) (append_assoc line (c ∷ []) s))

pub lines_from-broken :
    (line : Text) (ls : List Text)
    → All IsLine ls
    → lines_from line (broken ls ++ codes "\n") ≡ line ∷ (ls ++ [] ∷ [])
unfolding split_from broken
lines_from-broken line [] h = refl
lines_from-broken line (l ∷ ls) h =
    ap (λ r. line ∷ r)
      (ap (lines_from []) (append_assoc l (broken ls) (codes "\n"))
        ∙ lines_from-line [] l _ h.0
        ∙ lines_from-broken l ls h.1)

-- A word is read to its end, and a blank behind it ends it.
pub words_from-word :
    (word s t : Text) → IsSolid s → words_from word (s ++ t) ≡ words_from (word ++ s) t
unfolding words_from
words_from-word word [] t h = rw (append-nil word) refl
words_from-word word (c ∷ s) t h = rw (h.0.0) (
    words_from-word (word ++ c ∷ []) s t h.1
    ∙ ap (λ l. words_from l t) (append_assoc word (c ∷ []) s))

pub words-word : (w : Text) → IsWord w → words w ≡ w ∷ []
unfolding words_from
words-word w h = ap words (sym (append-nil w)) ∙ words_from-word [] w [] h.1 ∙ rw (h.0) refl

pub words-blank : (w t : Text) → IsWord w → words (w ++ b' ' ∷ t) ≡ w ∷ words t
unfolding words_from
words-blank w t h = words_from-word [] w (b' ' ∷ t) h.1 ∙ rw (h.0) refl
