-- ===== src/GoStrings.antt =====
-- The functions of Go's `strings` and `fmt` packages that the program calls, on byte strings.
-- `to_lower` lowers ASCII letters, which is what Go does on an ASCII string.
pub mod Laws
pub mod ParseUint
use k8s_dns_manager.Prelude.{
  ℕ, zero, suc, ◌+◌, ◌-◌, ◌/◌, ◌%◌, Bool, true, false, ◌&&◌, ◌||◌, Option, none, some, List, [],
  ◌∷◌, ◌++◌, reverse, Text, codes, leb, ltb, ◌==◌, if◌then◌else◌, map, text_eq, length,
}

-- strip_prefix p s is the rest of s behind p
unfoldable pub strip_prefix : Text → Text → Option Text
strip_prefix [] s = some s
strip_prefix (_ ∷ _) [] = none
strip_prefix (x ∷ p) (y ∷ s) = if x == y then strip_prefix p s else none

-- strings.HasSuffix
unfoldable pub has_suffix : Text → Text → Bool
unfolding text_eq
has_suffix [] t = text_eq [] t
has_suffix (x ∷ s) t = text_eq (x ∷ s) t || has_suffix s t

-- strings.TrimSuffix
unfoldable pub trim_suffix : Text → Text → Text
unfolding text_eq
trim_suffix [] t = []
trim_suffix (x ∷ s) t = if text_eq (x ∷ s) t then [] else x ∷ trim_suffix s t

-- strings.ToLower
unfoldable pub lower_byte : ℕ → ℕ
lower_byte c = if leb b'A' c && leb c b'Z' then c + 32 else c

unfoldable pub to_lower : Text → Text
unfolding lower_byte
to_lower = map lower_byte

-- strings.Replace(s, old, new, -1) for an `old` of one byte
unfoldable pub replace_byte : Text → ℕ → Text → Text
replace_byte [] old new = []
replace_byte (c ∷ s) old new = (if c == old then new else c ∷ []) ++ replace_byte s old new

-- strings.Replace(s, old, new, -1) for a non-empty `old`; the first argument counts the bytes of
-- the occurrence being replaced that are still to be skipped
replace_from : ℕ → Text → Text → Text → Text
replace_from skip [] old new = []
replace_from (suc skip) (c ∷ s) old new = replace_from skip s old new
replace_from zero (c ∷ s) old new = elim (strip_prefix old (c ∷ s)) [
  | none ↦ c ∷ replace_from zero s old new
  | some _ ↦ new ++ replace_from (length old - 1) s old new
]

unfoldable pub replace : Text → Text → Text → Text
unfolding replace_from strip_prefix
replace s old new = replace_from zero s old new

-- strings.TrimLeft(s, cutset) and strings.TrimRight, by a test for the cutset
unfoldable pub trim_left : (ℕ → Bool) → Text → Text
trim_left cut [] = []
trim_left cut (c ∷ s) = if cut c then trim_left cut s else c ∷ s

unfoldable pub trim_right : (ℕ → Bool) → Text → Text
unfolding trim_left
trim_right cut s = reverse (trim_left cut (reverse s))

-- the ASCII white space of strings.TrimSpace
abbrev pub is_space : ℕ → Bool
is_space c = c == 32 || (leb 9 c && leb c 13)

unfoldable pub trim_space : Text → Text
unfolding trim_left trim_right
trim_space s = trim_right is_space (trim_left is_space s)

-- strings.Contains
unfoldable pub contains : Text → Text → Bool
unfolding strip_prefix
contains [] t = text_eq [] t
contains (x ∷ s) t = elim (strip_prefix t (x ∷ s)) [ none ↦ contains s t | some _ ↦ true ]

-- strings.Join
unfoldable pub join : List Text → Text → Text
join [] sep = []
join (s ∷ []) sep = s
join (s ∷ t ∷ ts) sep = s ++ (sep ++ join (t ∷ ts) sep)

-- strings.Split(s, sep) for a `sep` of one byte; `part` is what was read of the first part.
unfoldable pub split_from : ℕ → Text → Text → List Text
split_from sep part [] = part ∷ []
split_from sep part (c ∷ s) =
    let here = split_from sep [] s in
    let more = split_from sep (part ++ c ∷ []) s in if c == sep then part ∷ here else more

-- %d of a non-negative number; the first argument bounds the digits
unfoldable pub decimal_fuel : ℕ → ℕ → Text → Text
decimal_fuel zero n acc = acc
decimal_fuel (suc f) n acc =
    let digit = b'0' + n % 10 in
    let more = decimal_fuel f (n / 10) (digit ∷ acc) in if ltb n 10 then digit ∷ acc else more

unfoldable pub decimal : ℕ → Text
unfolding decimal_fuel
decimal n = decimal_fuel (suc n) n []
