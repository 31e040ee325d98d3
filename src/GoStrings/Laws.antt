-- ===== src/GoStrings/Laws.antt =====
-- Laws of the byte string functions that the components' proofs rest on.
use mathlib.Core.List.{append_assoc}
use k8s_dns_manager.Prelude.{
  ℕ, suc, ◌+◌, ◌/◌, ◌%◌, ◌≤◌, ◌≡◌, refl, sym, true, false, [], ◌∷◌, ◌++◌, arith, Text, text_eq_refl,
  ◌==◌, if◌then◌else◌, ltb, All, is_empty, Bool-cases, inl, inr,
}
use k8s_dns_manager.GoStrings.{
  has_suffix, lower_byte, to_lower, replace_byte, decimal, decimal_fuel,
}

pub has_suffix_refl : (t : Text) → has_suffix t t ≡ true
unfolding has_suffix
has_suffix_refl [] = refl
has_suffix_refl (x ∷ t) = ground (arith, text_eq_refl (x ∷ t))

pub has_suffix-append : (s t : Text) → has_suffix (s ++ t) t ≡ true
unfolding has_suffix
has_suffix-append [] t = has_suffix_refl t
has_suffix-append (x ∷ s) t = ground (arith, has_suffix-append s t)

pub lower_byte_idem : (c : ℕ) → lower_byte (lower_byte c) ≡ lower_byte c
unfolding lower_byte
lower_byte_idem c = ground arith

pub to_lower_idem : (s : Text) → to_lower (to_lower s) ≡ to_lower s
unfolding to_lower
to_lower_idem [] = refl
to_lower_idem (c ∷ s) = cc (lower_byte_idem c, to_lower_idem s)

pub to_lower-append : (s t : Text) → to_lower (s ++ t) ≡ to_lower s ++ to_lower t
unfolding to_lower
to_lower-append [] t = refl
to_lower-append (c ∷ s) t = cc (to_lower-append s t)

pub replace_byte-append :
    (s t : Text) (c : ℕ) (by : Text)
    → replace_byte (s ++ t) c by ≡ replace_byte s c by ++ replace_byte t c by
unfolding replace_byte
replace_byte-append [] t c by = refl
replace_byte-append (x ∷ s) t c by =
    rw (replace_byte-append s t c by) (sym (append_assoc (if x == c then by else x ∷ []) _ _))

-- What %d prints is digits.
abbrev pub IsDigit : ℕ → Type 0
IsDigit c = (b'0' ≤ c) × (c ≤ b'9')

IsDigit-next : (n : ℕ) → IsDigit (b'0' + n % 10)
IsDigit-next n = (omega arith, omega arith)

decimal_fuel-IsDigit : (f n : ℕ) (acc : Text) → All IsDigit acc → All IsDigit (decimal_fuel f n acc)
unfolding decimal_fuel
decimal_fuel-IsDigit ℕ.zero n acc h = h
decimal_fuel-IsDigit (suc f) n acc h = elim (Bool-cases (ltb n 10)) [
  | inl small ↦ rw small (IsDigit-next n, h)
  | inr large ↦ rw large (decimal_fuel-IsDigit f (n / 10) _ (IsDigit-next n, h))
]

pub decimal-IsDigit : (n : ℕ) → All IsDigit (decimal n)
unfolding decimal
decimal-IsDigit n = decimal_fuel-IsDigit (suc n) n [] tt

decimal_fuel-filled : (f n c : ℕ) (acc : Text) → is_empty (decimal_fuel f n (c ∷ acc)) ≡ false
unfolding decimal_fuel
decimal_fuel-filled ℕ.zero n c acc = refl
decimal_fuel-filled (suc f) n c acc = elim (Bool-cases (ltb n 10)) [
  | inl small ↦ rw small refl
  | inr large ↦ rw large (decimal_fuel-filled f (n / 10) _ _)
]

pub decimal-filled : (n : ℕ) → is_empty (decimal n) ≡ false
unfolding decimal decimal_fuel
decimal-filled n = elim (Bool-cases (ltb n 10)) [
  | inl small ↦ rw small refl
  | inr large ↦ rw large (decimal_fuel-filled n (n / 10) _ _)
]
