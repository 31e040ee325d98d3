-- ===== src/GoStrings/ParseUint.antt =====
-- strconv.ParseUint(s, 10, 32), and the decimal numerals of fmt's %d.
use k8s_dns_manager.Prelude.{
  ℕ, zero, suc, ◌+◌, ◌-◌, ◌*◌, ◌/◌, ◌%◌, ◌^◌, ◌<◌, ◌≡◌, refl, ap, ◌∙◌, ◌≢◌, true, ◌&&◌, Option,
  none, some, [], ◌∷◌, Text, leb, ltb, if◌then◌else◌, arith, inl, inr, Bool-cases,
}
use k8s_dns_manager.GoStrings.{decimal, decimal_fuel}

-- The digits of `s`, behind those read so far. The bound on the result is tested at the end: a
-- numeral whose value exceeds it is refused wherever the source's loop notices that.
digits : ℕ → Text → Option ℕ
digits n [] = some n
digits n (c ∷ s) = if leb b'0' c && leb c b'9' then digits (n * 10 + (c - b'0')) s else none

fits : Option ℕ → Option ℕ
fits none = none
fits (some n) = if ltb n (2 ^ 32) then some n else none

unfoldable pub parse_uint32 : Text → Option ℕ
unfolding digits fits
parse_uint32 [] = none
parse_uint32 (c ∷ s) = fits (digits 0 (c ∷ s))

is_digit_lem : (k : ℕ) → k < 10 → (leb b'0' (b'0' + k) && leb (b'0' + k) b'9') ≡ true
is_digit_lem k h = ground arith

digits-digit :
    (m k : ℕ) (acc : Text) → k < 10 → digits m ((b'0' + k) ∷ acc) ≡ digits (m * 10 + k) acc
unfolding digits
digits-digit m k acc h = rw (is_digit_lem k h) (ap (λ x. digits (m * 10 + x) acc) (omega arith))

digits-decimal_fuel :
    (f n : ℕ) (acc : Text) → n < f → digits 0 (decimal_fuel f n acc) ≡ digits n acc
unfolding decimal_fuel
digits-decimal_fuel zero n acc h = elim h [ ]
digits-decimal_fuel (suc f) n acc h = elim (Bool-cases (ltb n 10)) [
  | inl small ↦
      rw small (digits-digit 0 (n % 10) acc (omega arith) ∙ ap (λ x. digits x acc) (ground arith))
  | inr big ↦ rw big (
      digits-decimal_fuel f (n / 10) ((b'0' + n % 10) ∷ acc) (ground arith)
      ∙ (digits-digit (n / 10) (n % 10) acc (omega arith) ∙ ap (λ x. digits x acc) (omega arith)))
]

digits-decimal : (n : ℕ) → digits 0 (decimal n) ≡ some n
unfolding decimal digits
digits-decimal n = digits-decimal_fuel (suc n) n [] (omega arith)

-- A decimal numeral determines its number.
pub decimal_inj : (m n : ℕ) → decimal m ≡ decimal n → m ≡ n
decimal_inj m n e = cc (digits-decimal m, digits-decimal n, ap (digits 0) e)

decimal_fuel-ne-nil : (f n c : ℕ) (acc : Text) → decimal_fuel f n (c ∷ acc) ≢ []
unfolding decimal_fuel
decimal_fuel-ne-nil zero n c acc = λ e. cc
decimal_fuel-ne-nil (suc f) n c acc =
    λ e. ground (arith, decimal_fuel-ne-nil f (n / 10) (b'0' + n % 10) (c ∷ acc))

decimal-ne-nil : (n : ℕ) → decimal n ≢ []
unfolding decimal
decimal-ne-nil n = λ e. ground (arith, decimal_fuel-ne-nil n (n / 10) (b'0' + n % 10) [])

parse_uint32-of_ne_nil : (s : Text) → s ≢ [] → parse_uint32 s ≡ fits (digits 0 s)
unfolding parse_uint32
parse_uint32-of_ne_nil [] h = absurd (h refl)
parse_uint32-of_ne_nil (c ∷ s) h = refl

-- ParseUint reads back the numeral that %d prints, for every number of 32 bits, and refuses it for
-- every larger one.
pub parse_uint32-decimal :
    (n : ℕ) → parse_uint32 (decimal n) ≡ (if ltb n (2 ^ 32) then some n else none)
unfolding fits
parse_uint32-decimal n =
    parse_uint32-of_ne_nil (decimal n) (decimal-ne-nil n) ∙ ap fits (digits-decimal n)
