-- ===== src/Prelude/Results.antt =====
-- Go's `(value, error)` results. An error is one of the messages that the program builds, or one
-- that a library handed it.
use Prim.Native.Nat.{ℕ}
use mathlib.Core.Path.{◌≡◌, refl}
use mathlib.Core.Logic.{◌⊎◌, inl, inr}
use mathlib.Core.List.{List}

pub data Error : Type 0 where
  external : List ℕ → Error
  not_found : List ℕ → Error
  invalid_ip : List ℕ → Error
  empty_txt_record : Error
  srv_target_required : Error
  cname_target_required : Error
  unknown_record_type : Error
  invalid_record : List ℕ → Error
  malformed_name : List ℕ → Error
  record_already_exists : List ℕ → Error
  expected_one_record : ℕ → Error
  not_a_record : List ℕ → Error
  record_not_found : List ℕ → Error
  record_conversion : Error → Error

pub data Result {ℓ} (A : Type ℓ) : Type ℓ where
  ok : A → Result A
  err : Error → Result A

infixl 5 ◌>>=◌
abbrev pub ◌>>=◌ {ℓ κ} : {A : Type ℓ} {B : Type κ} → Result A → (A → Result B) → Result B
ok a >>= f = f a
err e >>= f = err e

pub Result-cases {ℓ} :
    {A : Type ℓ} (r : Result A) → ((a : A) × (r ≡ ok a)) ⊎ ((e : Error) × (r ≡ err e))
Result-cases (ok a) = inl (a, refl)
Result-cases (err e) = inr (e, refl)
