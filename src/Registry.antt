-- ===== src/Registry.antt =====
-- The registry of providers (pkg/provider/provider.go) and the factories that register there. A
-- factory reads the environment; the vendors' clients are a parameter.
pub mod Vendors
use k8s_dns_manager.Prelude.{
  ◌≡◌, refl, ap, ◌∙◌, sym, Option, none, some, List, [], ◌∷◌, ◌++◌, Text, codes, Error, external,
  Result, ok, err, All, text_eq, text_eq_iff, text_eq_refl, lookup, insert, delete, lookup-insert,
  ◌≢◌, if◌then◌else◌, arith, Bool-cases, inl, inr, ◌⊎◌,
}
use k8s_dns_manager.Errors.{error_text}

-- The variables of the environment, "" for one that is not set.
abbrev pub Env : Type 0
Env = Text → Text

-- `providers`
abbrev pub Factories : Type 0 → Type 0
Factories P = List (Text × (Env → Result P))

-- `fmt.Errorf("%s: %w", name, err)`
abbrev named_error : Text → Error → Error
named_error name e = external (name ++ (codes ": " ++ error_text e))

module _ {P : Type 0} where
  unfoldable pub register : Text → (Env → Result P) → Factories P → Factories P
  register name factory providers = insert name factory providers

  built : Text → Result P → Result P
  built name (err e) = err (named_error name e)
  built name (ok p) = ok p

  made_by : Text → Env → Option (Env → Result P) → Result P
  made_by name env none = err (named_error name (external (codes "provider not found")))
  made_by name env (some factory) = built name (factory env)

  unfoldable pub new : Factories P → Env → Text → Result P
  unfolding made_by built
  new providers env name = made_by name env (lookup name providers)

  -- Every provider that a factory makes is of the name that the factory is registered under.
  abbrev pub AreNamed : (P → Text) → Factories P → Type 0
  AreNamed name_of = All (λ kf. (env : Env) (p : P) → kf.1 env ≡ ok p → name_of p ≡ kf.0)

  delete-AreNamed :
      (name_of : P → Text) (k : Text) (t : Factories P)
      → AreNamed name_of t
      → AreNamed name_of (delete k t)
  unfolding delete
  delete-AreNamed name_of k [] h = tt
  delete-AreNamed name_of k ((n, f) ∷ t) h = elim (Bool-cases (text_eq n k)) [
    | inl same ↦ rw same (delete-AreNamed name_of k t h.1)
    | inr other ↦ rw other (h.0, delete-AreNamed name_of k t h.1)
  ]

  pub register-AreNamed :
      (name_of : P → Text) (n : Text) (f : Env → Result P) (t : Factories P)
      → ((env : Env) (p : P) → f env ≡ ok p → name_of p ≡ n)
      → AreNamed name_of t
      → AreNamed name_of (register n f t)
  unfolding register insert
  register-AreNamed name_of n f t named h = (named, delete-AreNamed name_of n t h)

  built-ok : (name : Text) (r : Result P) (p : P) → built name r ≡ ok p → r ≡ ok p
  unfolding built
  built-ok name (ok q) p e = e
  built-ok name (err x) p e = cc

  pub new-AreNamed :
      (name_of : P → Text) (t : Factories P) (env : Env) (n : Text) (p : P)
      → AreNamed name_of t
      → new t env n ≡ ok p
      → name_of p ≡ n
  unfolding new lookup
  new-AreNamed name_of [] env n p h e = cc
  new-AreNamed name_of ((k, f) ∷ t) env n p h e = elim (Bool-cases (text_eq k n)) [
    | inl same ↦ h.0 env p (built-ok n (f env) p (rw same at e)) ∙ (text_eq_iff k n).0 same
    | inr other ↦ new-AreNamed name_of t env n p h.1 (rw other at e)
  ]

  -- After a registration, New calls the registered factory for its name, and what it did before
  -- for every other name.
  pub new-register :
      (n m : Text) (f : Env → Result P) (t : Factories P) (env : Env)
      → ((m ≡ n) × (new (register n f t) env m ≡ new ((n, f) ∷ []) env m))
        ⊎ ((m ≢ n) × (new (register n f t) env m ≡ new t env m))
  unfolding new register
  new-register n m f t env = elim (Bool-cases (text_eq n m)) [
    | inl same ↦ inl (
      sym ((text_eq_iff n m).0 same),
      rw (lookup-insert n m f t, same) (unfold lookup in rw same refl),
    )
    | inr other ↦ inr (λ e. ground (arith, text_eq_iff n m), rw (lookup-insert n m f t, other) refl)
  ]
