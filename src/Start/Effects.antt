-- ===== src/Start/Effects.antt =====
-- The effects of a launch that starts the manager (cmd/k8s-dns/main.go).
use k8s_dns_manager.Prelude.{
  ◌≡◌, refl, Bool, true, false, ◌&&◌, Option, none, some, List, [], ◌∷◌, ◌++◌, Text, codes, Error,
  Result, ok, err, text_eq, if◌then◌else◌, Bool-cases, Option-cases, inl, inr,
}
use k8s_dns_manager.Deps.{Deps}
use k8s_dns_manager.Registry.{Env}
use k8s_dns_manager.Registry.Vendors.{Built, Vendors, name_of, new-named}
use k8s_dns_manager.Corefile.{render, line_if}
use k8s_dns_manager.Start.{
  Flags, Reconciler, Effect, controller, webhook, dns_server, start, Manager, Launch, set_up,
  provider_name, runs_dns, dns_config, external_server, run_manager, with_dns, with_webhook,
  with_controller, with_provider, with_manager, launch,
}

-- The effects of a launch that ends with the manager's start.
Starts : Launch → List Effect → Reconciler → List Effect → Type 0
Starts l log r before = (l log).1 ≡ start r ∷ before

abbrev is_start : Effect → Bool
is_start (start _) = true
is_start _ = false

set_up-Starts :
    (e : Option Error) (effect : Effect) (message : Text) (rest : Launch) (log : List Effect)
    (r : Reconciler) (before : List Effect)
    → is_start effect ≡ false
    → Starts (set_up e effect message rest) log r before
    → Starts rest (effect ∷ log) r before
unfolding Starts set_up
set_up-Starts none effect message rest log r before q h = h
set_up-Starts (some x) effect message rest log r before q h = cc

run_lem :
    (e : Option Error) (s : Reconciler) (message : Text) (log : List Effect) (r : Reconciler)
    (before : List Effect)
    → Starts (set_up e (start s) message λ l. (none, l)) log r before
    → (r ≡ s) × (before ≡ log)
unfolding Starts set_up
run_lem none s message log r before h = (cc, cc)
run_lem (some x) s message log r before h = (cc, cc)

-- The effects between the controllers' and the manager's start, the last one first.
unfoldable pub settled : Deps → Flags → List Effect → List Effect
settled deps f log =
    line_if (runs_dns f) (dns_server (render (dns_config deps f)))
    ++ (line_if f.enable_webhook webhook ++ log)

-- The server that answers the verifications.
unfoldable pub verifier : Deps → Flags → Text
verifier deps f = if runs_dns f then codes "127.0.0.1:53" else external_server deps f

-- The controllers, the last one first.
abbrev pub controllers : List Effect
controllers =
    controller (codes "Service")
    ∷ controller (codes "Ingress")
    ∷ controller (codes "DNSRecord")
    ∷ []

module _ (deps : Deps) (vendors : Vendors) (m : Manager) (env : Env) (f : Flags) where
  with_dns-Starts :
      (s : Reconciler) (log : List Effect) (r : Reconciler) (before : List Effect)
      → Starts (with_dns deps vendors m env f s) log r before
      → (r.provider ≡ s.provider)
        × (r.dns_verification_server
            ≡ (if runs_dns f then codes "127.0.0.1:53" else s.dns_verification_server))
        × (before ≡ line_if (runs_dns f) (dns_server (render (dns_config deps f))) ++ log)
  unfolding with_dns run_manager Starts
  with_dns-Starts s log r before h = elim (Bool-cases (runs_dns f)) [
    | inl runs ↦
        rw runs
          (let (e, q) = run_lem m.run _ _ _ r before (rw runs at h) in (rw e refl, rw e refl, q))
    | inr idle ↦
        rw idle
          (let (e, q) = run_lem m.run _ _ _ r before (rw idle at h) in (rw e refl, rw e refl, q))
  ]

  with_webhook-Starts :
      (s : Reconciler) (log : List Effect) (r : Reconciler) (before : List Effect)
      → Starts (with_webhook deps vendors m env f s) log r before
      → Starts (with_dns deps vendors m env f s) (line_if f.enable_webhook webhook ++ log) r before
  unfolding with_webhook Starts
  with_webhook-Starts s log r before h = elim (Bool-cases f.enable_webhook) [
    | inl on ↦ rw on (set_up-Starts m.set_up_webhook webhook _ _ log r before refl (rw on at h))
    | inr off ↦ rw off (rw off at h)
  ]

  with_provider-Starts :
      (p : Result Built) (r : Reconciler) (before : List Effect)
      → Starts (with_provider deps vendors m env f p) [] r before
      → (p ≡ ok r.provider)
        × (r.dns_verification_server ≡ verifier deps f)
        × (before ≡ settled deps f controllers)
  unfolding with_provider with_controller Starts verifier settled
  with_provider-Starts (err e) r before h = cc
  with_provider-Starts (ok p) r before h =
      let (e, v, q) = with_dns-Starts _ _ r before (
        with_webhook-Starts _ _ r before (
          set_up-Starts _ _ _ _ _ r before refl
            (set_up-Starts _ _ _ _ _ r before refl (set_up-Starts _ _ _ _ _ r before refl h)))) in
      (cc e, v, q)

  pub started_lem :
      (r : Reconciler) (before : List Effect)
      → (launch deps vendors m env f []).1 ≡ start r ∷ before
      → (name_of r.provider ≡ provider_name f)
        × (r.dns_verification_server ≡ verifier deps f)
        × (before ≡ settled deps f controllers)
  unfolding launch with_manager Starts
  started_lem r before h = elim (Option-cases m.new_manager) [
    | inr (e, failed) ↦ cc (rw failed at h)
    | inl made ↦ elim (Bool-cases (text_eq f.dns_provider [] && f.no_dns_server)) [
      | inl none_left ↦ cc (rw none_left at rw made at h)
      | inr served ↦
          let (p, v, q) = with_provider-Starts _ r before (rw served at rw made at h) in
          (new-named vendors env (provider_name f) r.provider p, v, q)
    ]
  ]
