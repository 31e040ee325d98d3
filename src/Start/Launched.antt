-- ===== src/Start/Launched.antt =====
-- What has been set up when the manager is started.
use k8s_dns_manager.Prelude.{
  ap, sym, ◌≡◌, ◌≢◌, ◌⊎◌, ◌∙◌, arith, text_eq_iff, refl, true, false, Option, none, some, List, [],
  ◌∷◌, ◌++◌, Text, codes, text_eq, if◌then◌else◌, Bool-cases, inl, inr,
}
use k8s_dns_manager.Deps.{Deps, Ip}
use k8s_dns_manager.Registry.{Env}
use k8s_dns_manager.Registry.Vendors.{Vendors, name_of}
use k8s_dns_manager.Corefile.{Config, render, line_if}
use k8s_dns_manager.Start.{
  Flags, Reconciler, Effect, webhook, dns_server, start, Manager, ip_or, ip_text, provider_name,
  runs_dns, dns_config, external_server, launch,
}
use k8s_dns_manager.Start.Effects.{settled, verifier, controllers, started_lem}

module _ (deps : Deps) (vendors : Vendors) (m : Manager) (env : Env) (f : Flags) where
  abbrev pub text_of : Option Ip → Text
  text_of none = codes "<nil>"
  text_of (some ip) = deps.ip_string ip

  -- The text of an address of the flags, or of the one that stands for it.
  abbrev pub text_or : Text → Option Ip → Text
  text_or d (some ip) = deps.ip_string ip
  text_or d none = text_of (deps.parse_ip d)

  abbrev pub asked_config : Config
  asked_config = record {
    forward = f.dns_forward;
    log = f.dns_log;
    errors = true;
    metrics = f.dns_metrics;
    cache = f.dns_cache;
    any = f.dns_any;
    external_address = text_or (codes "127.0.0.1") f.external_address;
  }

  abbrev pub set_up_before : List Effect
  set_up_before = if f.enable_webhook then webhook ∷ controllers else controllers

  -- The provider of the flag, or CoreDNS without one.
  abbrev pub IsAsked : Reconciler → Type 0
  IsAsked r =
      ((f.dns_provider ≡ []) × (name_of r.provider ≡ codes "coredns"))
      ⊎ ((f.dns_provider ≢ []) × (name_of r.provider ≡ f.dns_provider))

  -- The DNS server runs, and answers the verifications.
  abbrev pub IsServing : Reconciler → List Effect → Type 0
  IsServing r before =
      (f.no_dns_server ≡ false)
      × (name_of r.provider ≡ codes "coredns")
      × (r.dns_verification_server ≡ codes "127.0.0.1:53")
      × (before ≡ dns_server (render asked_config) ∷ set_up_before)

  -- No DNS server runs, and the one of the flag answers.
  abbrev pub IsIdle : Reconciler → List Effect → Type 0
  IsIdle r before =
      ((f.no_dns_server ≡ true) ⊎ (name_of r.provider ≢ codes "coredns"))
      × (r.dns_verification_server
          ≡ text_or (codes "1.1.1.1") f.dns_verification_server ++ codes ":53")
      × (before ≡ set_up_before)

  asked_lem : (r : Reconciler) → name_of r.provider ≡ provider_name f → IsAsked r
  unfolding provider_name
  asked_lem r e = elim (Bool-cases (text_eq f.dns_provider [])) [
    | inl empty ↦ inl ((text_eq_iff f.dns_provider []).0 empty, e ∙ rw empty refl)
    | inr full ↦ inr (λ h. ground (arith, text_eq_iff f.dns_provider []), e ∙ rw full refl)
  ]

  text_of_lem : (o : Option Ip) → ip_text deps o ≡ text_of o
  unfolding ip_text
  text_of_lem none = refl
  text_of_lem (some ip) = refl

  text_or_lem : (d : Text) (o : Option Ip) → ip_text deps (ip_or deps d o) ≡ text_or d o
  unfolding ip_text ip_or
  text_or_lem d (some ip) = refl
  text_or_lem d none = text_of_lem (deps.parse_ip d)

  external_server_lem :
      external_server deps f ≡ text_or (codes "1.1.1.1") f.dns_verification_server ++ codes ":53"
  unfolding external_server
  external_server_lem =
      ap (λ t. t ++ codes ":53") (text_or_lem (codes "1.1.1.1") f.dns_verification_server)

  dns_config_lem : dns_config deps f ≡ asked_config
  unfolding dns_config
  dns_config_lem =
      ap (λ t. record asked_config { external_address = t })
        (text_or_lem (codes "127.0.0.1") f.external_address)

  settled_lem :
      settled deps f controllers
      ≡ line_if (runs_dns f) (dns_server (render asked_config)) ++ set_up_before
  unfolding settled
  settled_lem =
      rw dns_config_lem
        (elim (Bool-cases f.enable_webhook) [ inl on ↦ rw on refl | inr off ↦ rw off refl ])

  module _ (r : Reconciler) (before : List Effect) (e : name_of r.provider ≡ provider_name f)
      (v : r.dns_verification_server ≡ verifier deps f)
      (q : before ≡ settled deps f controllers) where
    serving_lem :
        f.no_dns_server ≡ false
        → text_eq (provider_name f) (codes "coredns") ≡ true
        → IsServing r before
    unfolding verifier runs_dns
    serving_lem on core = (
      on,
      e ∙ (text_eq_iff (provider_name f) (codes "coredns")).0 core,
      v ∙ rw (core, on) refl,
      q ∙ settled_lem ∙ rw (runs_dns, core, on) refl,
    )

    idle_lem :
        runs_dns f ≡ false
        → (f.no_dns_server ≡ true) ⊎ (name_of r.provider ≢ codes "coredns")
        → IsIdle r before
    unfolding verifier
    idle_lem idle why = (why, v ∙ rw idle external_server_lem, q ∙ settled_lem ∙ rw idle refl)

    served_lem : IsServing r before ⊎ IsIdle r before
    unfolding runs_dns
    served_lem = elim (Bool-cases (text_eq (provider_name f) (codes "coredns"))) [
      | inr other ↦ inr (
          idle_lem (rw (runs_dns, other) refl)
            (inr (λ h. ground (arith, text_eq_iff (provider_name f) (codes "coredns"), sym e ∙ h))))
      | inl core ↦ elim (Bool-cases f.no_dns_server) [
        | inl off ↦ inr (idle_lem (rw (runs_dns, core, off) refl) (inl off))
        | inr on ↦ inl (serving_lem on core)
      ]
    ]

  -- When the command starts the manager, the three controllers are set up, and then the webhook if
  -- its flag is set. The provider is the one of the flag, or CoreDNS if the flag is empty. If the
  -- provider is CoreDNS and the DNS server is not disabled, the DNS server is run with the
  -- configuration of the flags, with the external address or 127.0.0.1, and the records are
  -- verified at 127.0.0.1:53; otherwise no DNS server is run, and the records are verified at the
  -- verification server of the flags, or 1.1.1.1, at port 53.
  pub launch-started :
      (r : Reconciler) (before : List Effect)
      → (launch deps vendors m env f []).1 ≡ start r ∷ before
      → IsAsked r × (IsServing r before ⊎ IsIdle r before)
  launch-started r before h =
      let (e, v, q) = started_lem deps vendors m env f r before h in
      (asked_lem r e, served_lem r before e v q)
