-- ===== src/Tests/Starting.antt =====
-- The start of the manager with the configuration of its DNS server, and the commands list and
-- create. The rendered texts are those of pkg/coredns/config/config_test.go.
use k8s_dns_manager.Prelude.{
  ◌≡◌, refl, ◌⊎◌, some, Error, ◌&&◌, true, false, none, List, [], ◌∷◌, ◌++◌, codes, Text, ok, map,
  All, text_eq, lookup, insert, delete,
}
use k8s_dns_manager.GoStrings.{decimal, decimal_fuel}
use k8s_dns_manager.Corefile.{Config, pos, addresses, block, broken, render}
use k8s_dns_manager.Corefile.Words.{lines, words, IsSolid-test}
use k8s_dns_manager.Corefile.Server.{
  Caddy, output_to_stdout, waited, must_log_fatal, run, run-render,
}
use k8s_dns_manager.Corefile.Reading.{settings, is_directive, IsWritable}
use k8s_dns_manager.Registry.{new, register}
use k8s_dns_manager.Registry.Vendors.{noop, providers}
use k8s_dns_manager.Start.{
  Flags, Reconciler, Effect, dns_server, set_up, dns_config, start, Manager, default_flags,
  provider_name, runs_dns, launch,
}
use k8s_dns_manager.Start.Effects.{controllers}
use k8s_dns_manager.Start.Launched.{IsAsked, IsServing, IsIdle, launch-started}
use k8s_dns_manager.Tests.Samples.{deps}
use k8s_dns_manager.Tests.Providers.{vendors, env}

abbrev empty : Config
empty = record {
  forward = [];
  log = false;
  errors = false;
  metrics = false;
  cache = pos 0;
  any = false;
  external_address = [];
}

render-empty : render empty ≡ codes "\n.:53 {\n\tk8s_dns\n}\n"
unfolding render block broken
render-empty = refl

render-address :
    render (record empty { external_address = codes "10.0.1.0" })
    ≡ codes "\n.:53 {\n\tk8s_dns 10.0.1.0\n}\n"
unfolding render block broken
render-address = refl

abbrev google : List Text
google = codes "8.8.8.8" ∷ codes "8.8.4.4" ∷ []

render-forward :
    render (record empty { forward = google; metrics = true })
    ≡ codes "\n.:53 {\n\tk8s_dns\n\tforward . 8.8.8.8 8.8.4.4 \n\tprometheus 0.0.0.0:9153\n}\n"
unfolding render block broken addresses
render-forward = refl

abbrev full : Config
full = record {
  forward = google;
  log = true;
  errors = true;
  metrics = true;
  cache = pos 300;
  any = true;
  external_address = [];
}

render-full :
    render full
    ≡ codes
        "\n.:53 {\n\tk8s_dns\n\tany\n\tforward . 8.8.8.8 8.8.4.4 \n\tcache 300\n\tlog\n\terrors\n\tprometheus 0.0.0.0:9153\n}\n"
unfolding render block broken addresses decimal decimal_fuel
render-full = refl

full-IsWritable : IsWritable full
full-IsWritable = record {
  address = tt;
  servers = (
    (refl, IsSolid-test (codes "8.8.8.8") refl),
    ((refl, IsSolid-test (codes "8.8.4.4") refl), tt),
  );
}

-- A Caddy that starts a server on every text.
abbrev caddy : Caddy
caddy = record { load = λ t. ok t; start = λ t. none; is_upgrade = false }

run-render_example :
    (((caddy.start (render full) ≡ none)
        × (run caddy (render full) ≡ output_to_stdout ∷ waited (render full) ∷ []))
      ⊎ ((e : Error) × (caddy.start (render full) ≡ some e)
          × (run caddy (render full) ≡ output_to_stdout ∷ must_log_fatal caddy e)))
    × (map words (lines (render full))
        ≡ []
          ∷ ((codes ".:53" ∷ codes "{" ∷ [])
              ∷ ((settings full ++ ((codes "}" ∷ []) ∷ [])) ++ [] ∷ [])))
    × All (λ ws. is_directive ws ≡ true) (settings full)
run-render_example = run-render caddy full full-IsWritable (λ t. refl)

-- A manager that answers no call by an error.
abbrev manager : Manager
manager = record {
  new_manager = none;
  set_up_controller = λ kind. none;
  set_up_webhook = none;
  run = none;
}

abbrev flags : Flags
flags = default_flags deps

new-noop : new (providers vendors) env (provider_name flags) ≡ ok noop
unfolding new providers register insert delete lookup text_eq provider_name
new-noop = refl

abbrev reconciler : Reconciler
reconciler = record { provider = noop; dns_verification_server = codes "127.0.0.1:53" }

provider-there : (text_eq flags.dns_provider [] && flags.no_dns_server) ≡ false
unfolding text_eq
provider-there = refl

abbrev before : List Effect
before = dns_server (render (dns_config deps flags)) ∷ controllers

flags-launched : (launch deps vendors manager env flags []).1 ≡ start reconciler ∷ before
unfolding launch set_up runs_dns provider_name new providers register insert delete lookup text_eq
flags-launched = refl

launch-started_example :
    IsAsked deps vendors manager env flags reconciler
    × (IsServing deps vendors manager env flags reconciler before
        ⊎ IsIdle deps vendors manager env flags reconciler before)
launch-started_example =
    launch-started deps vendors manager env flags reconciler before flags-launched
