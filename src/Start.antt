-- ===== src/Start.antt =====
-- The command of cmd/k8s-dns/main.go, from its flags to the call of the manager's Start. What the
-- manager answers is a parameter; the scheme, the election of a leader and the log are left out.
pub mod Effects
pub mod Launched
use k8s_dns_manager.Prelude.{
  Bool, true, false, not, ◌&&◌, Option, none, some, List, [], ◌∷◌, ◌++◌, Text, codes, Error, Result,
  ok, err, text_eq, if◌then◌else◌,
}
use k8s_dns_manager.Deps.{Deps, Ip}
use k8s_dns_manager.Registry.{Env, new}
use k8s_dns_manager.Registry.Vendors.{Built, Vendors, providers}
use k8s_dns_manager.Corefile.{ℤ, pos, Config, render}

-- The variables of the flags.
pub record Flags : Type 0 where
  pub enable_webhook : Bool
  pub no_dns_server : Bool
  pub dns_log : Bool
  pub dns_forward : List Text
  pub dns_metrics : Bool
  pub dns_cache : ℤ
  pub dns_any : Bool
  pub external_address : Option Ip
  pub dns_verification_server : Option Ip
  pub dns_provider : Text

abbrev pub loopback : Text
loopback = codes "127.0.0.1"

-- The values of the flags that are not given.
abbrev pub default_flags : Deps → Flags
default_flags deps = record {
  enable_webhook = false;
  no_dns_server = false;
  dns_log = false;
  dns_forward = [];
  dns_metrics = false;
  dns_cache = pos 0;
  dns_any = false;
  external_address = deps.parse_ip loopback;
  dns_verification_server = deps.parse_ip (codes "1.1.1.1");
  dns_provider = codes "coredns";
}

-- The fields of the DNSRecordReconciler that the flags decide.
pub record Reconciler : Type 0 where
  pub provider : Built
  pub dns_verification_server : Text

-- What the command does to the manager, and the DNS server that it runs.
pub data Effect : Type 0 where
  controller : Text → Effect
  webhook : Effect
  dns_server : Text → Effect
  start : Reconciler → Effect

-- The errors of NewManager, of a controller's and the webhook's SetupWithManager, and of Start.
pub record Manager : Type 0 where
  pub new_manager : Option Error
  pub set_up_controller : Text → Option Error
  pub set_up_webhook : Option Error
  pub run : Option Error

-- The effects so far, the last one first, to the message of the exit with code 1, if there is one.
abbrev pub Launch : Type 0
Launch = List Effect → Option Text × List Effect

abbrev exit : Text → Launch
exit message log = (some message, log)

-- `if err := effect; err != nil { log; os.Exit(1) }`
unfoldable pub set_up : Option Error → Effect → Text → Launch → Launch
set_up none effect message rest log = rest (effect ∷ log)
set_up (some _) effect message rest log = (some message, effect ∷ log)

-- `if ip == nil { ip = net.ParseIP(text) }`
unfoldable pub ip_or : Deps → Text → Option Ip → Option Ip
ip_or deps text none = deps.parse_ip text
ip_or deps text (some ip) = some ip

-- IP.String of an address that may be nil
unfoldable pub ip_text : Deps → Option Ip → Text
ip_text deps none = codes "<nil>"
ip_text deps (some ip) = deps.ip_string ip

unfoldable pub provider_name : Flags → Text
provider_name f = if text_eq f.dns_provider [] then codes "coredns" else f.dns_provider

-- `!noDNSServer`, as it is tested at last
unfoldable pub runs_dns : Flags → Bool
runs_dns f = text_eq (provider_name f) (codes "coredns") && not f.no_dns_server

module _ (deps : Deps) (f : Flags) where
  unfoldable pub dns_config : Config
  unfolding ip_or ip_text
  dns_config = record {
    forward = f.dns_forward;
    log = f.dns_log;
    errors = true;
    metrics = f.dns_metrics;
    cache = f.dns_cache;
    any = f.dns_any;
    external_address = ip_text deps (ip_or deps loopback f.external_address);
  }

  unfoldable pub external_server : Text
  unfolding ip_or ip_text
  external_server =
      ip_text deps (ip_or deps (codes "1.1.1.1") f.dns_verification_server) ++ codes ":53"

module _ (deps : Deps) (vendors : Vendors) (m : Manager) (env : Env) (f : Flags) where
  -- mgr.Start
  run_manager : Reconciler → Launch
  run_manager r = set_up m.run (start r) (codes "problem running manager") λ log. (none, log)

  -- The DNS server runs beside the manager, and then answers the verifications.
  with_dns : Reconciler → Launch
  with_dns r log =
      let alone = run_manager r log in
      let both =
        run_manager (record r { dns_verification_server = codes "127.0.0.1:53" })
          (dns_server (render (dns_config deps f)) ∷ log) in
      if runs_dns f then both else alone

  with_webhook : Reconciler → Launch
  with_webhook r log =
      let alone = with_dns r log in
      let both =
        set_up m.set_up_webhook webhook (codes "unable to create webhook") (with_dns r) log in
      if f.enable_webhook then both else alone

  with_controller : Text → Launch → Launch
  with_controller kind =
      set_up (m.set_up_controller kind) (controller kind) (codes "unable to create controller")

  with_provider : Result Built → Launch
  with_provider (err e) = exit (codes "unable to create provider")
  with_provider (ok prov) =
      let r : Reconciler = record {
        provider = prov;
        dns_verification_server = external_server deps f;
      } in
      with_controller (codes "DNSRecord")
        (with_controller (codes "Ingress") (with_controller (codes "Service") (with_webhook r)))

  with_manager : Option Error → Launch
  with_manager (some e) log = (some (codes "unable to start manager"), log)
  with_manager none log =
      let rest = with_provider (new (providers vendors) env (provider_name f)) log in
      if text_eq f.dns_provider [] && f.no_dns_server
      then (some (codes "no dns provider specified and no in-process dns server"), log)
      else rest

  unfoldable pub launch : Launch
  unfolding with_manager with_provider with_controller with_webhook with_dns run_manager
  launch = with_manager m.new_manager
