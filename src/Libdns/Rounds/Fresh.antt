-- ===== src/Libdns/Rounds/Fresh.antt =====
-- Rounds of the controller with a libdns provider at a live object that may not hold the finalizer.
use k8s_dns_manager.Prelude.{ℕ, zero, suc, ◌≡◌, false, [], ◌∷◌, ◌++◌, codes, if◌then◌else◌}
use k8s_dns_manager.Api.{DnsRecord}
use k8s_dns_manager.Controllers.{get, provide, exchange, event}
use k8s_dns_manager.Controllers.Finalizers.{record_finalizer, has_finalizer}
use k8s_dns_manager.Controllers.Records.{question}
use k8s_dns_manager.Controllers.Records.Convergence.{Setting, IsLive, IsSettled}
use k8s_dns_manager.Libdns.{get_records}
use k8s_dns_manager.Libdns.Provider.Store.{is_foreign}
use k8s_dns_manager.Libdns.Rounds.{State, calls_of, round_of}
use k8s_dns_manager.Libdns.Rounds.Carried.{Site, zone, IsCarried}

module _ (σ : Setting) (t : Site σ) where
  open σ use {deps, world as w, server, req, spec, rr}
  open t use {provider as p}

  abbrev pub next : State → State
  next x = round_of deps p w req server x

  unfoldable pub rounds : ℕ → State → State
  rounds zero x = x
  rounds (suc n) x = next (rounds n x)

  -- A reconciliation of the state writes nothing, and the provider only lists the zone.
  pub record IsAtRest (z : State) : Type 0 where
    pub settled : IsSettled deps rr z.object
    pub carried : IsCarried σ t z
    pub calls :
        calls_of deps p w req z
        ≡ event (codes "Success") (codes "record active")
          ∷ exchange (codes "udp") (question deps w rr)
          ∷ provide z.object
          ∷ get req
          ∷ []
    pub listing : (next z).client ≡ get_records (zone σ t) ∷ z.client

  -- The state with the finalizer, in which the provider is called first.
  abbrev pub guarded : State → State
  guarded x = if has_finalizer x.object.metadata.finalizers then x else next x

  module _ (x : State) (l : IsLive spec x.object) (ours : is_foreign p x.object ≡ false) where
    abbrev with_finalizer : DnsRecord
    with_finalizer = record x.object {
      metadata = record x.object.metadata {
        finalizers = x.object.metadata.finalizers ++ record_finalizer ∷ [];
      };
    }
