-- ===== src/Libdns/Rounds/Released.antt =====
-- Two rounds of the controller with a libdns provider at a DNSRecord that is marked for deletion.
use k8s_dns_manager.Prelude.{◌≡◌, true, [], ◌∷◌, is_some}
use k8s_dns_manager.Deps.{Deps}
use k8s_dns_manager.Api.{DnsRecord}
use k8s_dns_manager.Webhook.Default.{default}
use k8s_dns_manager.Controllers.{Key, World}
use k8s_dns_manager.Controllers.Server.{Server, Accepting}
use k8s_dns_manager.Controllers.Finalizers.{record_finalizer}
use k8s_dns_manager.Libdns.Provider.{Prov}
use k8s_dns_manager.Libdns.Provider.Store.{Store, Unfailing}
use k8s_dns_manager.Libdns.Rounds.{State, round_of}

module _ (deps : Deps) (p : Prov) (store : Store deps p) (w : World) (req : Key) (server : Server)
    (accepts : Accepting w) (unfailing : Unfailing p) where
  abbrev next : State → State
  next x = round_of deps p w req server x

  -- A defaulted DNSRecord that is marked for deletion and has the record finalizer alone.
  pub record IsLeaving (s : DnsRecord) : Type 0 where
    pub defaulted : default deps s ≡ s
    pub dying : is_some s.metadata.deletion_timestamp ≡ true
    pub held : s.metadata.finalizers ≡ record_finalizer ∷ []

  -- The status names neither a provider nor an id.
  abbrev IsCleared : DnsRecord → Type 0
  IsCleared s = (s.status.provider ≡ []) × (s.status.id ≡ [])
