-- ===== src/Libdns/Rounds.antt =====
-- The DNSRecord controller with a libdns provider: reconciliations one after the other, of the object
-- that the API server stores and with a client that answers by all its calls before.
pub mod Carried
pub mod Settled
pub mod Fresh
pub mod Removed
pub mod Released
use k8s_dns_manager.Prelude.{List, [], ◌∷◌, ◌++◌}
use k8s_dns_manager.Deps.{Deps}
use k8s_dns_manager.Api.{DnsRecord}
use k8s_dns_manager.Controllers.{Key, Call, provide, World}
use k8s_dns_manager.Controllers.Server.{Server, stored}
use k8s_dns_manager.Controllers.Records as Controller
use k8s_dns_manager.Controllers.Records.Providers.{world_with}
use k8s_dns_manager.Libdns.{ClientCall}
use k8s_dns_manager.Libdns.Provider.{Prov, Answer, reconcile}
use k8s_dns_manager.Libdns.Provider.Store.{resumed}

-- The stored object, and the client's calls so far.
pub record State : Type 0 where
  pub object : DnsRecord
  pub client : List ClientCall

module _ (deps : Deps) (p : Prov) where
  abbrev pub answer_of : State → DnsRecord → Answer
  answer_of x r = reconcile deps (resumed p x.client) r

  -- The calls of the client behind those of a reconciliation, which provides at most one DNSRecord.
  unfoldable pub client_after : State → List Call → List ClientCall
  client_after x [] = x.client
  client_after x (provide r ∷ log) = (answer_of x r).1 ++ x.client
  client_after x (_ ∷ log) = client_after x log

  module _ (w : World) (req : Key) where
    -- The API server returns the object, and the provider is the libdns one.
    abbrev pub world_of : State → World
    world_of x = world_with w x.object (λ log r. (answer_of x r).0)

    -- The calls of one reconciliation.
    unfoldable pub calls_of : State → List Call
    calls_of x = (Controller.reconcile deps (world_of x) req []).1

    unfoldable pub round_of : Server → State → State
    round_of server x = record {
      object = stored server w x.object (calls_of x);
      client = client_after x (calls_of x);
    }
