-- ===== src/Libdns/Rounds/Removed.antt =====
-- The controller with a libdns provider at a DNSRecord that is marked for deletion.
use k8s_dns_manager.Prelude.{◌≡◌, ap, true, inl, inr, none, [], ◌∷◌, ◌++◌, Text, is_some}
use k8s_dns_manager.Deps.{Deps, Rr}
use k8s_dns_manager.Api.{DnsRecordStatus}
use k8s_dns_manager.Webhook.Default.{default}
use k8s_dns_manager.Controllers.{Key, World, get, provide, update_status}
use k8s_dns_manager.Controllers.Server.{Server, Accepting}
use k8s_dns_manager.Controllers.Records.{status_moved}
use k8s_dns_manager.Controllers.Records.Providers.{calls_of_cleared}
use k8s_dns_manager.Libdns.Provider.{Prov, with_status, find_id}
use k8s_dns_manager.Libdns.Provider.Store.{Store, Unfailing, IsRead, resumed, resumed_store}
use k8s_dns_manager.Libdns.Provider.Contents.{reconcile-IsCarriedOut}
use k8s_dns_manager.Libdns.Rounds.{State, answer_of, calls_of, client_after, round_of}

module _ (deps : Deps) (p : Prov) (store : Store deps p) (w : World) (req : Key) (server : Server)
    (unfailing : Unfailing p) where
  module _ (x : State) (defaulted : default deps x.object ≡ x.object)
      (dying : is_some x.object.metadata.deletion_timestamp ≡ true)
      (accepted : (answer_of deps p x x.object).0.ok ≡ true)
      (moved : status_moved (with_status x.object [] []).status x.object.status ≡ true) where
    -- The record is read, the provider's answer clears the status, and the status is written.
    pub clearing :
        (rr : Rr) × (d : Text) × IsRead deps x.object rr d
        × (find_id x.object.status.id
              (store.contents ((answer_of deps p x x.object).1 ++ x.client) (deps.fqdn d))
            ≡ none)
        × (calls_of deps p w req x
            ≡ update_status (with_status x.object [] []) ∷ provide x.object ∷ get req ∷ [])
    unfolding calls_of resumed_store
    clearing =
        let s = x.object in
        let (rr, d, read, out) =
          reconcile-IsCarriedOut deps (resumed p x.client) (resumed_store store x.client)
            (λ log z. unfailing (log ++ x.client) z) s accepted in
        elim out [
          | inr (wanted, _) ↦ absurd (wanted (inl dying))
          | inl (_, changed, gone) ↦ (
            rr,
            d,
            read,
            gone,
            calls_of_cleared deps w req s (with_status s [] []) rr
                (λ log v. (answer_of deps p x v).0) defaulted read.conversion dying accepted changed
                moved,
          )
        ]

  -- The zone has no record of the id that the status said, and the status says none.
  pub record IsRemoved (x y : State) : Type 0 where
    pub rr : Rr
    pub domain : Text
    pub read : IsRead deps x.object rr domain
    pub gone : find_id x.object.status.id (store.contents y.client (deps.fqdn domain)) ≡ none
    pub no_id : y.object.status.id ≡ []
    pub no_provider : y.object.status.provider ≡ []

  -- With a libdns provider over a client that keeps what it documents and whose GetRecords
  -- answers without an error, let the stored object be a
  -- defaulted DNSRecord that is marked for deletion, whose status names a provider or an id, and
  -- for which the provider answers ok; and let no write fail. Then after a reconciliation the zone of the record's domain
  -- has no record of that id, and the stored status names neither.
  pub round-IsRemoved :
      (x : State)
      → Accepting w
      → default deps x.object ≡ x.object
      → is_some x.object.metadata.deletion_timestamp ≡ true
      → (answer_of deps p x x.object).0.ok ≡ true
      → status_moved (with_status x.object [] []).status x.object.status ≡ true
      → IsRemoved x (round_of deps p w req server x)
  unfolding round_of client_after
  round-IsRemoved x accepts defaulted dying accepted moved =
      let s = x.object in
      let (rr, d, read, gone, e) = clearing x defaulted dying accepted moved in
      let status = server.update_status-status s (with_status s [] []) in
      record {
        rr = rr;
        domain = d;
        read = read;
        gone = rw e gone;
        no_id = rw (e, accepts _ _) (ap (λ (t : DnsRecordStatus). t.id) status);
        no_provider = rw (e, accepts _ _) (ap (λ (t : DnsRecordStatus). t.provider) status);
      }
