-- ===== src/Controllers/Records/Deletion.antt =====
-- The reconciliation of a DNSRecord that is marked for deletion.
use k8s_dns_manager.Prelude.{
  ◌≡◌, ap, ◌≢◌, true, false, ◌⊎◌, inl, inr, some, List, [], ◌∷◌, ◌++◌, Text, codes, ok, is_some,
  length, arith, Option-cases, text_eq_refl,
}
use k8s_dns_manager.Deps.{Deps, Rr}
use k8s_dns_manager.Api.{DnsRecord}
use k8s_dns_manager.Webhook.Default.{default}
use k8s_dns_manager.Record.{to_rr}
use k8s_dns_manager.Controllers.{Key, Reconciled, Call, get, update, provide, event, World}
use k8s_dns_manager.Controllers.Finalizers.{
  record_finalizer, has_finalizer, remove_finalizer, remove_finalizer_lem, remove_finalizer-eq-none,
}
use k8s_dns_manager.Controllers.Records.{removed, reconcile, status_moved, key_string}

module _ (deps : Deps) (w : World) (req : Key) where
  -- the answer of the provider in a reconciliation that read `got`
  abbrev pub answer : DnsRecord → Reconciled
  answer got = w.on_provide (get req ∷ []) (default deps got)

  -- the event of a deletion
  abbrev pub deleted : Call
  deleted = event (codes "Deleted") (codes "Deleted DNSRecord " ++ key_string req)

  abbrev pub released : DnsRecord → List Text → DnsRecord
  released r fins = record r { metadata = record r.metadata { finalizers = fins } }

  reconcile_of_deleted :
      (got : DnsRecord) (rr : Rr)
      → w.on_get [] req ≡ ok got
      → is_some got.metadata.deletion_timestamp ≡ true
      → to_rr deps (default deps got) ≡ ok rr
      → reconcile deps w req []
        ≡ removed deps w req
            (default deps got)
            (answer got)
            (provide (default deps got) ∷ get req ∷ [])
  unfolding reconcile default
  reconcile_of_deleted got rr read dead conv = rw (read, conv, dead)

  -- A reconciliation that ends in an update of a record that was marked for deletion has had the
  -- provider's consent for the same record: the provider answered ok and left the provider and the
  -- id of the status as they were, and what is written is the provider's record with the
  -- finalizers that removeFinalizer leaves.
  pub released_after_provider :
      (got r : DnsRecord) (rr : Rr) (log : List Call)
      → w.on_get [] req ≡ ok got
      → is_some got.metadata.deletion_timestamp ≡ true
      → to_rr deps (default deps got) ≡ ok rr
      → (reconcile deps w req []).1 ≡ update r ∷ log
      → ((answer got).ok ≡ true)
        × (status_moved (answer got).changed.status (default deps got).status ≡ false)
        × (remove_finalizer (answer got).changed.metadata.finalizers ≡ some r.metadata.finalizers)
        × (r ≡ released (answer got).changed r.metadata.finalizers)
        × (log ≡ deleted ∷ provide (default deps got) ∷ get req ∷ [])
  released_after_provider got r rr log read dead conv e =
      let e' = rw (reconcile_of_deleted got rr read dead conv) at e in
      unfold removed in ground arith

  status_moved_self : (o : DnsRecord) → status_moved o.status o.status ≡ false
  unfolding status_moved
  status_moved_self o = ground (arith, text_eq_refl o.status.provider, text_eq_refl o.status.id)

  removed_when_clean :
      (o : DnsRecord) (p : Reconciled) (log : List Call) (fins : List Text)
      → p.ok ≡ true
      → p.changed ≡ o
      → remove_finalizer o.metadata.finalizers ≡ some fins
      → (removed deps w req o p log).1 ≡ update (released o fins) ∷ deleted ∷ log
  unfolding removed
  removed_when_clean o p log fins agreed same rest =
      rw (agreed, same, status_moved_self o, rest)
        (ap (λ x. update (released x fins) ∷ deleted ∷ log) same)

  removed_when_done :
      (o : DnsRecord) (p : Reconciled) (log : List Call)
      → p.ok ≡ true
      → p.changed ≡ o
      → has_finalizer o.metadata.finalizers ≡ true
      → (fins : List Text) × ((removed deps w req o p log).1
          ≡ update (released o fins) ∷ deleted ∷ log)
        × (((o.metadata.finalizers ≡ record_finalizer ∷ []) × (fins ≡ []))
            ⊎ ((length o.metadata.finalizers ≢ 1) × (has_finalizer fins ≡ true)))
  removed_when_done o p log agreed same held =
      elim (Option-cases (remove_finalizer o.metadata.finalizers)) [
        | inl missing ↦
            absurd (ground (arith, remove_finalizer-eq-none o.metadata.finalizers missing))
        | inr (fins, rest) ↦ (
          fins,
          removed_when_clean o p log fins agreed same rest,
          remove_finalizer_lem o.metadata.finalizers fins rest,
        )
      ]

  -- Once the provider has nothing left to do for a record that is marked for deletion and holds
  -- the finalizer (it answers ok and returns the record as it is), the reconciliation ends in one
  -- update of the record. If the record finalizer was the only one, the update clears the
  -- finalizers. If there was another one, the record finalizer is still among those that the
  -- update writes.
  pub finalizers_after_deletion :
      (got : DnsRecord) (rr : Rr)
      → w.on_get [] req ≡ ok got
      → is_some got.metadata.deletion_timestamp ≡ true
      → to_rr deps (default deps got) ≡ ok rr
      → has_finalizer got.metadata.finalizers ≡ true
      → (answer got).ok ≡ true
      → (answer got).changed ≡ default deps got
      → (fins : List Text) × ((reconcile deps w req []).1
          ≡ update (released (default deps got) fins)
            ∷ deleted
            ∷ provide (default deps got)
            ∷ get req
            ∷ [])
        × (((got.metadata.finalizers ≡ record_finalizer ∷ []) × (fins ≡ []))
            ⊎ ((length got.metadata.finalizers ≢ 1) × (has_finalizer fins ≡ true)))
  finalizers_after_deletion got rr read dead conv held agreed same =
      rw (reconcile_of_deleted got rr read dead conv) (
        unfold default in
        removed_when_done (default deps got) (answer got)
          (provide (default deps got) ∷ get req ∷ []) agreed same held)
