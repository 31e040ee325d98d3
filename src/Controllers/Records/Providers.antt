-- ===== src/Controllers/Records/Providers.antt =====
-- A reconciliation of a DNSRecord that is live and holds the finalizer, or is marked for deletion, with
-- any provider.
use k8s_dns_manager.Prelude.{
  ok, is_some, ◌≡◌, false, ◌++◌, refl, ◌∙◌, sym, true, not, ◌||◌, Result, List, [], ◌∷◌, text_eq,
}
use k8s_dns_manager.Deps.{Deps, Rr}
use k8s_dns_manager.Api.{DnsRecord}
use k8s_dns_manager.Webhook.Default.{default}
use k8s_dns_manager.Record.{to_rr}
use k8s_dns_manager.Controllers.{Key, Reconciled, Call, get, update, update_status, provide, World}
use k8s_dns_manager.Controllers.Finalizers.{has_finalizer, record_finalizer}
use k8s_dns_manager.Controllers.Records.{
  lookup, exchange_loop, answered, verified, provided, converted, call_provider, removed, reconcile,
  status_moved,
}
use k8s_dns_manager.Controllers.Records.Convergence.{
  Setting, IsLive, calls, noop_provider, default_live, converts_live,
}

-- The world in which the API server returns `s`, and the provider is `f`.
abbrev pub world_with : World → DnsRecord → (List Call → DnsRecord → Reconciled) → World
world_with w s f = record w { on_get = λ log k. Result.ok s; on_provide = f }

module _ (σ : Setting) (s : DnsRecord) (l : IsLive σ.spec s)
    (held : has_finalizer s.metadata.finalizers ≡ true) where
  open σ use {deps, world as w, req, rr}

  provider_calls :
      (f : List Call → DnsRecord → Reconciled)
      → (reconcile deps (world_with w s f) req []).1
        ≡ (provided deps (world_with w s f) rr s (f (get req ∷ []) s) (provide s ∷ get req ∷ [])).1
  unfolding reconcile converted call_provider
  provider_calls f = rw (default_live σ s l, converts_live σ s l, l.live, held) refl

  -- A provider that answers ok for the record as it is does what the one of noop.go does.
  pub calls_of_accepted :
      (f : List Call → DnsRecord → Reconciled)
      → (f (get req ∷ []) s).ok ≡ true
      → (f (get req ∷ []) s).changed ≡ s
      → (reconcile deps (world_with w s f) req []).1 ≡ calls deps w req s
  unfolding calls provided verified lookup exchange_loop answered status_moved noop_provider
  calls_of_accepted f accepted same =
      provider_calls f ∙ rw (accepted, same) (sym (provider_calls (λ log r. noop_provider r)))

  -- A provider that answers ok and changes the status has the status written.
  pub calls_of_changed :
      (f : List Call → DnsRecord → Reconciled) (r : DnsRecord)
      → (f (get req ∷ []) s).ok ≡ true
      → (f (get req ∷ []) s).changed ≡ r
      → (status_moved r.status s.status || not (text_eq r.status.printed (deps.rr_string rr)))
        ≡ true
      → (reconcile deps (world_with w s f) req []).1
        ≡ update_status (record r { status = record r.status { printed = deps.rr_string rr } })
          ∷ provide s
          ∷ get req
          ∷ []
  unfolding provided
  calls_of_changed f r accepted changed moved =
      provider_calls f ∙ rw (accepted, changed, moved) refl

-- A live DNSRecord that does not hold the finalizer gets it, before any provider is called.
pub calls_of_free :
    (σ : Setting) (s : DnsRecord) (f : List Call → DnsRecord → Reconciled)
    → IsLive σ.spec s
    → has_finalizer s.metadata.finalizers ≡ false
    → (reconcile σ.deps (world_with σ.world s f) σ.req []).1
      ≡ update (record s {
        metadata = record s.metadata {
          finalizers = s.metadata.finalizers ++ record_finalizer ∷ [];
        };
      })
        ∷ get σ.req
        ∷ []
unfolding reconcile converted
calls_of_free σ s f l free = rw (default_live σ s l, converts_live σ s l, l.live, free) refl

-- A DNSRecord that is marked for deletion, with any provider that answers ok and changes the status:
-- the status is written.
pub calls_of_cleared :
    (deps : Deps) (w : World) (req : Key) (s r : DnsRecord) (rr : Rr)
    (f : List Call → DnsRecord → Reconciled)
    → default deps s ≡ s
    → to_rr deps s ≡ ok rr
    → is_some s.metadata.deletion_timestamp ≡ true
    → (f (get req ∷ []) s).ok ≡ true
    → (f (get req ∷ []) s).changed ≡ r
    → status_moved r.status s.status ≡ true
    → (reconcile deps (world_with w s f) req []).1 ≡ update_status r ∷ provide s ∷ get req ∷ []
unfolding reconcile converted call_provider removed
calls_of_cleared deps w req s r rr f defaulted converts dying accepted changed moved =
    rw (defaulted, converts, dying, accepted, changed, moved) refl
