-- ===== src/Controllers/Records/Safety.antt =====
-- What one reconciliation of a DNSRecord may do to the outside, whatever the outside answers.
use k8s_dns_manager.Prelude.{
  ◌+◌, ◌≤◌, ◌≡◌, refl, Bool, true, ◌⊎◌, inl, inr, List, [], ◌∷◌, Text, codes, Error, Result, ok,
  err, not_found, is_some, All, arith, Bool-cases,
}
use k8s_dns_manager.Deps.{Deps, Rr}
use k8s_dns_manager.Api.{DnsRecord}
use k8s_dns_manager.Webhook.Default.{default}
use k8s_dns_manager.Controllers.{
  Key, Question, Message, Reconciled, Call, get, provide, exchange, World,
}
use k8s_dns_manager.Controllers.Server.{writes}
use k8s_dns_manager.Controllers.Finalizers.{has_finalizer}
use k8s_dns_manager.Controllers.Records.{
  exchange_loop, question, lookup, removed, verified, provided, converted, fetched, call_provider,
  reconcile,
}

-- The provider is called for a record that is marked for deletion or holds the finalizer.
abbrev pub IsGuarded : Call → Type 0
IsGuarded (provide r) =
    (is_some r.metadata.deletion_timestamp ≡ true) ⊎ (has_finalizer r.metadata.finalizers ≡ true)
IsGuarded _ = Unit

module _ (deps : Deps) (w : World) where
  writes-exchange_loop :
      (q : Question) (last : Result Message) (nets : List Text) (log : List Call)
      → writes (exchange_loop deps w q last nets log).1 ≡ writes log
  unfolding exchange_loop
  writes-exchange_loop q last [] log = refl
  writes-exchange_loop q last (net ∷ nets) log =
      ground (arith, writes-exchange_loop q (w.on_exchange log net q) nets (exchange net q ∷ log))

  writes-lookup : (rr : Rr) (log : List Call) → writes (lookup deps w rr log).1 ≡ writes log
  unfolding lookup
  writes-lookup rr log =
      writes-exchange_loop (question deps w rr) (err (Error.external []))
        (codes "udp" ∷ codes "tcp" ∷ []) log

  writes-verified :
      (rec : DnsRecord) (r : Result Bool) (log : List Call)
      → writes (verified deps w rec r log).1 ≤ writes log + 1
  unfolding verified
  writes-verified rec r log = ground arith

  writes-provided :
      (rr : Rr) (o : DnsRecord) (p : Reconciled) (log : List Call)
      → writes (provided deps w rr o p log).1 ≤ writes log + 1
  unfolding provided
  writes-provided rr o p log = ground (
    arith,
    writes-lookup rr log,
    writes-verified p.changed (lookup deps w rr log).0 (lookup deps w rr log).1,
  )

  writes-removed :
      (req : Key) (o : DnsRecord) (p : Reconciled) (log : List Call)
      → writes (removed deps w req o p log).1 ≤ writes log + 1
  unfolding removed
  writes-removed req o p log = ground arith

  writes-converted :
      (req : Key) (rec : DnsRecord) (r : Result Rr) (log : List Call)
      → writes (converted deps w req rec r log).1 ≤ writes log + 1
  unfolding converted call_provider
  writes-converted req rec (err e) log = ground arith
  writes-converted req rec (ok rr) log = ground (
    arith,
    writes-removed req rec (w.on_provide log rec) (provide rec ∷ log),
    writes-provided rr rec (w.on_provide log rec) (provide rec ∷ log),
  )

  writes-fetched :
      (req : Key) (r : Result DnsRecord) (log : List Call)
      → writes (fetched deps w req r log).1 ≤ writes log + 1
  unfolding fetched
  writes-fetched req (err (not_found _)) log = omega arith
  writes-fetched req (err e) log = omega arith
  writes-fetched req (ok got) log = writes-converted req (default deps got) _ log

  -- Whatever the API server, the provider and the verification server answer, one reconciliation
  -- writes to the API server at most once.
  pub writes-reconcile : (req : Key) → writes (reconcile deps w req []).1 ≤ 1
  unfolding reconcile
  writes-reconcile req = writes-fetched req (w.on_get [] req) (get req ∷ [])

  exchange_loop-IsGuarded :
      (q : Question) (last : Result Message) (nets : List Text) (log : List Call)
      → All IsGuarded log
      → All IsGuarded (exchange_loop deps w q last nets log).1
  unfolding exchange_loop
  exchange_loop-IsGuarded q last [] log h = h
  exchange_loop-IsGuarded q last (net ∷ nets) log h = ground (
    arith,
    exchange_loop-IsGuarded q (w.on_exchange log net q) nets (exchange net q ∷ log) (tt, h),
  )

  lookup-IsGuarded :
      (rr : Rr) (log : List Call) → All IsGuarded log → All IsGuarded (lookup deps w rr log).1
  unfolding lookup
  lookup-IsGuarded rr log h =
      exchange_loop-IsGuarded (question deps w rr) (err (Error.external []))
        (codes "udp" ∷ codes "tcp" ∷ []) log h

  verified-IsGuarded :
      (rec : DnsRecord) (r : Result Bool) (log : List Call)
      → All IsGuarded log
      → All IsGuarded (verified deps w rec r log).1
  unfolding verified
  verified-IsGuarded rec r log h = ground arith

  provided-IsGuarded :
      (rr : Rr) (o : DnsRecord) (p : Reconciled) (log : List Call)
      → All IsGuarded log
      → All IsGuarded (provided deps w rr o p log).1
  unfolding provided
  provided-IsGuarded rr o p log h = ground (
    arith,
    verified-IsGuarded p.changed (lookup deps w rr log).0 (lookup deps w rr log).1
        (lookup-IsGuarded rr log h),
  )

  removed-IsGuarded :
      (req : Key) (o : DnsRecord) (p : Reconciled) (log : List Call)
      → All IsGuarded log
      → All IsGuarded (removed deps w req o p log).1
  unfolding removed
  removed-IsGuarded req o p log h = ground arith

  converted-IsGuarded :
      (req : Key) (rec : DnsRecord) (r : Result Rr) (log : List Call)
      → All IsGuarded log
      → All IsGuarded (converted deps w req rec r log).1
  unfolding converted call_provider
  converted-IsGuarded req rec (err e) log h = ground arith
  converted-IsGuarded req rec (ok rr) log h =
      elim (Bool-cases (is_some rec.metadata.deletion_timestamp)) [
        | inl dead ↦
            rw dead
              (removed-IsGuarded req rec (w.on_provide log rec) (provide rec ∷ log) (inl dead, h))
        | inr live ↦ elim (Bool-cases (has_finalizer rec.metadata.finalizers)) [
          | inl held ↦
              rw (live, held)
                (provided-IsGuarded rr rec (w.on_provide log rec) (provide rec ∷ log) (inr held, h))
          | inr free ↦ rw (live, free) (tt, h)
        ]
      ]

  fetched-IsGuarded :
      (req : Key) (r : Result DnsRecord) (log : List Call)
      → All IsGuarded log
      → All IsGuarded (fetched deps w req r log).1
  unfolding fetched
  fetched-IsGuarded req (err (not_found _)) log h = h
  fetched-IsGuarded req (err e) log h = h
  fetched-IsGuarded req (ok got) log h = converted-IsGuarded req (default deps got) _ log h

  -- Whatever the outside answers, a reconciliation calls the provider only for a record that is
  -- marked for deletion or already holds the finalizer.
  pub reconcile-IsGuarded : (req : Key) → All IsGuarded (reconcile deps w req []).1
  unfolding reconcile
  reconcile-IsGuarded req = fetched-IsGuarded req (w.on_get [] req) (get req ∷ []) (tt, tt)
