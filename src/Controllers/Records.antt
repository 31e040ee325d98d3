-- ===== src/Controllers/Records.antt =====
-- DNSRecordReconciler.Reconcile and `lookup` of controllers/dnsrecord_controller.go, run for one
-- key while its mutex is held. The log lines are left out.
pub mod Safety
pub mod Deletion
pub mod Convergence
pub mod Rounds
pub mod Providers
use k8s_dns_manager.Prelude.{
  ℕ, Bool, true, false, not, ◌&&◌, ◌||◌, Option, none, some, List, [], ◌∷◌, ◌++◌, Text, codes,
  Error, Result, ok, err, not_found, is_some, text_eq, any, if◌then◌else◌,
}
use k8s_dns_manager.Deps.{Deps, Rr}
use k8s_dns_manager.Api.{DnsRecordStatus, DnsRecord}
use k8s_dns_manager.Webhook.Default.{default}
use k8s_dns_manager.Ptr.{to_bool_d}
use k8s_dns_manager.Record.{to_rr}
use k8s_dns_manager.Errors.{error_text}
use k8s_dns_manager.Controllers.{
  Key, Question, Message, Outcome, done, failed, Reconciled, Call, get, update, update_status,
  provide, exchange, event, warn, World, Run, ◌>>=◌, ◌>>◌, pure, last_write, emit,
}
use k8s_dns_manager.Controllers.Finalizers.{record_finalizer, has_finalizer, remove_finalizer}

unfoldable pub record_state : Bool → Text
record_state active = if active then codes "active" else codes "inactive"

-- NamespacedName.String
abbrev pub key_string : Key → Text
key_string k = k.namespace ++ (codes "/" ++ k.name)

abbrev bool_eq : Bool → Bool → Bool
bool_eq true b = b
bool_eq false b = not b

-- `rec.Status.Provider != o.Status.Provider || rec.Status.ID != o.Status.ID`
unfoldable pub status_moved : DnsRecordStatus → DnsRecordStatus → Bool
status_moved s o = not (text_eq s.provider o.provider) || not (text_eq s.id o.id)

abbrev is_truncated : Result Message → Bool
is_truncated (ok m) = m.truncated
is_truncated (err _) = true

module _ (deps : Deps) (w : World) where
  -- The loop over the networks; `last` is what `res` and `err` hold.
  exchange_loop : Question → Result Message → List Text → Run (Result Message)
  exchange_loop q last [] log = (last, log)
  exchange_loop q last (net ∷ nets) log =
      let res = w.on_exchange log net q in
      let again = exchange_loop q res nets (exchange net q ∷ log) in
      if is_truncated res then again else (res, exchange net q ∷ log)

  answered : Rr → Result Message → Result Bool
  answered rr (err e) = err e
  answered rr (ok m) = ok (any (λ v. deps.is_duplicate v rr) m.answer)

  abbrev pub question : Rr → Question
  question rr = record { name = rr.header.name; qtype = rr.header.rrtype; qclass = rr.header.class }

  unfoldable pub lookup : Rr → Run (Result Bool)
  unfolding exchange_loop answered
  lookup rr = do
    res ← exchange_loop (question rr) (err (Error.external [])) (codes "udp" ∷ codes "tcp" ∷ [])
    pure (answered rr res)

  -- The record is marked for deletion and the provider has answered.
  removed : Key → DnsRecord → Reconciled → Run Outcome
  removed req o p =
      if not p.ok
      then pure p.outcome
      else if status_moved p.changed.status o.status
      then last_write w (update_status p.changed)
      else (do
        emit (event (codes "Deleted") (codes "Deleted DNSRecord " ++ key_string req))
        elim (remove_finalizer p.changed.metadata.finalizers) [
          | none ↦ pure done
          | some fins ↦ last_write w (
              update
                (record p.changed { metadata = record p.changed.metadata { finalizers = fins } }))
        ])

  -- The answer of the verification server is compared with the status and with the specification.
  -- The code logs `*rec.Spec.Active` where the latter differs: Default has set it.
  verified : DnsRecord → Result Bool → Run Outcome
  verified rec (err e) = pure (failed e)
  verified rec (ok found) =
      if not (bool_eq (to_bool_d rec.status.active false) found)
      then (do
        (if found
            then pure tt
            else emit (warn (codes "Warning") (codes "record " ++ record_state found)))
        last_write w
            (update_status (record rec { status = record rec.status { active = some found } })))
      else if not (bool_eq (to_bool_d rec.spec.active true) found)
      then pure (record { requeue_after = some 1; error = none })
      else (do emit (event (codes "Success") (codes "record " ++ record_state found)); pure done)

  -- The record is live and the provider has answered.
  provided : Rr → DnsRecord → Reconciled → Run Outcome
  provided rr o p =
      if not p.ok
      then pure p.outcome
      else if status_moved p.changed.status o.status
          || not (text_eq p.changed.status.printed (deps.rr_string rr))
      then last_write w (
          update_status
            (record p.changed { status = record p.changed.status { printed = deps.rr_string rr } }))
      else (do found ← lookup rr; verified p.changed found)

  call_provider : DnsRecord → Run Reconciled
  call_provider rec log = (w.on_provide log rec, provide rec ∷ log)

  -- The record is fetched, defaulted and converted.
  converted : Key → DnsRecord → Result Rr → Run Outcome
  converted req rec (err e) = do emit (warn (codes "Error") (error_text e)); pure (failed e)
  converted req rec (ok rr) =
      if is_some rec.metadata.deletion_timestamp
      then (do p ← call_provider rec; removed req rec p)
      else if not (has_finalizer rec.metadata.finalizers)
      then last_write w (
          update (record rec {
            metadata = record rec.metadata {
              finalizers = rec.metadata.finalizers ++ record_finalizer ∷ [];
            };
          }))
      else (do p ← call_provider rec; provided rr rec p)

  fetched : Key → Result DnsRecord → Run Outcome
  fetched req (err (not_found _)) = pure done
  fetched req (err e) = pure (failed e)
  fetched req (ok got) = converted req (default deps got) (to_rr deps (default deps got))

  unfoldable pub reconcile : Key → Run Outcome
  unfolding fetched converted call_provider provided verified removed lookup
  reconcile req log = fetched req (w.on_get log req) (get req ∷ log)
