-- ===== src/Controllers/Children/Writes.antt =====
-- The writes of reconcileChildRecords, on success and on failure.
use k8s_dns_manager.Prelude.{
  ◌≡◌, refl, ◌∙◌, ap, Option, none, some, List, [], ◌∷◌, Error, arith, Option-cases, inl, inr,
  not_found,
}
use k8s_dns_manager.Api.{DnsRecord}
use k8s_dns_manager.Controllers.{Outcome, done, Call, create, update, delete, World}
use k8s_dns_manager.Controllers.Children.{
  diff_records, ignore_not_found, call_all, delete_all, keep_error, or_fail, stop_or,
  reconcile_child_records,
}

-- The calls for a list of records, made one after the other behind `log`.
abbrev pub made : (DnsRecord → Call) → List DnsRecord → List Call → List Call
made call [] log = log
made call (v ∷ vs) log = made call vs (call v ∷ log)

module _ (w : World) where
  -- No write fails; a deletion may find nothing.
  pub record Accepts : Type 0 where
    pub deletes :
        (log : List Call) (r : DnsRecord) → ignore_not_found (w.on_write log (delete r)) ≡ none
    pub creates : (log : List Call) (r : DnsRecord) → w.on_write log (create r) ≡ none
    pub updates : (log : List Call) (r : DnsRecord) → w.on_write log (update r) ≡ none

  pub call_all-made :
      (ignore : Option Error → Option Error) (call : DnsRecord → Call) (vs : List DnsRecord)
      (log : List Call)
      → ((l : List Call) (r : DnsRecord) → ignore (w.on_write l (call r)) ≡ none)
      → call_all w ignore call vs log ≡ (none, made call vs log)
  unfolding call_all
  call_all-made ignore call [] log h = refl
  call_all-made ignore call (v ∷ vs) log h =
      rw (h log v, stop_or) (call_all-made ignore call vs (call v ∷ log) h)

  -- If no write fails, but for deletions that find nothing, reconcileChildRecords succeeds, and it
  -- has deleted, then created, then updated exactly the records of diffRecords, in its order.
  pub reconcile_child_records-made :
      (got want : List DnsRecord) (log : List Call)
      → Accepts
      → reconcile_child_records w got want log ≡ (
        done,
        made update
            (diff_records got want).update
            (made create (diff_records got want).add (made delete (diff_records got want).del log)),
      )
  unfolding reconcile_child_records
  reconcile_child_records-made got want log h =
      let d = diff_records got want in
      rw (
        call_all-made ignore_not_found delete d.del log h.deletes,
        call_all-made keep_error create d.add (made delete d.del log) h.creates,
        call_all-made keep_error update d.update (made create d.add (made delete d.del log))
            h.updates,
      )

  -- The last call was answered by the error.
  abbrev pub EndsIn : Error → List Call → Type 0
  EndsIn e log = (c : Call) × (rest : List Call) × (log ≡ c ∷ rest) × (w.on_write rest c ≡ some e)

  ignore_not_found-eq-some :
      (o : Option Error) (e : Error) → ignore_not_found o ≡ some e → o ≡ some e
  ignore_not_found-eq-some none e h = cc
  ignore_not_found-eq-some (some (not_found t)) e h = cc
  ignore_not_found-eq-some (some x) e h = h

  call_all-EndsIn :
      (ignore : Option Error → Option Error) (call : DnsRecord → Call)
      → ((o : Option Error) (e : Error) → ignore o ≡ some e → o ≡ some e)
      → (vs : List DnsRecord) (log : List Call) (e : Error)
      → (call_all w ignore call vs log).0 ≡ some e
      → EndsIn e (call_all w ignore call vs log).1
  unfolding call_all
  call_all-EndsIn ignore call sound [] log e h = cc
  call_all-EndsIn ignore call sound (v ∷ vs) log e h =
      elim (Option-cases (ignore (w.on_write log (call v)))) [
        | inl fine ↦
            rw (fine, stop_or)
              (call_all-EndsIn ignore call sound vs (call v ∷ log) e (rw (fine, stop_or) at h))
        | inr (x, bad) ↦
            let same : x ≡ e = ground arith in
            rw (bad, stop_or) (call v, log, refl, sound _ e (bad ∙ ap some same))
      ]

  keep_error-eq-some : (o : Option Error) (e : Error) → keep_error o ≡ some e → o ≡ some e
  keep_error-eq-some o e h = h

  or_fail-EndsIn :
      (r : Option Error × List Call) (e : Error)
      → (r.0 ≡ some e → EndsIn e r.1)
      → (rest : List Call → Outcome × List Call)
      → ((log : List Call) → (rest log).0.error ≡ some e → EndsIn e (rest log).1)
      → (or_fail r.0 rest r.1).0.error ≡ some e
      → EndsIn e (or_fail r.0 rest r.1).1
  or_fail-EndsIn (none, log) e bad rest later h = later log h
  or_fail-EndsIn (some x, log) e bad rest later h = bad h

  -- If reconcileChildRecords returns an error, the last call that it made was answered by that
  -- error: nothing is written after a failed write.
  pub reconcile_child_records-EndsIn :
      (got want : List DnsRecord) (log : List Call) (e : Error)
      → (reconcile_child_records w got want log).0.error ≡ some e
      → EndsIn e (reconcile_child_records w got want log).1
  unfolding reconcile_child_records
  reconcile_child_records-EndsIn got want log e =
      let d = diff_records got want in
      or_fail-EndsIn (delete_all w d.del log) e
        (call_all-EndsIn ignore_not_found delete ignore_not_found-eq-some d.del log e) _
        λ l₁.
          or_fail-EndsIn (call_all w keep_error create d.add l₁) e
            (call_all-EndsIn keep_error create keep_error-eq-some d.add l₁ e) _
            λ l₂.
              or_fail-EndsIn (call_all w keep_error update d.update l₂) e
                (call_all-EndsIn keep_error update keep_error-eq-some d.update l₂ e) _ λ l₃ h. cc
