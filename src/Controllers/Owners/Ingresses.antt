-- ===== src/Controllers/Owners/Ingresses.antt =====
-- IngressReconciler.Reconcile (controllers/ingress_controller.go): its writes, and the names of its
-- records.
use k8s_dns_manager.Prelude.{
  ◌≡◌, ℕ, List, [], ◌∷◌, ◌++◌, Text, codes, Result, ok, is_some, lookup, if◌then◌else◌, Bool-cases,
  inl, inr,
}
use k8s_dns_manager.GoStrings.{replace_byte}
use k8s_dns_manager.GoStrings.Laws.{replace_byte-append}
use k8s_dns_manager.Deps.{Deps}
use k8s_dns_manager.Api.{DnsRecord}
use k8s_dns_manager.Controllers.{Key, done, Call, get, list, delete, update, create, World}
use k8s_dns_manager.Controllers.Children.{
  Ownership, children_of, child_records, ignore_not_found, diff_records, record_name,
}
use k8s_dns_manager.Controllers.Children.Writes.{
  made, Accepts, call_all-made, reconcile_child_records-made,
}
use k8s_dns_manager.Controllers.Owners.{
  Ingress, ingress_annotation, ignored_annotation, children, ingress_records, reconcile_ingress,
}

module _ (deps : Deps) (o : Ownership) (w : World) (fetch : List Call → Key → Result Ingress)
    (req : Key) where
  -- what is called before the records are written
  abbrev pub ingress_reads : Ingress → List Call
  ingress_reads ing = list ing.metadata.namespace ∷ list req.namespace ∷ get req ∷ []

  -- The API server returns the Ingress, and the lists of which `got` are the Ingress's records.
  pub record IngressReads (ing : Ingress) (got : List DnsRecord) : Type 0 where
    pub items : List DnsRecord
    pub others : List DnsRecord
    pub fetched : fetch [] req ≡ ok ing
    pub first : w.on_list (get req ∷ []) req.namespace ≡ ok others
    pub second : w.on_list (list req.namespace ∷ get req ∷ []) ing.metadata.namespace ≡ ok items
    pub owned : children_of o ingress_annotation ing.metadata items ≡ ok got

  children-ingress_reads :
      (ing : Ingress) (got : List DnsRecord)
      → IngressReads ing got
      → children deps o w ing.metadata ingress_annotation req (get req ∷ [])
        ≡ (ok got, ingress_reads ing)
  unfolding children child_records
  children-ingress_reads ing got r = rw (r.first, r.second, r.owned)

  -- Where the API server is read without an error and no write fails, the reconciliation of an
  -- Ingress succeeds. If the Ingress is ignored, it deletes every record of the Ingress and makes
  -- no other write. Otherwise, with the records that the Ingress asks for, it makes the deletions,
  -- the creations and the updates of diffRecords, in this order, and no other write.
  pub reconcile_ingress-made :
      (ing : Ingress) (got want : List DnsRecord)
      → IngressReads ing got
      → Accepts w
      → ingress_records deps o ing ≡ ok want
      → reconcile_ingress deps o w fetch req [] ≡ (
        done,
        if is_some (lookup ignored_annotation ing.metadata.annotations)
            then made delete got (ingress_reads ing)
            else made update (diff_records got want).update (
                made create
                  (diff_records got want).add
                  (made delete (diff_records got want).del (ingress_reads ing))),
      )
  unfolding reconcile_ingress
  reconcile_ingress-made ing got want r a asked =
      rw (r.fetched, children-ingress_reads ing got r)
        (elim (Bool-cases (is_some (lookup ignored_annotation ing.metadata.annotations))) [
          | inl back ↦
              rw (back, call_all-made w ignore_not_found delete got (ingress_reads ing) a.deletes)
          | inr kept ↦
              rw (kept, asked) (reconcile_child_records-made w got want (ingress_reads ing) a)
        ])

-- Two hosts that differ in a dot where the other has a dash give their records the same names.
pub record_name-dash :
    (name typ s t : Text) (i : ℕ)
    → record_name name typ (s ++ b'.' ∷ t) i ≡ record_name name typ (s ++ b'-' ∷ t) i
unfolding record_name replace_byte
record_name-dash name typ s t i = rw (
  replace_byte-append s (b'.' ∷ t) b'.' (codes "-"),
  replace_byte-append s (b'-' ∷ t) b'.' (codes "-"),
)
