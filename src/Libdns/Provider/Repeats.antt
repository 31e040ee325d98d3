-- ===== src/Libdns/Provider/Repeats.antt =====
-- What a second reconciliation of the libdns provider does, over a client that keeps what it
-- documents.
use k8s_dns_manager.Prelude.{◌≡◌, ◌≢◌, refl, ◌∙◌, true, false, none, some, List, [], ◌∷◌, Text, All}
use k8s_dns_manager.Deps.{Deps, Rr}
use k8s_dns_manager.Api.{DnsRecord}
use k8s_dns_manager.Libdns.{LibRecord, ClientCall, get_records, append_records, delete_records}
use k8s_dns_manager.Libdns.Names.{make_record, fqdn_rec}
use k8s_dns_manager.Libdns.Provider.{
  Prov, accept, find_id, is_unwanted, is_fatal, same_record, update, ensure, listed, reconcile,
}
use k8s_dns_manager.Libdns.Provider.Ownership.{IsOwn, reconcile-IsOwn}
use k8s_dns_manager.Libdns.Provider.Store.{
  Store, Unfailing, reconcile-listed, resumed, is_foreign, IsRead,
}

module _ (deps : Deps) (p : Prov) (store : Store deps p) (unfailing : Unfailing p) where
  -- Where the zone holds a record of the id that says what is wanted, nothing is called but the
  -- listing.
  listed-up_to_date :
      (q : Prov) (rec : DnsRecord) (rr : Rr) (zone : Text) (recs : List LibRecord) (r : LibRecord)
      (log : List ClientCall)
      → is_unwanted rec ≡ false
      → find_id rec.status.id recs ≡ some r
      → same_record deps q
          (fqdn_rec deps q.absolute_name r zone)
          (make_record deps rr zone rec.status.id)
        ≡ true
      → listed deps q rec rr zone recs none log ≡ (accept rec, log)
  unfolding listed ensure update is_fatal
  listed-up_to_date q rec rr zone recs r log kept f same = rw (kept, f, same) refl

  -- A record whose zone has a record of its id that says what is wanted is only read.
  pub repeated :
      (rec : DnsRecord) (rr : Rr) (d : Text) (before : List ClientCall) (r : LibRecord)
      → IsRead deps rec rr d
      → is_foreign p rec ≡ false
      → is_unwanted rec ≡ false
      → find_id rec.status.id (store.contents before (deps.fqdn d)) ≡ some r
      → same_record deps p
          (fqdn_rec deps p.absolute_name r (deps.fqdn d))
          (make_record deps rr (deps.fqdn d) rec.status.id)
        ≡ true
      → reconcile deps (resumed p before) rec ≡ (accept rec, get_records (deps.fqdn d) ∷ [])
  repeated rec rr d before r read ours kept f same =
      reconcile-listed deps p store rec rr d before unfailing read ours
      ∙ listed-up_to_date (resumed p before) rec rr (deps.fqdn d)
          (store.contents before (deps.fqdn d)) r (get_records (deps.fqdn d) ∷ []) kept f same

  -- A record of another id stays in the zone through the calls.
  others_kept :
      (rec : DnsRecord) (calls : List ClientCall) (z i : Text) (v : LibRecord)
      → All (IsOwn deps p rec) calls
      → i ≢ rec.status.id
      → find_id i (store.contents [] z) ≡ some v
      → find_id i (store.contents calls z) ≡ some v
  others_kept rec [] z i v own other f = f
  others_kept rec (get_records y ∷ calls) z i v own other f =
      rw (store.listing calls y z) (others_kept rec calls z i v own.1 other f)
  others_kept rec (append_records y r ∷ calls) z i v own other f =
      store.kept calls y z i r v (others_kept rec calls z i v own.1 other f)
  others_kept rec (delete_records y r ∷ calls) z i v own other f =
      store.others calls y z i r v (λ e. other (e ∙ own.0))
        (others_kept rec calls z i v own.1 other f)

  -- Over a client that keeps what it documents, every record of a zone that is not of the id of
  -- the DNSRecord's status is in the zone after a reconciliation as it was before, whatever the
  -- reconciliation answers.
  pub reconcile-others_kept :
      (rec : DnsRecord) (z i : Text) (v : LibRecord)
      → i ≢ rec.status.id
      → find_id i (store.contents [] z) ≡ some v
      → find_id i (store.contents (reconcile deps p rec).1 z) ≡ some v
  reconcile-others_kept rec z i v other f =
      others_kept rec (reconcile deps p rec).1 z i v (reconcile-IsOwn deps p rec).0 other f
