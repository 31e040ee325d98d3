-- ===== src/Libdns/Provider.antt =====
-- `Reconcile` of pkg/provider/libdns/libdns.go, for the provider of a name. It returns what the
-- controller sees, with the changed record, and the calls of the client.
pub mod Ownership
pub mod Outcomes
pub mod Failures
pub mod Store
pub mod Stable
pub mod Contents
pub mod Repeats
use k8s_dns_manager.Prelude.{
  ℕ, Bool, true, false, not, ◌&&◌, ◌||◌, Option, none, some, List, [], ◌∷◌, Text, codes, Error,
  malformed_name, record_already_exists, expected_one_record, Result, ok, err, length, ltb, ◌==◌,
  is_some, text_eq, if◌then◌else◌,
}
use k8s_dns_manager.GoStrings.{to_lower, contains, join}
use k8s_dns_manager.Deps.{Deps, Rr}
use k8s_dns_manager.Api.{DnsRecordStatus, DnsRecord}
use k8s_dns_manager.Record.{to_rr}
use k8s_dns_manager.Errors.{error_text}
use k8s_dns_manager.Controllers.{Outcome, done, failed, Reconciled}
use k8s_dns_manager.Libdns.{
  LibRecord, ClientCall, get_records, append_records, delete_records, Client,
}
use k8s_dns_manager.Libdns.Names.{make_record, fqdn, fqdn_rec}

-- What the type `prov` holds, with AbsoluteName of package libdns.
pub record Prov : Type 0 where
  pub name : Text
  pub client : Client
  pub absolute_name : Text → Text → Text

abbrev pub Answer : Type 0
Answer = Reconciled × List ClientCall

abbrev pub refuse : DnsRecord → Error → Reconciled
refuse rec e = record { outcome = failed e; ok = false; changed = rec }

abbrev pub refused_by : DnsRecord → Option Error → Reconciled
refused_by rec e = record {
  outcome = record { requeue_after = none; error = e };
  ok = false;
  changed = rec;
}

abbrev pub accept : DnsRecord → Reconciled
accept rec = record { outcome = done; ok = true; changed = rec }

-- `rec.Status.Provider = p; rec.Status.ID = id`
abbrev pub with_status : DnsRecord → Text → Text → DnsRecord
with_status rec provider id = record rec {
  status = record rec.status { provider = provider; id = id };
}

-- The first record of the id.
unfoldable pub find_id : Text → List LibRecord → Option LibRecord
find_id id [] = none
find_id id (v ∷ vs) = if text_eq v.id id then some v else find_id id vs

-- The record is marked for deletion, or deactivated.
unfoldable pub is_unwanted : DnsRecord → Bool
is_unwanted rec =
    is_some rec.metadata.deletion_timestamp
    || (elim rec.spec.active [ none ↦ false | some b ↦ not b ])

-- An error of GetRecords ends the reconciliation unless it says "not found" or there is no id yet.
unfoldable pub is_fatal : Option Error → Text → Bool
is_fatal none id = false
is_fatal (some e) id =
    not (contains (to_lower (error_text e)) (codes "not found")) && not (text_eq id [])

module _ (deps : Deps) (p : Prov) where
  -- The first record that already says what is wanted.
  unfoldable pub find_same : LibRecord → Text → List LibRecord → Option LibRecord
  find_same want zone [] = none
  find_same want zone (v ∷ vs) =
      if text_eq (fqdn deps p.absolute_name v.name zone) want.name
        && text_eq v.rtype want.rtype
        && text_eq v.value want.value
      then some v
      else find_same want zone vs

  abbrev pub same_record : LibRecord → LibRecord → Bool
  same_record r want =
      text_eq r.name want.name
      && text_eq r.value want.value
      && text_eq r.rtype want.rtype
      && (r.ttl == want.ttl)

  -- The answer of AppendRecords.
  appended : DnsRecord → Result (List LibRecord) → Reconciled
  appended rec (err e) = refuse rec e
  appended rec (ok (r ∷ [])) = accept (with_status rec p.name r.id)
  appended rec (ok rs) = refuse rec (expected_one_record (length rs))

  append : DnsRecord → Text → LibRecord → List ClientCall → Answer
  append rec zone want log =
      (appended rec (p.client.on_append log zone want), append_records zone want ∷ log)

  removed : DnsRecord → Option Error → Reconciled
  removed rec (some e) = refuse rec e
  removed rec none = accept (with_status rec [] [])

  remove : DnsRecord → Text → Option LibRecord → List ClientCall → Answer
  remove rec zone none log = (accept (with_status rec [] []), log)
  remove rec zone (some r) log =
      (removed rec (p.client.on_delete log zone r), delete_records zone r ∷ log)

  -- There is no record of the id: one is created unless its like exists.
  create : DnsRecord → Text → LibRecord → Option LibRecord → List ClientCall → Answer
  create rec zone want (some v) log = (refuse rec (record_already_exists v.name), log)
  create rec zone want none log = append rec zone want log

  recreate : DnsRecord → Text → LibRecord → Option Error → List ClientCall → Answer
  recreate rec zone want (some e) log = (refuse rec e, log)
  recreate rec zone want none log = append rec zone want log

  -- There is a record of the id, `r` with its names made absolute.
  update : DnsRecord → Text → LibRecord → LibRecord → List ClientCall → Answer
  update rec zone want r log =
      if same_record r want
      then (accept rec, log)
      else recreate rec zone want (p.client.on_delete log zone r) (delete_records zone r ∷ log)

  ensure :
      DnsRecord → Text → LibRecord → List LibRecord → Option LibRecord → List ClientCall → Answer
  ensure rec zone want recs none log = create rec zone want (find_same want zone recs) log
  ensure rec zone want recs (some r) log =
      update rec zone want (fqdn_rec deps p.absolute_name r zone) log

  pub listed : DnsRecord → Rr → Text → List LibRecord → Option Error → List ClientCall → Answer
  listed rec rr zone recs e log =
      if is_fatal e rec.status.id
      then (refused_by rec e, log)
      else if is_unwanted rec
      then remove rec zone (find_id rec.status.id recs) log
      else ensure rec zone (make_record deps rr zone rec.status.id) recs
          (find_id rec.status.id recs) log

  in_domain : DnsRecord → Rr → Result Text → Answer
  in_domain rec rr (err e) = (refuse rec e, [])
  in_domain rec rr (ok d) =
      let zone = deps.fqdn d in
      listed rec rr zone (p.client.on_get [] zone).0 (p.client.on_get [] zone).1
        (get_records zone ∷ [])

  converted : DnsRecord → Result Rr → Answer
  converted rec (err e) = (refuse rec e, [])
  converted rec (ok rr) =
      let parts = deps.split_domain_name rr.header.name in
      if ltb (length parts) 2
      then (refuse rec (malformed_name rr.header.name), [])
      else in_domain rec rr (deps.domain (join parts (codes ".")))

  unfoldable pub reconcile : DnsRecord → Answer
  unfolding converted in_domain listed ensure update recreate create remove removed append appended
  reconcile rec =
      if not (text_eq rec.status.provider []) && not (text_eq rec.status.provider p.name)
      then (record { outcome = done; ok = false; changed = rec }, [])
      else converted rec (to_rr deps rec)
