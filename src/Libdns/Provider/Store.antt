-- ===== src/Libdns/Provider/Store.antt =====
-- The libdns provider over a client that keeps what it documents: a zone is a store of records by
-- their ids.
use k8s_dns_manager.Prelude.{
  ◌≡◌, ◌≢◌, refl, ◌∙◌, Bool, true, false, not, ◌&&◌, inl, inr, none, some, List, [], ◌∷◌, ◌++◌,
  Text, codes, ok, text_eq, arith, Bool-cases, Result-cases, length, ltb,
}
use k8s_dns_manager.GoStrings.{join}
use k8s_dns_manager.Deps.{Deps, Rr}
use k8s_dns_manager.Api.{DnsRecord}
use k8s_dns_manager.Record.{to_rr}
use k8s_dns_manager.Libdns.{LibRecord, ClientCall, get_records, append_records, delete_records}
use k8s_dns_manager.Libdns.Provider.{
  Prov, accept, with_status, find_id, is_unwanted, is_fatal, remove, listed, in_domain, converted,
  reconcile,
}

-- What package libdns documents of a client: GetRecords without an error lists the zone, AppendRecords
-- creates the record under an id of its own and returns it, DeleteRecords deletes the record.
-- `contents` is the zone after the calls.
pub record Store (deps : Deps) (p : Prov) : Type 0 where
  pub contents : List ClientCall → Text → List LibRecord
  pub lists :
      (log : List ClientCall) (z : Text)
      → (p.client.on_get log z).1 ≡ none
      → (p.client.on_get log z).0 ≡ contents log z
  pub listing :
      (log : List ClientCall) (y z : Text) → contents (get_records y ∷ log) z ≡ contents log z
  pub created :
      (log : List ClientCall) (z : Text) (r x : LibRecord)
      → p.client.on_append log z r ≡ ok (x ∷ [])
      → find_id x.id (contents (append_records z r ∷ log) z) ≡ some x
  pub populated :
      (log : List ClientCall) (z : Text) (r x : LibRecord)
      → p.client.on_append log z r ≡ ok (x ∷ [])
      → x ≡ record r { id = x.id }
  pub kept :
      (log : List ClientCall) (y z i : Text) (r v : LibRecord)
      → find_id i (contents log z) ≡ some v
      → find_id i (contents (append_records y r ∷ log) z) ≡ some v
  pub deleted :
      (log : List ClientCall) (z : Text) (r : LibRecord)
      → p.client.on_delete log z r ≡ none
      → find_id r.id (contents (delete_records z r ∷ log) z) ≡ none
  pub others :
      (log : List ClientCall) (y z i : Text) (r v : LibRecord)
      → i ≢ r.id
      → find_id i (contents log z) ≡ some v
      → find_id i (contents (delete_records y r ∷ log) z) ≡ some v

-- GetRecords answers without an error.
abbrev pub Unfailing : Prov → Type 0
Unfailing p = (log : List ClientCall) (z : Text) → (p.client.on_get log z).1 ≡ none

-- The provider after some calls: its client answers by what was called before, too.
abbrev pub resumed : Prov → List ClientCall → Prov
resumed p before = record p {
  client = record {
    on_get = λ log z. p.client.on_get (log ++ before) z;
    on_append = λ log z r. p.client.on_append (log ++ before) z r;
    on_delete = λ log z r. p.client.on_delete (log ++ before) z r;
  };
}

-- It keeps what it documents, too.
unfoldable pub resumed_store :
    {deps : Deps} {p : Prov}
    → Store deps p
    → (before : List ClientCall) → Store deps (resumed p before)
resumed_store store before = record {
  contents = λ log z. store.contents (log ++ before) z;
  lists = λ log z e. store.lists (log ++ before) z e;
  listing = λ log y z. store.listing (log ++ before) y z;
  created = λ log z r x e. store.created (log ++ before) z r x e;
  populated = λ log z r x e. store.populated (log ++ before) z r x e;
  kept = λ log y z i r v e. store.kept (log ++ before) y z i r v e;
  deleted = λ log z r e. store.deleted (log ++ before) z r e;
  others = λ log y z i r v h e. store.others (log ++ before) y z i r v h e;
}

abbrev pub is_foreign : Prov → DnsRecord → Bool
is_foreign p rec = not (text_eq rec.status.provider []) && not (text_eq rec.status.provider p.name)

module _ (deps : Deps) where
  abbrev pub parts_of : Rr → List Text
  parts_of rr = deps.split_domain_name rr.header.name

  -- The record is converted, and its name has a registrable domain.
  pub record IsRead (rec : DnsRecord) (rr : Rr) (d : Text) : Type 0 where
    pub conversion : to_rr deps rec ≡ ok rr
    pub long : ltb (length (parts_of rr)) 2 ≡ false
    pub domain : deps.domain (join (parts_of rr) (codes ".")) ≡ ok d

  pub reconcile-IsRead :
      (p : Prov) (rec : DnsRecord) (rr : Rr) (d : Text)
      → IsRead rec rr d
      → is_foreign p rec ≡ false
      → let zone = deps.fqdn d in
        reconcile deps p rec
        ≡ listed deps p rec rr zone
            (p.client.on_get [] zone).0
            (p.client.on_get [] zone).1
            (get_records zone ∷ [])
  unfolding reconcile converted in_domain
  reconcile-IsRead p rec rr d r ours = rw (ours, r.conversion, r.long, r.domain) refl

  -- With a client that lists the zone.
  pub reconcile-listed :
      (p : Prov) (store : Store deps p) (rec : DnsRecord) (rr : Rr) (d : Text)
      (before : List ClientCall)
      → Unfailing p
      → IsRead rec rr d
      → is_foreign p rec ≡ false
      → let zone = deps.fqdn d in
        reconcile deps (resumed p before) rec
        ≡ listed deps
            (resumed p before)
            rec
            rr
            zone
            (store.contents before zone)
            none
            (get_records zone ∷ [])
  reconcile-listed p store rec rr d before unfailing r ours =
      let zone = deps.fqdn d in
      reconcile-IsRead (resumed p before) rec rr d r ours
      ∙ rw (unfailing before zone, store.lists before zone (unfailing before zone)) refl

  -- A reconciliation that answers ok has come to the list of the zone.
  pub IsRead-of_ok :
      (p : Prov) (rec : DnsRecord)
      → (reconcile deps p rec).0.ok ≡ true
      → (rr : Rr) × (d : Text) × IsRead rec rr d × (is_foreign p rec ≡ false)
  unfolding reconcile converted in_domain
  IsRead-of_ok p rec h = elim (Bool-cases (is_foreign p rec)) [
    | inl foreign ↦ absurd (ground arith)
    | inr ours ↦ elim (Result-cases (to_rr deps rec)) [
      | inr (e, bad) ↦ absurd (ground arith)
      | inl (rr, c) ↦ elim (Bool-cases (ltb (length (parts_of rr)) 2)) [
        | inl short ↦ absurd (ground arith)
        | inr long ↦ elim (Result-cases (deps.domain (join (parts_of rr) (codes ".")))) [
          | inr (e, bad) ↦ absurd (ground arith)
          | inl (d, found) ↦ (rr, d, record { conversion = c; long = long; domain = found }, ours)
        ]
      ]
    ]
  ]

  -- The zone has no record of an unwanted DNSRecord's id: there is nothing to do.
  pub listed_gone :
      (p : Prov) (rec : DnsRecord) (rr : Rr) (zone : Text) (recs : List LibRecord)
      (log : List ClientCall)
      → is_unwanted rec ≡ true
      → find_id rec.status.id recs ≡ none
      → listed deps p rec rr zone recs none log ≡ (accept (with_status rec [] []), log)
  unfolding listed remove is_fatal
  listed_gone p rec rr zone recs log unwanted gone = rw (unwanted, gone) refl
