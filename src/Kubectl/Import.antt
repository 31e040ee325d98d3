-- ===== src/Kubectl/Import.antt =====
-- The command import of the kubectl plugin (pkg/kubect-dns/import.go): the conversion of a zone
-- file. The file system, the parser of zones, the YAML of a list and the standard output are
-- parameters.
use k8s_dns_manager.Prelude.{
  ◌≡◌, refl, Bool, false, Option, none, some, List, [], ◌∷◌, Text, codes, Error, external, Result,
  ok, err, ◌>>=◌, if◌then◌else◌, map, All,
}
use k8s_dns_manager.Deps.{Deps, Rr}
use k8s_dns_manager.Api.{DnsRecord}
use k8s_dns_manager.Record.{to_rr, from_rr, api_version}
use k8s_dns_manager.Record.RoundTrip.{IsFaithful, to_rr-from_rr}

-- v1alpha1.DNSRecordList
pub record DnsRecordList : Type 0 where
  pub api_version : Text
  pub kind : Text
  pub items : List DnsRecord

abbrev pub dns_record_list_kind : Text
dns_record_list_kind = codes "DNSRecordList"

-- What a ZoneParser returns: its records up to the first error, and that error, which the program
-- does not ask for.
pub record Parsing : Type 0 where
  pub next : List (Option Rr)
  pub error : Option Error

-- Whether os.Stat finds a directory, the zone parser on the file that os.Open returns,
-- yaml.Marshal, and the error of the write to the standard output.
pub record Shell : Type 0 where
  pub stat : Text → Result Bool
  pub open' : Text → Result Parsing
  pub marshal : DnsRecordList → Result Text
  pub write : Text → Option Error

module _ (deps : Deps) (ns : Text) where
  -- The loop of `parse` over what the zone parser returns.
  unfoldable pub import_zone : List (Option Rr) → List DnsRecord
  import_zone [] = []
  import_zone (none ∷ rrs) = import_zone rrs
  import_zone (some r ∷ rrs) =
      let rec = from_rr deps r in
      record rec { metadata = record rec.metadata { namespace = ns } } ∷ import_zone rrs

  module _ (sh : Shell) where
    unfoldable pub parse : Text → Result DnsRecordList
    parse file = do
      p ← sh.open' file
      ok (record {
        api_version = api_version;
        kind = dns_record_list_kind;
        items = import_zone p.next;
      })

    unfoldable pub written : Text → Option Error → Result Text
    written b (some e) = err e
    written b none = ok b

    -- The command: what is written, or its error.
    unfoldable pub import_file : Text → Result Text
    unfolding written
    import_file file = do
      is_dir ← sh.stat file
      if is_dir
          then err (external (codes "input: expected a file, not a directory"))
          else (do rrs ← parse file; b ← sh.marshal rrs; written b (sh.write b))

-- The records that the parser returned, without the nil ones.
abbrev pub parsed : List (Option Rr) → List Rr
parsed [] = []
parsed (none ∷ rrs) = parsed rrs
parsed (some r ∷ rrs) = r ∷ parsed rrs

-- If the records of a zone file are such that FromRR loses nothing of them, ToRR converts the
-- imported DNSRecords back to them, one by one and in their order.
pub to_rr-import_zone :
    (deps : Deps) (ns : Text) (rrs : List (Option Rr))
    → All (λ r. IsFaithful deps r r.header r.rdata) (parsed rrs)
    → map (to_rr deps) (import_zone deps ns rrs) ≡ map ok (parsed rrs)
unfolding import_zone
to_rr-import_zone deps ns [] h = refl
to_rr-import_zone deps ns (none ∷ rrs) h = to_rr-import_zone deps ns rrs h
to_rr-import_zone deps ns (some r ∷ rrs) h = cc (converted r h.0, to_rr-import_zone deps ns rrs h.1)
  where
    converted :
        (r : Rr)
        → IsFaithful deps r r.header r.rdata
        → to_rr deps (record (from_rr deps r) {
          metadata = record (from_rr deps r).metadata { namespace = ns };
        })
          ≡ ok r
    converted r f = unfold to_rr in to_rr-from_rr deps r f

import_zone-namespace :
    (deps : Deps) (ns : Text) (rrs : List (Option Rr))
    → All (λ (r : DnsRecord). r.metadata.namespace ≡ ns) (import_zone deps ns rrs)
unfolding import_zone
import_zone-namespace deps ns [] = tt
import_zone-namespace deps ns (none ∷ rrs) = import_zone-namespace deps ns rrs
import_zone-namespace deps ns (some r ∷ rrs) = (refl, import_zone-namespace deps ns rrs)

-- For a file that is no directory and can be opened, the command writes the YAML of a list, or
-- returns the error of the YAML or of the write; the list's DNSRecords are in the namespace of the
-- plugin, and, if FromRR loses nothing of the records that the parser returns, ToRR converts them
-- back to these, one by one and in their order. An error that the parser ends at changes nothing.
pub import_file-converted :
    (deps : Deps) (ns : Text) (sh : Shell) (file : Text) (p : Parsing)
    → sh.stat file ≡ ok false
    → sh.open' file ≡ ok p
    → All (λ r. IsFaithful deps r r.header r.rdata) (parsed p.next)
    → (l : DnsRecordList) × (import_file deps ns sh file
        ≡ (do b ← sh.marshal l; written deps ns sh b (sh.write b)))
      × (l.api_version ≡ api_version)
      × (l.kind ≡ dns_record_list_kind)
      × All (λ (r : DnsRecord). r.metadata.namespace ≡ ns) l.items
      × (map (to_rr deps) l.items ≡ map ok (parsed p.next))
unfolding import_file parse
import_file-converted deps ns sh file p no_dir opened faithful = (
  record {
    api_version = api_version;
    kind = dns_record_list_kind;
    items = import_zone deps ns p.next;
  },
  rw (no_dir, opened) refl,
  refl,
  refl,
  import_zone-namespace deps ns p.next,
  to_rr-import_zone deps ns p.next faithful,
)
