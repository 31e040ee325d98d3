-- ===== src/Kubectl/Listing.antt =====
-- The commands list and create of the kubectl plugin (pkg/kubect-dns/list.go and new.go) and the
-- namespace that pkg/kubect-dns/root.go gives them. The columns of `columnize` and the YAML of a
-- record are parameters.
use mathlib.Core.List.{append_assoc}
use k8s_dns_manager.Prelude.{
  ◌≡◌, refl, sym, All-append, arith, ap, ◌∙◌, Bool, true, false, Option, none, some, List, [], ◌∷◌,
  ◌++◌, Text, codes, All, map, external, invalid_record, Result, ok, err, text_eq, if◌then◌else◌,
}
use k8s_dns_manager.GoStrings.{split_from, join}
use k8s_dns_manager.Deps.{Deps, Rr}
use k8s_dns_manager.Ptr.{to_bool}
use k8s_dns_manager.Api.{DnsRecord}
use k8s_dns_manager.Record.{from_rr, to_rr}
use k8s_dns_manager.Record.RoundTrip.{IsFaithful, to_rr-from_rr}
use k8s_dns_manager.Errors.{error_text}
use k8s_dns_manager.Controllers.{Call, list, World, Run}
use k8s_dns_manager.Corefile.Words.{lines, IsLine, lines_from-line}

-- The namespace of the configuration, or the default one.
unfoldable pub namespace_of : Text → Text
namespace_of configured = if text_eq configured [] then codes "default" else configured

-- strconv.FormatBool
abbrev bool_text : Bool → Text
bool_text b = if b then codes "true" else codes "false"

-- `fmt.Printf("%s/%s\n", v.Namespace, v.Name)` for each record
unfoldable pub key_lines : List DnsRecord → Text
key_lines [] = []
key_lines (v ∷ vs) = v.metadata.namespace ++ (b'/' ∷ (v.metadata.name ++ (b'\n' ∷ key_lines vs)))

abbrev pub key_text : DnsRecord → Text
key_text v = v.metadata.namespace ++ (b'/' ∷ v.metadata.name)

-- A row of the table.
unfoldable pub row : Text → DnsRecord → Text
row ns v =
    join
      (v.metadata.name
        ∷ ns
        ∷ bool_text (to_bool v.status.active)
        ∷ split_from (b'\t') [] v.status.printed)
      (codes " | ")

abbrev header : Text
header = codes "NAME  | NAMESPACE | ACTIVE | RECORD | TTL | | TYPE | VALUE"

module _ (columnize : List Text → Text) (ns : Text) where
  shown : Bool → List DnsRecord → Text
  shown quiet [] = codes "No resources found in " ++ (ns ++ codes " namespace.\n")
  shown true (v ∷ vs) = key_lines (v ∷ vs)
  shown false (v ∷ vs) = columnize (header ∷ map (row ns) (v ∷ vs)) ++ codes "\n"

  listed : Bool → Result (List DnsRecord) → Result Text
  listed quiet (err e) = err e
  listed quiet (ok items) = ok (shown quiet items)

  -- What is printed; a list without a namespace is of all namespaces.
  unfoldable pub list_records : World → Bool → Bool → Run (Result Text)
  unfolding listed shown
  list_records w all_namespaces quiet log =
      let scope = if all_namespaces then [] else ns in
      (listed quiet (w.on_list log scope), list scope ∷ log)

module _ (deps : Deps) (ns : Text) where
  created : Text → Result (Option Rr) → Result DnsRecord
  created text (err e) =
      err (external (codes "invalid record: '" ++ (text ++ (codes "': " ++ error_text e))))
  created text (ok none) = err (invalid_record text)
  created text (ok (some rr)) =
      let r = from_rr deps rr in ok (record r { metadata = record r.metadata { namespace = ns } })

  -- The record that is marshalled.
  unfoldable pub create_record : Text → Result DnsRecord
  unfolding created
  create_record text = created text (deps.new_rr text)

lines-key_lines :
    (vs : List DnsRecord)
    → All (λ v. IsLine v.metadata.namespace × IsLine v.metadata.name) vs
    → lines (key_lines vs) ≡ map key_text vs ++ [] ∷ []
unfolding key_lines split_from
lines-key_lines [] h = refl
lines-key_lines (v ∷ vs) h =
    let prefix : Text = v.metadata.namespace ++ (b'/' ∷ v.metadata.name) in
    ap lines
      (sym (append_assoc v.metadata.namespace (b'/' ∷ v.metadata.name) (b'\n' ∷ key_lines vs)))
    ∙ lines_from-line [] prefix (b'\n' ∷ key_lines vs)
        (All-append _ v.metadata.namespace _ h.0.0 ((λ e. omega (arith, e)), h.0.1))
    ∙ ap (λ r. prefix ∷ r) (lines-key_lines vs h.1)

-- The quiet list of a server that answers with records prints a line for each of them, in their
-- order, with its own namespace and its name, if no namespace or name has a line break.
pub list_records-quiet :
    (columnize : List Text → Text) (ns : Text) (w : World) (all_namespaces : Bool) (log : List Call)
    (v : DnsRecord) (vs : List DnsRecord)
    → w.on_list log (if all_namespaces then [] else ns) ≡ ok (v ∷ vs)
    → All (λ v. IsLine v.metadata.namespace × IsLine v.metadata.name) (v ∷ vs)
    → (out : Text) × ((list_records columnize ns w all_namespaces true log).0 ≡ ok out)
      × (lines out ≡ map key_text (v ∷ vs) ++ [] ∷ [])
unfolding list_records listed shown
list_records-quiet columnize ns w all_namespaces log v vs e h =
    (key_lines (v ∷ vs), rw e refl, lines-key_lines (v ∷ vs) h)

-- If the text parses as a resource record that FromRR loses nothing of, create makes a DNSRecord
-- in the plugin's namespace that ToRR converts back to the resource record.
pub create_record-read :
    (deps : Deps) (ns text : Text) (rr : Rr)
    → deps.new_rr text ≡ ok (some rr)
    → IsFaithful deps rr rr.header rr.rdata
    → (r : DnsRecord) × (create_record deps ns text ≡ ok r)
      × (r.metadata.namespace ≡ ns)
      × (to_rr deps r ≡ ok rr)
unfolding create_record created to_rr
create_record-read deps ns text rr e h =
    let r = from_rr deps rr in
    (
      record r { metadata = record r.metadata { namespace = ns } },
      rw e refl,
      refl,
      to_rr-from_rr deps rr h,
    )
