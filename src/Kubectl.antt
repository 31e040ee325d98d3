-- ===== src/Kubectl.antt =====
-- The commands of the kubectl plugin that read and change DNSRecords (pkg/kubect-dns): get, activate
-- and deactivate. The namespace is the flag's.
pub mod Switch
pub mod Import
pub mod Listing
pub mod Root
use k8s_dns_manager.Prelude.{
  Bool, true, false, not, Option, none, some, List, [], ◌∷◌, Text, Error, not_found, not_a_record,
  record_not_found, Result, ok, err, text_eq, if◌then◌else◌,
}
use k8s_dns_manager.Deps.{Deps, Rr}
use k8s_dns_manager.Api.{DnsRecord}
use k8s_dns_manager.Controllers.{Key, Call, get, list, update, World, Run, ◌>>=◌, pure, write}

-- The first record whose status prints the text.
unfoldable pub find_printed : Text → Text → List DnsRecord → Result DnsRecord
find_printed name text [] = err (record_not_found name)
find_printed name text (v ∷ vs) =
    let rest = find_printed name text vs in if text_eq v.status.printed text then ok v else rest

abbrev pub with_active : Bool → DnsRecord → DnsRecord
with_active b r = record r { spec = record r.spec { active = some b } }

abbrev is_on : Option Bool → Bool
is_on none = true
is_on (some b) = b

abbrev is_off : Option Bool → Bool
is_off none = false
is_off (some b) = not b

abbrev pub key_of : Text → Text → Key
key_of ns name = record { namespace = ns; name = name }

module _ (deps : Deps) (w : World) (ns : Text) where
  searched : Text → Rr → Result (List DnsRecord) → Result DnsRecord
  searched name rr (err e) = err e
  searched name rr (ok items) = find_printed name (deps.rr_string rr) items

  -- The name is that of no object, so it may be a record; the list is of all namespaces.
  by_text : Text → Result (Option Rr) → Run (Result DnsRecord)
  by_text name (ok (some rr)) log = (searched name rr (w.on_list log []), list [] ∷ log)
  by_text name (ok none) log = (err (not_a_record name), log)
  by_text name (err _) log = (err (not_a_record name), log)

  named : Text → Result DnsRecord → Run (Result DnsRecord)
  named name (ok r) = pure (ok r)
  named name (err (not_found _)) = by_text name (deps.new_rr name)
  named name (err e) = pure (err e)

  unfoldable pub get_record : Text → Run (Result DnsRecord)
  unfolding named by_text searched
  get_record name log = named name (w.on_get log (key_of ns name)) (get (key_of ns name) ∷ log)

  activated : Result DnsRecord → Run (Option Error)
  activated (err e) = pure (some e)
  activated (ok r) =
      if is_on r.spec.active then pure none else write w (update (with_active true r))

  deactivated : Result DnsRecord → Run (Option Error)
  deactivated (err e) = pure (some e)
  deactivated (ok r) =
      if is_off r.spec.active then pure none else write w (update (with_active false r))

  unfoldable pub activate : Text → Run (Option Error)
  unfolding activated
  activate name = do r ← get_record name; activated r

  unfoldable pub deactivate : Text → Run (Option Error)
  unfolding deactivated
  deactivate name = do r ← get_record name; deactivated r
