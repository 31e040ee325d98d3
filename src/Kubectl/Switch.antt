-- ===== src/Kubectl/Switch.antt =====
-- What get finds, and what activate and deactivate write.
use k8s_dns_manager.Prelude.{
  ◌≡◌, refl, ◌⊎◌, Bool, true, false, Option, none, some, List, [], ◌∷◌, Text, not_found, Result, ok,
  err, arith, text_eq_iff,
}
use k8s_dns_manager.Deps.{Deps, Rr}
use k8s_dns_manager.Ptr.{to_bool_d}
use k8s_dns_manager.Api.{DnsRecord}
use k8s_dns_manager.Controllers.{Call, get, update, World}
use k8s_dns_manager.Kubectl.{
  find_printed, key_of, searched, by_text, get_record, with_active, activated, deactivated,
  activate, deactivate,
}

pub find_printed-printed :
    (name text : Text) (vs : List DnsRecord) (r : DnsRecord)
    → find_printed name text vs ≡ ok r
    → r.status.printed ≡ text
unfolding find_printed
find_printed-printed name text [] r e = cc
find_printed-printed name text (v ∷ vs) r e =
    ground (arith, find_printed-printed name text vs r, text_eq_iff v.status.printed text)

module _ (deps : Deps) (w : World) (ns : Text) where
  searched-printed :
      (name : Text) (rr : Rr) (res : Result (List DnsRecord)) (r : DnsRecord)
      → searched deps w ns name rr res ≡ ok r
      → r.status.printed ≡ deps.rr_string rr
  unfolding searched
  searched-printed name rr (err e) r h = cc
  searched-printed name rr (ok items) r h = find_printed-printed name (deps.rr_string rr) items r h

  by_text-printed :
      (name : Text) (res : Result (Option Rr)) (log : List Call) (r : DnsRecord)
      → (by_text deps w ns name res log).0 ≡ ok r
      → (rr : Rr) × (res ≡ ok (some rr)) × (r.status.printed ≡ deps.rr_string rr)
  unfolding by_text
  by_text-printed name (err e) log r h = cc
  by_text-printed name (ok none) log r h = cc
  by_text-printed name (ok (some rr)) log r h =
      (rr, refl, searched-printed name rr (w.on_list log []) r h)

  -- The record is as wanted, and nothing was called after `log`, or it was written with nothing
  -- changed but that it is now as wanted.
  abbrev pub IsSwitched : Bool → DnsRecord → List Call → List Call → Type 0
  IsSwitched b r log log' =
      ((to_bool_d r.spec.active true ≡ b) × (log' ≡ log))
      ⊎ ((w.on_write log (update (with_active b r)) ≡ none)
          × (log' ≡ update (with_active b r) ∷ log))

  activated-IsSwitched :
      (res : Result DnsRecord) (log : List Call)
      → (activated deps w ns res log).0 ≡ none
      → (r : DnsRecord) × (res ≡ ok r) × IsSwitched true r log (activated deps w ns res log).1
  unfolding activated to_bool_d
  activated-IsSwitched (err e) log h = cc
  activated-IsSwitched (ok r) log h = (r, refl, ground arith)

  deactivated-IsSwitched :
      (res : Result DnsRecord) (log : List Call)
      → (deactivated deps w ns res log).0 ≡ none
      → (r : DnsRecord) × (res ≡ ok r) × IsSwitched false r log (deactivated deps w ns res log).1
  unfolding deactivated to_bool_d
  deactivated-IsSwitched (err e) log h = cc
  deactivated-IsSwitched (ok r) log h = (r, refl, ground arith)

  -- If activate returns no error, it has found the record, and either the record already was
  -- active and nothing was written, or the record was written without an error and with nothing
  -- changed but that it is now active.
  pub activate-IsSwitched :
      (name : Text) (log : List Call)
      → (activate deps w ns name log).0 ≡ none
      → (r : DnsRecord) × ((get_record deps w ns name log).0 ≡ ok r)
        × IsSwitched true r (get_record deps w ns name log).1 (activate deps w ns name log).1
  unfolding activate
  activate-IsSwitched name log = activated-IsSwitched (get_record deps w ns name log).0 _

  -- If deactivate returns no error, it has found the record, and either the record already was
  -- inactive and nothing was written, or the record was written without an error and with nothing
  -- changed but that it is now inactive.
  pub deactivate-IsSwitched :
      (name : Text) (log : List Call)
      → (deactivate deps w ns name log).0 ≡ none
      → (r : DnsRecord) × ((get_record deps w ns name log).0 ≡ ok r)
        × IsSwitched false r (get_record deps w ns name log).1 (deactivate deps w ns name log).1
  unfolding deactivate
  deactivate-IsSwitched name log = deactivated-IsSwitched (get_record deps w ns name log).0 _

-- If the API server has no object of the name, a record that get returns has a status that prints
-- the resource record that the name is parsed as.
pub get_record-printed :
    (deps : Deps) (w : World) (ns name why : Text) (log : List Call) (r : DnsRecord)
    → w.on_get log (key_of ns name) ≡ err (not_found why)
    → (get_record deps w ns name log).0 ≡ ok r
    → (rr : Rr) × (deps.new_rr name ≡ ok (some rr)) × (r.status.printed ≡ deps.rr_string rr)
unfolding get_record
get_record-printed deps w ns name why log r missing e =
    let sought : (by_text deps w ns name (deps.new_rr name) (get (key_of ns name) ∷ log)).0 ≡ ok r =
      rw missing at e in
    by_text-printed deps w ns name (deps.new_rr name) (get (key_of ns name) ∷ log) r sought
