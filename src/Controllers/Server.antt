-- ===== src/Controllers/Server.antt =====
-- The writes among a reconciliation's calls, and what they leave in the API server.
use k8s_dns_manager.Prelude.{
  ℕ, suc, ◌≡◌, refl, Bool, not, ◌&&◌, is_some, none, true, false, List, [], ◌∷◌, if◌then◌else◌,
  arith,
}
use k8s_dns_manager.Api.{DnsRecord}
use k8s_dns_manager.Controllers.{Call, create, update, update_status, delete, World}

abbrev pub is_write : Call → Bool
is_write (create _) = true
is_write (update _) = true
is_write (update_status _) = true
is_write (delete _) = true
is_write _ = false

-- The number of writes to the API server.
abbrev pub writes : List Call → ℕ
writes [] = 0
writes (c ∷ log) = if is_write c then suc (writes log) else writes log

-- What the API server documents of its two kinds of writes: an update stores the specification and
-- the finalizers and leaves the status, an update of the status stores the status alone. Neither
-- touches the deletion timestamp.
pub record Server : Type 0 where
  pub apply : DnsRecord → Call → DnsRecord
  pub update-spec : (s r : DnsRecord) → (apply s (update r)).spec ≡ r.spec
  pub update-finalizers :
      (s r : DnsRecord) → (apply s (update r)).metadata.finalizers ≡ r.metadata.finalizers
  pub update-deletion :
      (s r : DnsRecord)
      → (apply s (update r)).metadata.deletion_timestamp ≡ s.metadata.deletion_timestamp
  pub update-status : (s r : DnsRecord) → (apply s (update r)).status ≡ s.status
  pub update_status-spec : (s r : DnsRecord) → (apply s (update_status r)).spec ≡ s.spec
  pub update_status-finalizers :
      (s r : DnsRecord) → (apply s (update_status r)).metadata.finalizers ≡ s.metadata.finalizers
  pub update_status-deletion :
      (s r : DnsRecord)
      → (apply s (update_status r)).metadata.deletion_timestamp ≡ s.metadata.deletion_timestamp
  pub update_status-status : (s r : DnsRecord) → (apply s (update_status r)).status ≡ r.status

-- No write fails.
abbrev pub Accepting : World → Type 0
Accepting w = (log : List Call) (c : Call) → w.on_write log c ≡ none

-- The stored object after the writes of a list of calls that are not answered by an error.
abbrev pub stored : Server → World → DnsRecord → List Call → DnsRecord
stored server w s [] = s
stored server w s (c ∷ log) =
    if is_write c && not (is_some (w.on_write log c))
    then server.apply (stored server w s log) c
    else stored server w s log

pub stored_unwritten :
    (server : Server) (w : World) (s : DnsRecord) (log : List Call)
    → writes log ≡ 0
    → stored server w s log ≡ s
stored_unwritten server w s [] h = refl
stored_unwritten server w s (c ∷ log) h = ground (arith, stored_unwritten server w s log)
