-- ===== src/Controllers.antt =====
-- The controllers (controllers/*.go). What a reconciliation does to the outside is its list of
-- calls, the last one first; what the outside answers is a `World`, which may answer each call by
-- all that was called before it.
pub mod Finalizers
pub mod Server
pub mod Records
pub mod Children
pub mod Locks
pub mod Owners
pub mod Watches
use k8s_dns_manager.Prelude.{
  ℕ, Bool, false, Option, none, some, List, [], ◌∷◌, Text, Error, Result, ok, err,
}
use k8s_dns_manager.Deps.{Rr}
use k8s_dns_manager.Api.{DnsRecord}

-- types.NamespacedName
pub record Key : Type 0 where
  pub namespace : Text
  pub name : Text

-- dns.Question
pub record Question : Type 0 where
  pub name : Text
  pub qtype : ℕ
  pub qclass : ℕ

-- The parts of dns.Msg that are read from a response.
pub record Message : Type 0 where
  pub truncated : Bool
  pub answer : List Rr

-- ctrl.Result with the error beside it; the delay is in seconds.
pub record Outcome : Type 0 where
  pub requeue_after : Option ℕ
  pub error : Option Error

abbrev pub done : Outcome
done = record { requeue_after = none; error = none }

abbrev pub failed : Error → Outcome
failed e = record { requeue_after = none; error = some e }

-- What provider.Provider's Reconcile returns, with the record that it may have changed.
pub record Reconciled : Type 0 where
  pub outcome : Outcome
  pub ok : Bool
  pub changed : DnsRecord

pub data Call : Type 0 where
  get : Key → Call
  list : Text → Call
  create : DnsRecord → Call
  update : DnsRecord → Call
  update_status : DnsRecord → Call
  delete : DnsRecord → Call
  provide : DnsRecord → Call
  exchange : Text → Question → Call
  event : Text → Text → Call
  warn : Text → Text → Call

pub record World : Type 0 where
  pub on_get : List Call → Key → Result DnsRecord
  pub on_list : List Call → Text → Result (List DnsRecord)
  pub on_write : List Call → Call → Option Error
  pub on_provide : List Call → DnsRecord → Reconciled
  pub on_exchange : List Call → Text → Question → Result Message

-- A step of a controller: the calls so far to a result and the calls after it.
abbrev pub Run {ℓ} : Type ℓ → Type ℓ
Run A = List Call → A × List Call

infixl 5 ◌>>=◌ ◌>>◌
abbrev pub ◌>>=◌ {ℓ κ} : {A : Type ℓ} {B : Type κ} → Run A → (A → Run B) → Run B
◌>>=◌ m f log = f (m log).0 (m log).1

abbrev pub ◌>>◌ {ℓ κ} : {A : Type ℓ} {B : Type κ} → Run A → Run B → Run B
m >> k = m >>= λ _. k

abbrev pub pure {ℓ} : {A : Type ℓ} → A → Run A
pure a log = (a, log)

-- A call that the API server answers by an error or by nothing.
abbrev pub write : World → Call → Run (Option Error)
write w c log = (w.on_write log c, c ∷ log)

-- A call with no answer.
abbrev pub emit : Call → Run (Unit {0})
emit c log = (tt, c ∷ log)

-- `if err := write; err != nil { return err }; return nil`
abbrev pub last_write : World → Call → Run Outcome
last_write w c log = (record { requeue_after = none; error = w.on_write log c }, c ∷ log)
