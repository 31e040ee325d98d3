-- ===== src/Controllers/Locks.antt =====
-- The locks of DNSRecordReconciler (controllers/dnsrecord_controller.go): a mutex for each object that
-- was ever reconciled, in a table that `r.mu` guards. Workers are numbers; a mutex is the number of
-- its allocation. A step is what a worker does under `r.mu`, or a Lock or an Unlock.
pub mod Exclusion
use native.Mathlib.Decide.{ℕ_discrete}
use mathlib.Core.Logic.{ite}
use k8s_dns_manager.Prelude.{
  ℕ, suc, ◌≡◌, Bool, true, false, Option, none, some, List, [], ◌∷◌, Text, lookup, insert,
}

-- A family with one member changed.
abbrev pub set_at {ℓ} : {A : Type ℓ} → (ℕ → A) → ℕ → A → ℕ → A
set_at f i a j = ite (ℕ_discrete i j) a (f j)

-- `locks`, and the number of the next mutex.
pub record Locks : Type 0 where
  pub table : List (Text × ℕ)
  pub fresh : ℕ

-- `if mu, ok = r.locks[key]; !ok { mu = &sync.Mutex{}; r.locks[key] = mu }`
found_lock : Text → Locks → Option ℕ → ℕ × Locks
found_lock key s (some m) = (m, s)
found_lock key s none =
    (s.fresh, record { table = insert key s.fresh s.table; fresh = suc s.fresh })

unfoldable pub lock_of : Text → Locks → ℕ × Locks
unfolding found_lock
lock_of key s = found_lock key s (lookup key s.table)

-- Where a worker is: it holds `r.mu`, it waits for the mutex of its object, or it holds the mutex.
pub data Pc : Type 0 where
  idle : Pc
  finding : Text → Pc
  waiting running : Text → ℕ → Pc

pub record System : Type 0 where
  pub locks : Locks
  pub busy : Bool
  pub held : ℕ → Bool
  pub pc : ℕ → Pc

pub data Step (s : System) : System → Type 0 where
  begin :
      (i : ℕ) (key : Text)
      → s.pc i ≡ idle
      → s.busy ≡ false
      → Step s (record s { busy = true; pc = set_at s.pc i (finding key) })
  find :
      (i : ℕ) (key : Text)
      → s.pc i ≡ finding key
      → Step s (record s {
        locks = (lock_of key s.locks).1;
        busy = false;
        pc = set_at s.pc i (waiting key (lock_of key s.locks).0);
      })
  acquire :
      (i : ℕ) (key : Text) (m : ℕ)
      → s.pc i ≡ waiting key m
      → s.held m ≡ false
      → Step s (record s { held = set_at s.held m true; pc = set_at s.pc i (running key m) })
  release :
      (i : ℕ) (key : Text) (m : ℕ)
      → s.pc i ≡ running key m
      → Step s (record s { held = set_at s.held m false; pc = set_at s.pc i idle })

abbrev pub init : System
init = record {
  locks = record { table = []; fresh = 0 };
  busy = false;
  held = λ m. false;
  pc = λ i. idle;
}

pub data Reach : System → Type 0 where
  start : Reach init
  later : {s t : System} → Reach s → Step s t → Reach t
