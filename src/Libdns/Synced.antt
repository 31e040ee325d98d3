-- ===== src/Libdns/Synced.antt =====
-- The client whose calls stand under a lock (pkg/provider/libdns/sync.go): GetRecords under the
-- reader's lock, AppendRecords and DeleteRecords under the writer's. Workers are numbers. A step is
-- a call's RLock or Lock, or the client's answer with the RUnlock or Unlock that is deferred.
pub mod Exclusion
use k8s_dns_manager.Prelude.{ℕ, ◌≡◌, Bool, true, false, List, [], ◌∷◌, Text}
use k8s_dns_manager.Libdns.{LibRecord, ClientCall, get_records, append_records, delete_records}
use k8s_dns_manager.Controllers.Locks.{set_at}

-- sync.RWMutex: who holds it as a reader, and whether a writer holds it.
pub record RwMutex : Type 0 where
  pub readers : ℕ → Bool
  pub writer : Bool

-- The call that a worker is in.
pub data Pc : Type 0 where
  idle : Pc
  getting : Text → Pc
  appending deleting : Text → LibRecord → Pc

-- The lock, the calls that the client answered, the last one first, and the workers.
pub record System : Type 0 where
  pub mu : RwMutex
  pub log : List ClientCall
  pub pc : ℕ → Pc

abbrev pub r_unlocked : ℕ → RwMutex → RwMutex
r_unlocked i mu = record mu { readers = set_at mu.readers i false }

abbrev pub IsFree : RwMutex → Type 0
IsFree mu = (mu.writer ≡ false) × ((j : ℕ) → mu.readers j ≡ false)

pub data Step (s : System) : System → Type 0 where
  get :
      (i : ℕ) (zone : Text)
      → s.pc i ≡ idle
      → s.mu.writer ≡ false
      → Step s (record s {
        mu = record s.mu { readers = set_at s.mu.readers i true };
        pc = set_at s.pc i (getting zone);
      })
  got :
      (i : ℕ) (zone : Text)
      → s.pc i ≡ getting zone
      → Step s (record {
        mu = r_unlocked i s.mu;
        log = get_records zone ∷ s.log;
        pc = set_at s.pc i idle;
      })
  append :
      (i : ℕ) (zone : Text) (rec : LibRecord)
      → s.pc i ≡ idle
      → IsFree s.mu
      → Step s
          (record s { mu = record s.mu { writer = true }; pc = set_at s.pc i (appending zone rec) })
  appended :
      (i : ℕ) (zone : Text) (rec : LibRecord)
      → s.pc i ≡ appending zone rec
      → Step s (record {
        mu = record s.mu { writer = false };
        log = append_records zone rec ∷ s.log;
        pc = set_at s.pc i idle;
      })
  delete :
      (i : ℕ) (zone : Text) (rec : LibRecord)
      → s.pc i ≡ idle
      → IsFree s.mu
      → Step s
          (record s { mu = record s.mu { writer = true }; pc = set_at s.pc i (deleting zone rec) })
  deleted :
      (i : ℕ) (zone : Text) (rec : LibRecord)
      → s.pc i ≡ deleting zone rec
      → Step s (record {
        mu = record s.mu { writer = false };
        log = delete_records zone rec ∷ s.log;
        pc = set_at s.pc i idle;
      })

abbrev pub init : System
init = record { mu = record { readers = λ j. false; writer = false }; log = []; pc = λ i. idle }

pub data Reach : System → Type 0 where
  start : Reach init
  later : {s t : System} → Reach s → Step s t → Reach t
