-- ===== src/Libdns/Synced/Exclusion.antt =====
-- Who is in a call of the synchronised client beside a call that writes.
use k8s_dns_manager.Prelude.{
  ℕ, ◌≡◌, ◌≢◌, Bool-cases, inl, inr, refl, Bool, true, false, Text, arith,
}
use k8s_dns_manager.Libdns.Synced.{
  Pc, idle, getting, appending, deleting, System, Step, get, got, append, appended, delete, deleted,
  init, Reach, start, later,
}

abbrev pub is_write : Pc → Bool
is_write (appending zone rec) = true
is_write (deleting zone rec) = true
is_write _ = false

abbrev pub is_idle : Pc → Bool
is_idle idle = true
is_idle _ = false

record Inv (s : System) : Type 0 where
  reads : (i : ℕ) (zone : Text) → s.pc i ≡ getting zone → s.mu.readers i ≡ true
  writes : (i : ℕ) → is_write (s.pc i) ≡ true → s.mu.writer ≡ true
  apart : (i : ℕ) → s.mu.writer ≡ true → s.mu.readers i ≡ false
  single : (i j : ℕ) → is_write (s.pc i) ≡ true → is_write (s.pc j) ≡ true → i ≡ j

init-Inv : Inv init
init-Inv = record {
  reads = λ i zone e. cc;
  writes = λ i e. cc;
  apart = λ i e. refl;
  single = λ i j e f. cc;
}

Step-Inv : {s t : System} → Step s t → Inv s → Inv t
Step-Inv {s} (get i zone here free) v = record {
  reads = λ j z e. ground (arith, v.reads j z);
  writes = λ j e. ground (arith, v.writes j);
  apart = λ j e. ground (arith, v.apart j);
  single = λ j k e f. ground (arith, v.single j k);
}
Step-Inv {s} (got i zone here) v = record {
  reads = λ j z e. ground (arith, v.reads j z);
  writes = λ j e. ground (arith, v.writes j);
  apart = λ j e. ground (arith, v.apart j);
  single = λ j k e f. ground (arith, v.single j k);
}
Step-Inv {s} (append i zone rec here free) v = record {
  reads = λ j z e. ground (arith, v.reads j z);
  writes = λ j e. refl;
  apart = λ j e. free.1 j;
  single = λ j k e f. ground (arith, v.writes j, v.writes k, free.0);
}
Step-Inv {s} (appended i zone rec here) v = record {
  reads = λ j z e. ground (arith, v.reads j z);
  writes = λ j e. ground (arith, v.single i j);
  apart = λ j e. cc;
  single = λ j k e f. ground (arith, v.single j k);
}
Step-Inv {s} (delete i zone rec here free) v = record {
  reads = λ j z e. ground (arith, v.reads j z);
  writes = λ j e. refl;
  apart = λ j e. free.1 j;
  single = λ j k e f. ground (arith, v.writes j, v.writes k, free.0);
}
Step-Inv {s} (deleted i zone rec here) v = record {
  reads = λ j z e. ground (arith, v.reads j z);
  writes = λ j e. ground (arith, v.single i j);
  apart = λ j e. cc;
  single = λ j k e f. ground (arith, v.single j k);
}

Reach-Inv : {s : System} → Reach s → Inv s
Reach-Inv start = init-Inv
Reach-Inv (later r step) = Step-Inv step (Reach-Inv r)

in_call :
    {s : System} (i j : ℕ) (p : Pc)
    → Inv s
    → is_write (s.pc i) ≡ true
    → s.pc j ≡ p
    → is_idle p ≡ false
    → i ≡ j
in_call i j idle v w e h = cc
in_call i j (getting zone) v w e h = ground (arith, v.reads j zone e, v.apart j (v.writes i w))
in_call i j (appending zone rec) v w e h = v.single i j w (rw e refl)
in_call i j (deleting zone rec) v w e h = v.single i j w (rw e refl)

-- In every state that the workers come to, while a worker is in a call that appends or deletes
-- records, every other worker is in no call of the client.
pub Reach-apart :
    {s : System} (i j : ℕ) → Reach s → is_write (s.pc i) ≡ true → i ≢ j → is_idle (s.pc j) ≡ true
Reach-apart {s} i j r w other = elim (Bool-cases (is_idle (s.pc j))) [
  | inl idles ↦ idles
  | inr calls ↦ absurd (other (in_call i j (s.pc j) (Reach-Inv r) w refl calls))
]
