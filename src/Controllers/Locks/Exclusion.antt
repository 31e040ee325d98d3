-- ===== src/Controllers/Locks/Exclusion.antt =====
-- Who reconciles an object, and who waits for its mutex.
use native.Mathlib.Decide.{ℕ_discrete}
use k8s_dns_manager.Prelude.{
  ℕ, ◌<◌, ◌≡◌, ◌≢◌, refl, ap, Bool-cases, sym, ◌∙◌, true, false, some, Text, lookup, lookup-insert,
  text_eq_iff, arith, Option-cases, inl, inr, ◌⊎◌,
}
use k8s_dns_manager.Controllers.Locks.{
  Locks, lock_of, finding, waiting, running, System, Step, begin, find, acquire, release, init,
  Reach, start, later,
}

-- Mutexes are numbered from 0 on, and no two keys share one.
pub record IsTable (l : Locks) : Type 0 where
  pub small : (k : Text) (m : ℕ) → lookup k l.table ≡ some m → m < l.fresh
  pub distinct :
      (j k : Text) (m : ℕ) → lookup j l.table ≡ some m → lookup k l.table ≡ some m → j ≡ k

lock_of-IsTable : (k : Text) (l : Locks) → IsTable l → IsTable (lock_of k l).1
unfolding lock_of
lock_of-IsTable k l t = elim (Option-cases (lookup k l.table)) [
  | inr (m, there) ↦ rw there t
  | inl absent ↦ rw absent (record {
    small = λ j m e. ground (arith, lookup-insert k j l.fresh l.table, t.small j m);
    distinct = λ i j m e f. ground (
      arith,
      lookup-insert k i l.fresh l.table,
      lookup-insert k j l.fresh l.table,
      text_eq_iff k i,
      text_eq_iff k j,
      t.small i m,
      t.small j m,
      t.distinct i j m,
    );
  })
]

lock_of_self : (k : Text) (l : Locks) → lookup k (lock_of k l).1.table ≡ some (lock_of k l).0
unfolding lock_of
lock_of_self k l = elim (Option-cases (lookup k l.table)) [
  | inr (m, there) ↦ rw there there
  | inl absent ↦ rw absent (ground (arith, lookup-insert k k l.fresh l.table, text_eq_iff k k))
]

lock_of_keeps :
    (k j : Text) (l : Locks) (m : ℕ)
    → lookup j l.table ≡ some m
    → lookup j (lock_of k l).1.table ≡ some m
unfolding lock_of
lock_of_keeps k j l m e = elim (Option-cases (lookup k l.table)) [
  | inr (n, there) ↦ rw there e
  | inl absent ↦ rw absent (ground (arith, lookup-insert k j l.fresh l.table, text_eq_iff k j))
]

pub record Inv (s : System) : Type 0 where
  pub table : IsTable s.locks
  pub waits : (i : ℕ) (k : Text) (m : ℕ) → s.pc i ≡ waiting k m → lookup k s.locks.table ≡ some m
  pub runs : (i : ℕ) (k : Text) (m : ℕ) → s.pc i ≡ running k m → lookup k s.locks.table ≡ some m
  pub holds : (i : ℕ) (k : Text) (m : ℕ) → s.pc i ≡ running k m → s.held m ≡ true
  pub alone : (i j : ℕ) (k l : Text) (m : ℕ) → s.pc i ≡ running k m → s.pc j ≡ running l m → i ≡ j
  pub owned : (m : ℕ) → s.held m ≡ true → (i : ℕ) × (k : Text) × (s.pc i ≡ running k m)
  pub guarded : (i : ℕ) (k : Text) → s.pc i ≡ finding k → s.busy ≡ true
  pub single : (i j : ℕ) (k l : Text) → s.pc i ≡ finding k → s.pc j ≡ finding l → i ≡ j

init-Inv : Inv init
unfolding lookup
init-Inv = record {
  table = record { small = λ k m e. cc; distinct = λ j k m e f. cc };
  waits = λ i k m e. cc;
  runs = λ i k m e. cc;
  holds = λ i k m e. cc;
  alone = λ i j k l m e f. cc;
  owned = λ m e. cc;
  guarded = λ i k e. cc;
  single = λ i j k l e f. cc;
}

Step-Inv : {s t : System} → Step s t → Inv s → Inv t
Step-Inv {s} (begin i key here free) v = record {
  table = v.table;
  waits = λ j k m e. ground (arith, v.waits j k m);
  runs = λ j k m e. ground (arith, v.runs j k m);
  holds = λ j k m e. ground (arith, v.holds j k m);
  alone = λ j n k l m e f. ground (arith, v.alone j n k l m);
  owned = λ m e. let (j, k, r) = v.owned m e in (j, k, ground arith);
  guarded = λ j k e. refl;
  single = λ j n k l e f. ground (arith, v.guarded j k, v.guarded n l);
}
Step-Inv {s} (find i key here) v = record {
  table = lock_of-IsTable key s.locks v.table;
  waits = λ j k m e.
      ground (arith, lock_of_self key s.locks, lock_of_keeps key k s.locks m, v.waits j k m);
  runs = λ j k m e. ground (arith, lock_of_keeps key k s.locks m, v.runs j k m);
  holds = λ j k m e. ground (arith, v.holds j k m);
  alone = λ j n k l m e f. ground (arith, v.alone j n k l m);
  owned = λ m e. let (j, k, r) = v.owned m e in (j, k, ground arith);
  guarded = λ j k e. ground (arith, v.single i j key k);
  single = λ j n k l e f. ground (arith, v.single j n k l);
}
Step-Inv {s} (acquire i key m here free) v = record {
  table = v.table;
  waits = λ j k n e. ground (arith, v.waits j k n);
  runs = λ j k n e. ground (arith, v.runs j k n, v.waits i key m);
  holds = λ j k n e. ground (arith, v.holds j k n);
  alone = λ j n k l q e f. ground (arith, v.alone j n k l q, v.holds j k q, v.holds n l q);
  owned = λ n e. elim (ℕ_discrete m n) [
    | yes mine ↦ (i, key, ground arith)
    | no other ↦ let (j, k, r) = v.owned n (ground arith) in (j, k, ground arith)
  ];
  guarded = λ j k e. ground (arith, v.guarded j k);
  single = λ j n k l e f. ground (arith, v.single j n k l);
}
Step-Inv {s} (release i key m here) v = record {
  table = v.table;
  waits = λ j k n e. ground (arith, v.waits j k n);
  runs = λ j k n e. ground (arith, v.runs j k n);
  holds = λ j k n e. ground (arith, v.holds j k n, v.alone i j key k m);
  alone = λ j n k l q e f. ground (arith, v.alone j n k l q);
  owned = λ n e. let (j, k, r) = v.owned n (ground arith) in (j, k, ground (arith, v.holds j k n));
  guarded = λ j k e. ground (arith, v.guarded j k);
  single = λ j n k l e f. ground (arith, v.single j n k l);
}

pub Reach-Inv : {s : System} → Reach s → Inv s
Reach-Inv start = init-Inv
Reach-Inv (later r st) = Step-Inv st (Reach-Inv r)

-- In every state that the workers come to, while a worker reconciles an object, no other worker
-- reconciles it, whichever mutex it holds.
pub Reach-exclusive :
    {s : System}
    → Reach s
    → (i j : ℕ) (k : Text) (m n : ℕ) → i ≢ j
    → s.pc i ≡ running k m
    → s.pc j ≢ running k n
Reach-exclusive r i j k m n other e f =
    let v = Reach-Inv r in
    let same : m ≡ n = ground (arith, v.runs i k m e, v.runs j k n f) in
    other (v.alone i j k k m e (f ∙ ap (running k) (sym same)))

-- In every state that the workers come to, a worker that waits for the mutex of its object either
-- finds it free, or some worker reconciles that very object: none waits for another object.
pub Reach-waiting :
    {s : System}
    → Reach s
    → (j : ℕ) (k : Text) (m : ℕ) → s.pc j ≡ waiting k m
    → (s.held m ≡ false) ⊎ ((i : ℕ) × (s.pc i ≡ running k m))
Reach-waiting {s} r j k m e =
    let v = Reach-Inv r in
    elim (Bool-cases (s.held m)) [
      | inr free ↦ inl free
      | inl taken ↦
          let (i, l, runs) = v.owned m taken in
          let same = v.table.distinct l k m (v.runs i l m runs) (v.waits j k m e) in
          inr (i, runs ∙ ap (λ x. running x m) same)
    ]
