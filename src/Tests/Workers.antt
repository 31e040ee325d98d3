-- ===== src/Tests/Workers.antt =====
-- Workers under the locks of the reconciler, and calls of a synchronised client.
use native.Mathlib.Decide.{ℕ_discrete}
use k8s_dns_manager.Prelude.{
  ℕ, ◌≡◌, ◌≢◌, arith, refl, true, false, [], codes, Text, lookup, insert, text_eq,
}
use k8s_dns_manager.Libdns.{LibRecord}
use k8s_dns_manager.Libdns.Synced
use k8s_dns_manager.Libdns.Synced.Exclusion.{is_idle, Reach-apart}
use k8s_dns_manager.Controllers.Locks.{
  set_at, lock_of, finding, waiting, running, System, begin, find, acquire, init, Reach, start,
  later,
}
use k8s_dns_manager.Controllers.Locks.Exclusion.{Reach-exclusive}

abbrev key : Text
key = codes "default/www"

abbrev began : ℕ → System → System
began i s = record s { busy = true; pc = set_at s.pc i (finding key) }

abbrev found : ℕ → System → System
found i s = record s {
  locks = (lock_of key s.locks).1;
  busy = false;
  pc = set_at s.pc i (waiting key (lock_of key s.locks).0);
}

abbrev took : ℕ → System → System
took i s = record s { held = set_at s.held 0 true; pc = set_at s.pc i (running key 0) }

-- Worker 1 reconciles the object, for which worker 2 waits.
abbrev two_workers : System
two_workers = found 2 (began 2 (took 1 (found 1 (began 1 init))))

two_workers-Reach : Reach two_workers
unfolding lock_of lookup insert text_eq ℕ_discrete
two_workers-Reach =
    later
      (later
        (later (later (later start (begin 1 key refl refl)) (find 1 key refl))
          (acquire 1 key 0 refl refl))
        (begin 2 key refl refl))
      (find 2 key refl)

one-runs : two_workers.pc 1 ≡ running key 0
unfolding lock_of lookup insert text_eq ℕ_discrete
one-runs = refl

two-waits : two_workers.pc 2 ≡ waiting key 0
unfolding lock_of lookup insert text_eq ℕ_discrete
two-waits = refl

one-other : ◌≢◌ {A = ℕ} 1 2
one-other e = omega (arith, e)

Reach-exclusive_example : two_workers.pc 2 ≢ running key 0
Reach-exclusive_example = Reach-exclusive two_workers-Reach 1 2 key 0 0 one-other one-runs

abbrev rec : LibRecord
rec = record { id = []; rtype = codes "A"; name = codes "www"; value = codes "1.2.3.4"; ttl = 60 }

abbrev zone : Text
zone = codes "example.org."

abbrev in_append : Synced.System
in_append = record Synced.init {
  mu = record Synced.init.mu { writer = true };
  pc = set_at Synced.init.pc 1 (Synced.appending zone rec);
}

in_append-Reach : Synced.Reach in_append
unfolding ℕ_discrete
in_append-Reach = Synced.later Synced.start (Synced.append 1 zone rec refl (refl, λ j. refl))

Reach-apart_example : is_idle (in_append.pc 2) ≡ true
unfolding ℕ_discrete
Reach-apart_example = Reach-apart 1 2 in_append-Reach refl one-other
