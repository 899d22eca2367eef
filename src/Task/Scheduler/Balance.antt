-- ===== src/Task/Scheduler/Balance.antt =====
-- Moving threads between processors.
use project_dionysus.Base.{
  ℕ, ◌+◌, ◌<◌, ◌≡◌, ◌≢◌, refl, sym, true, false, [], ◌∷◌, ◌++◌, some, ok, fault, arith, ==_refl,
}
use project_dionysus.Task.{System, ready, dying, update, is_state}
use project_dionysus.Task.Fcfs
use project_dionysus.Task.Scheduler.{
  enqueue, insert, insert_locked, push_migration, busiest, laziest,
}
use project_dionysus.Task.Scheduler.RoundRobin.{enqueue_ready}

-- Enqueueing a ready thread on another processor's queue faults.
enqueue_other :
    (here owner t : ℕ) (s : System)
    → here ≢ owner
    → is_state t dying s ≡ false
    → enqueue here owner t s ≡ fault
unfolding enqueue Fcfs.enqueue
enqueue_other here owner t s n d = ground (arith, d)

-- Load balancing at a tick faults whenever it would move a thread to a processor other than the
-- one that takes the tick: the class of that processor asserts that it runs there.
pub push_migration_fault :
    (cpus here t : ℕ) (s s' : System)
    → Fcfs.workload_size (laziest cpus 0 0 s) s + 1 < Fcfs.workload_size (busiest cpus 0 0 s) s
    → Fcfs.steal here (busiest cpus 0 0 s) here s ≡ (some t, s')
    → is_state t dying s' ≡ false
    → laziest cpus 0 0 s ≢ here
    → push_migration cpus here s ≡ fault
unfolding push_migration
push_migration_fault cpus here t s s' h e d n =
    ground (arith, e, enqueue_other here (laziest cpus 0 0 s) t s' (λ p. n (sym p)) d)

-- A ready thread with an affinity to the processor that inserts it is put into the run queue
-- twice.
pub insert_twice :
    (cpus here t : ℕ) (s : System)
    → (s.threads t).affinity ≡ some here
    → here < cpus
    → is_state t ready s ≡ true
    → (s' : System) × (insert cpus here t s ≡ ok s')
      × (s'.run_queue here ≡ (s.run_queue here ++ t ∷ []) ++ t ∷ [])
unfolding insert insert_locked
insert_twice cpus here t s a lt r =
    let s1 = record s { run_queue = update s.run_queue here (s.run_queue here ++ t ∷ []) } in
    let s2 = record s1 { run_queue = update s1.run_queue here (s1.run_queue here ++ t ∷ []) } in
    (
      s2,
      ground (arith, a, ==_refl here, enqueue_ready here t s r, enqueue_ready here t s1 r),
      rw (==_refl here) refl,
    )
