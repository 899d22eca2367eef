-- ===== src/Task/Scheduler.antt =====
-- kern/task/scheduler/scheduler.cc over the scheduler class of Task/Fcfs. The context switch is
-- the change of the current thread.
pub mod RoundRobin
pub mod Balance
use project_dionysus.Base.{
  ℕ, zero, suc, ◌+◌, ◌≡◌, Bool, true, false, not, ◌&&◌, ◌||◌, List, [], ◌∷◌, ◌++◌, Option, none,
  some, Run, ok, fault, assert, ◌>>=◌, ◌>>◌, ◌==◌, ltb, if◌then◌else◌,
}
use project_dionysus.Task.{
  Thread, System, ready, running, dying, update, set_state, set_thread, is_state, state_eq,
  ThreadState,
}
use project_dionysus.Task.Fcfs

-- scheduler::enqueue: the idle thread may not die.
unfoldable pub enqueue : ℕ → ℕ → ℕ → System → Run System
enqueue here owner t s =
    if is_state t dying s && t == s.idle here then fault else Fcfs.enqueue here owner t s

-- thread::switch_to, as far as scheduling sees it.
unfoldable pub switch_to : ℕ → ℕ → System → Run System
switch_to here t s =
    assert (is_state t ready s)
    >> ok (record (set_state t running s) { current = update s.current here t })

-- What `schedule` does with the thread that it fetched, if any.
unfoldable pub dispatch : ℕ → ℕ → Option ℕ × System → Run System
dispatch here cur (none, s) = if s.idle here == cur then ok s else switch_to here (s.idle here) s
dispatch here cur (some next, s) = do
  s' ← Fcfs.dequeue here here next s
  if next == cur then ok s' else switch_to here next s'

unfoldable pub schedule : ℕ → System → Run System
schedule here s = do
  let cur = s.current here
  let s1 = set_thread cur (record (s.threads cur) { need_reschedule = false }) s
  s2 ← (if is_state cur ready s1 then enqueue here here cur s1 else ok s1)
  fetched ← Fcfs.fetch here here s2
  dispatch here cur fetched

unfoldable pub reschedule_locked : ℕ → System → Run System
reschedule_locked here s =
    if is_state (s.current here) running s
    then schedule here (set_state (s.current here) ready s)
    else schedule here s

pub yield_locked : ℕ → System → System
yield_locked here s =
    set_thread (s.current here) (record (s.threads (s.current here)) { need_reschedule = true }) s

-- scheduler::unblock_locked and insert_locked of the scheduler of `owner`.
unfoldable pub unblock_locked : ℕ → ℕ → ℕ → System → Run System
unblock_locked here owner t s = assert (here == owner) >> enqueue here owner t (set_state t ready s)

unfoldable pub insert_locked : ℕ → ℕ → ℕ → System → Run System
insert_locked here owner t s = assert (here == owner) >> enqueue here owner t s

-- scheduler::current::unblock, with `cpus` the number of valid processors. The result says
-- whether the thread is to run here by its affinity.
unfoldable pub unblock : ℕ → ℕ → ℕ → System → Run (Bool × System)
unblock cpus here t s = elim (s.threads t).affinity [
  | none ↦ (unblock_locked here here t s >>= λ s'. ok (false, s'))
  | some c ↦ (assert (ltb c cpus) >> (unblock_locked here c t s >>= λ s'. ok (c == here, s')))
]

-- scheduler::current::insert: after the processor of the affinity there is no return.
unfoldable pub insert : ℕ → ℕ → ℕ → System → Run System
insert cpus here t s = elim (s.threads t).affinity [
  | none ↦ insert_locked here here t s
  | some c ↦
      (assert (ltb c cpus) >> (insert_locked here c t s >>= λ s'. insert_locked here here t s'))
]

-- scheduler::current::unblock_locked, over the threads of a list.
unfoldable pub unblock_all : ℕ → ℕ → List ℕ → System → Run System
unblock_all cpus here [] s = ok s
unblock_all cpus here (t ∷ ts) s = do
  assert (not (s.threads t).flag_idle)
  r ← unblock cpus here t (set_state t ready s)
  unblock_all cpus here ts r.1

-- The busiest and the least busy processor: the first of each among the processors from `c` on.
unfoldable pub busiest : ℕ → ℕ → ℕ → System → ℕ
busiest zero c best s = best
busiest (suc n) c best s =
    busiest n (c + 1) (if ltb (Fcfs.workload_size best s) (Fcfs.workload_size c s) then c else best)
      s

unfoldable pub laziest : ℕ → ℕ → ℕ → System → ℕ
laziest zero c best s = best
laziest (suc n) c best s =
    laziest n (c + 1) (if ltb (Fcfs.workload_size c s) (Fcfs.workload_size best s) then c else best)
      s

-- The push half of load balancing, at the end of `tick`.
unfoldable pub push_migration : ℕ → ℕ → System → Run System
push_migration cpus here s =
    let max_cpu = busiest cpus 0 0 s in
    let min_cpu = laziest cpus 0 0 s in
    if not (max_cpu == min_cpu)
      && ltb (Fcfs.workload_size min_cpu s + 1) (Fcfs.workload_size max_cpu s)
    then (let (stolen, s') = Fcfs.steal here max_cpu here s in
        elim stolen [ none ↦ ok s' | some t ↦ enqueue here min_cpu t s' ])
    else ok s

unfoldable pub tick : ℕ → ℕ → System → Run System
tick cpus here s = do
  let cur = s.current here
  s' ←
      (if not (cur == s.idle here)
        then Fcfs.tick here here s
        else ok (set_thread cur (record (s.threads cur) { need_reschedule = true }) s))
  push_migration cpus here s'

-- The loop of `idle` over the processors, which never moves to the processor it runs on.
unfoldable pub busiest_other : ℕ → ℕ → ℕ → ℕ → System → ℕ
busiest_other zero c here best s = best
busiest_other (suc n) c here best s =
    busiest_other n (c + 1) here
      (if ltb (Fcfs.workload_size best s) (Fcfs.workload_size c s) && not (here == c)
        then c
        else best)
      s

-- One round of the loop of `idle`.
unfoldable pub idle_round : ℕ → ℕ → System → Run System
idle_round cpus here s = do
  let (stolen, s1) = Fcfs.steal here (busiest_other cpus 0 here 0 s) here s
  s2 ← elim stolen [ none ↦ ok s1 | some t ↦ enqueue here here t s1 ]
  reschedule_locked here s2
