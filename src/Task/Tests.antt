-- ===== src/Task/Tests.antt =====
-- Scheduling on concrete data: the theorems at inputs that meet their hypotheses.
use project_dionysus.Base.{
  ℕ, ◌+◌, ◌≡◌, refl, true, false, none, some, ok, ◌==◌, if◌then◌else◌, ◌++◌, ◌∷◌, [], All,
  error_timeout,
}
use project_dionysus.Task.{Thread, System, ThreadState, AffinityType}
use project_dionysus.Task.Scheduler.RoundRobin.{IsRunnable, reschedule_times, reschedule_times_fair}
use project_dionysus.Task.WaitQueue.{reader, waiting, block_etc, wake_one, wake_all, finish_block}
use project_dionysus.Task.WaitQueue.Wake.{IsWaiting, wake_one_first}
use project_dionysus.Task.WaitQueue.WakeAll.{IsReady, wake_all_order}
use project_dionysus.Task.WaitQueue.Block.{blocked_for, block_etc_waits}
use project_dionysus.Task.Semaphore.{Semaphore, signal_locked}
use project_dionysus.Task.Semaphore.Balance.{signal_locked_hands_over}

abbrev thread_in : ThreadState → Thread
thread_in st = record {
  state = st;
  affinity = none;
  affinity_type = AffinityType.soft;
  flag_idle = false;
  flag_init = false;
  need_reschedule = false;
  signals = 0;
  interruptible = false;
  blocking_on = none;
  block_code = none;
}

-- Thread 1 runs on processor 0, threads 2 and 3 wait for it.
abbrev three : System
three = record {
  threads = λ t. if t == 1 then thread_in ThreadState.running else thread_in ThreadState.ready;
  run_queue = λ c. if c == 0 then 2 ∷ 3 ∷ [] else [];
  zombie_queue = λ _. [];
  waiters = λ _. [];
  current = λ c. c + 1;
  idle = λ c. c + 10;
}

three-IsRunnable : IsRunnable 0 three
three-IsRunnable = record {
  running = refl;
  apart = refl;
  distinct = (refl, (refl, tt));
  ready = (refl, (refl, tt));
}

reschedule_times_fair_example :
    (s' : System) × (reschedule_times 2 0 three ≡ ok s') × (s'.current 0 ≡ 3) × IsRunnable 0 s'
reschedule_times_fair_example = reschedule_times_fair 1 0 three 3 three-IsRunnable refl

-- Threads 2 and 3 wait in queue 5 while thread 1 runs.
abbrev waiter : ThreadState → Thread
waiter st = record (thread_in st) { blocking_on = some 5 }

abbrev sleepy : System
sleepy = record three {
  threads = λ t.
      if t == 1
      then thread_in ThreadState.running
      else if t == 2
      then waiter ThreadState.blocked
      else waiter ThreadState.blocked_read_lock;
  run_queue = λ _. [];
  waiters = λ w. if w == 5 then 2 ∷ 3 ∷ [] else [];
}

second-IsWaiting : IsWaiting 5 (waiter ThreadState.blocked)
second-IsWaiting = record { state = refl; queue = refl; anywhere = refl; busy = refl }

third-IsWaiting : IsWaiting 5 (waiter ThreadState.blocked_read_lock)
third-IsWaiting = record { state = refl; queue = refl; anywhere = refl; busy = refl }

wake_one_first_example :
    (s' : System) × (wake_one 4 0 5 true none sleepy ≡ ok (false, s'))
    × (s'.waiters 5 ≡ 3 ∷ [])
    × (s'.run_queue 0 ≡ [] ++ 2 ∷ [])
    × ((s'.threads 2).state ≡ ThreadState.ready)
    × ((s'.threads 2).blocking_on ≡ none)
    × ((s'.threads 2).block_code ≡ none)
    × (s'.current ≡ sleepy.current)
wake_one_first_example = wake_one_first 4 0 5 2 (3 ∷ []) true none sleepy refl second-IsWaiting

wake_all_order_example :
    (s' : System) × (wake_all 4 0 5 false (some error_timeout) sleepy ≡ ok s')
    × (s'.waiters 5 ≡ [])
    × (s'.run_queue 0 ≡ [] ++ 2 ∷ 3 ∷ [])
    × All (λ x. IsReady (some error_timeout) (s'.threads x)) (2 ∷ 3 ∷ [])
wake_all_order_example =
    wake_all_order 4 0 5 (2 ∷ 3 ∷ []) (some error_timeout) sleepy refl (refl, (refl, tt))
      (second-IsWaiting, (third-IsWaiting, tt))

block_etc_waits_example :
    (s' : System) × (block_etc 0 5 none 9 0 reader false three ≡ ok (waiting none s'))
    × (s'.waiters 5 ≡ [] ++ 1 ∷ [])
    × (s'.current 0 ≡ 2)
    × (s'.run_queue 0 ≡ 3 ∷ [])
    × ((s'.threads 1).state ≡ blocked_for reader)
    × ((s'.threads 2).state ≡ ThreadState.running)
block_etc_waits_example = block_etc_waits 0 2 5 (3 ∷ []) three three-IsRunnable refl 9 0 reader

abbrev lock_of : ℕ → Semaphore
lock_of n = record { count = n; wait_queue = 5 }

signal_locked_hands_over_example :
    (s' : System) × (signal_locked 4 0 (lock_of 0) sleepy ≡ ok (lock_of 0, s'))
    × (s'.waiters 5 ≡ 3 ∷ [])
    × (s'.run_queue 0 ≡ [] ++ 2 ∷ [])
    × ((s'.threads 2).state ≡ ThreadState.ready)
    × ((finish_block 2 s').0 ≡ none)
signal_locked_hands_over_example =
    signal_locked_hands_over 4 0 2 (3 ∷ []) (lock_of 0) sleepy refl refl second-IsWaiting
