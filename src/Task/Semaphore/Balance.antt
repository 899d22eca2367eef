-- ===== src/Task/Semaphore/Balance.antt =====
-- A semaphore has tokens left or threads that wait, never both.
use project_dionysus.Base.{
  ℕ, ◌+◌, ◌-◌, ◌^◌, ◌%◌, ◌≡◌, ◌≢◌, ◌<◌, true, List, [], ◌∷◌, ◌++◌, Option, none, ok, arith,
}
use project_dionysus.Task.{System, ThreadState}
use project_dionysus.Task.WaitQueue.{returned, finish_block}
use project_dionysus.Task.WaitQueue.Wake.{IsWaiting, wake_one_first}
use project_dionysus.Task.Semaphore.{
  Semaphore, balanced, wait_locked, signal_locked, try_wait_locked,
}

-- The assertion at the head of both operations holds again after them.
pub signal_locked-balanced :
    (cpus here : ℕ) (m m' : Semaphore) (s s' : System)
    → signal_locked cpus here m s ≡ ok (m', s')
    → balanced m' s' ≡ true
unfolding signal_locked
signal_locked-balanced cpus here m m' s s' h = ground arith

-- With tokens left and the assertion true, waiting takes one token at once, and the assertion
-- stays true.
pub wait_locked_takes :
    (here : ℕ) (ddl : Option ℕ) (now : ℕ) (m : Semaphore) (s : System)
    → balanced m s ≡ true
    → m.count ≢ 0
    → (m' : Semaphore) × (wait_locked here ddl now m s ≡ ok (m', returned none s))
      × (m'.count + 1 ≡ m.count)
      × (balanced m' s ≡ true)
unfolding wait_locked
wait_locked_takes here ddl now m s b n =
    (record m { count = m.count - 1 }, ground arith, ground arith, ground arith)

-- Signalling a semaphore of count zero on which a thread waits that may run on any processor
-- leaves the count, takes the first waiter from the queue and puts it ready at the end of the
-- run queue, and its call of wait is to return success.
pub signal_locked_hands_over :
    (cpus here t : ℕ) (q : List ℕ) (m : Semaphore) (s : System)
    → m.count ≡ 0
    → s.waiters m.wait_queue ≡ t ∷ q
    → IsWaiting m.wait_queue (s.threads t)
    → (s' : System) × (signal_locked cpus here m s ≡ ok (m, s'))
      × (s'.waiters m.wait_queue ≡ q)
      × (s'.run_queue here ≡ s.run_queue here ++ t ∷ [])
      × ((s'.threads t).state ≡ ThreadState.ready)
      × ((finish_block t s').0 ≡ none)
unfolding signal_locked finish_block
signal_locked_hands_over cpus here t q m s c e v =
    let (s', run, rest, order, fine, detached, told, same) =
      wake_one_first cpus here m.wait_queue t q true none s e v in
    (s', ground (arith, c, e, run), rest, order, fine, told)

-- A token that is signalled while nobody waits is there for the next thread that tries.
pub try_wait_locked-signal_locked :
    (cpus here : ℕ) (m : Semaphore) (s : System)
    → s.waiters m.wait_queue ≡ []
    → m.count + 1 < 2 ^ 64
    → (m' : Semaphore) × (signal_locked cpus here m s ≡ ok (m', s))
      × (try_wait_locked m' ≡ (true, m))
unfolding signal_locked try_wait_locked
try_wait_locked-signal_locked cpus here m s e h =
    (record m { count = (m.count + 1) % 2 ^ 64 }, ground (arith, e), ground arith)
