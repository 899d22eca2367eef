-- ===== src/Task/WaitQueue/Wake.antt =====
-- Waking takes threads from a wait queue in the order in which they blocked.
use project_dionysus.Base.{
  ℕ, ◌≡◌, refl, Bool, true, false, ◌||◌, List, [], ◌∷◌, ◌++◌, Option, none, some, ErrorCode, ok,
  arith, ==_refl,
}
use project_dionysus.Task.{
  Thread, System, ThreadState, ready, blocked, blocked_read_lock, update, set_thread, set_state,
  state_eq,
}
use project_dionysus.Task.Threads.{remove_first, has_first}
use project_dionysus.Task.Scheduler.{unblock, unblock_locked}
use project_dionysus.Task.Scheduler.RoundRobin.{enqueue_ready}
use project_dionysus.Task.WaitQueue.{dequeue, wake_one, peek}

-- A thread that waits in queue `w`, and may run on any processor.
pub record IsWaiting (w : ℕ) (t : Thread) : Type 0 where
  pub state : (state_eq t.state blocked || state_eq t.state blocked_read_lock) ≡ true
  pub queue : t.blocking_on ≡ some w
  pub anywhere : t.affinity ≡ none
  pub busy : t.flag_idle ≡ false

abbrev pub taken : ℕ → Option ErrorCode → Thread → Thread
taken w code t = record t { blocking_on = none; block_code = code }

-- The state when the head `t` of queue `w` has been dequeued.
abbrev pub dequeued : ℕ → ℕ → List ℕ → Option ErrorCode → System → System
dequeued w t q code s = record (set_thread t (taken w code (s.threads t)) s) {
  waiters = update s.waiters w q;
}

pub dequeue_first :
    (w t : ℕ) (q : List ℕ) (code : Option ErrorCode) (s : System)
    → s.waiters w ≡ t ∷ q
    → IsWaiting w (s.threads t)
    → dequeue w t code s ≡ ok (dequeued w t q code s)
unfolding dequeue
dequeue_first w t q code s e v =
    rw (e, has_first t q, v.state, v.queue, ==_refl w, remove_first t q) refl

abbrev pub unblocked : ℕ → ℕ → System → System
unblocked here t s = record (set_state t ready s) {
  run_queue = update s.run_queue here (s.run_queue here ++ t ∷ []);
}

unblock_locked_here :
    (here t : ℕ) (s : System) → unblock_locked here here t s ≡ ok (unblocked here t s)
unfolding unblock_locked
unblock_locked_here here t s =
    rw (==_refl here) (enqueue_ready here t (set_state t ready s) (rw (==_refl t) refl))

pub unblock_here :
    (cpus here t : ℕ) (s : System)
    → (s.threads t).affinity ≡ none
    → unblock cpus here t s ≡ ok (false, unblocked here t s)
unfolding unblock
unblock_here cpus here t s a = ground (arith, a, unblock_locked_here here t s)

-- Waking one thread of a wait queue whose first thread may run on any processor takes that
-- thread from the queue, tells it the code, and puts it ready at the end of the run queue of
-- this processor, which goes on with its current thread.
pub wake_one_first :
    (cpus here w t : ℕ) (q : List ℕ) (reschedule : Bool) (code : Option ErrorCode) (s : System)
    → s.waiters w ≡ t ∷ q
    → IsWaiting w (s.threads t)
    → (s' : System) × (wake_one cpus here w reschedule code s ≡ ok (false, s'))
      × (s'.waiters w ≡ q)
      × (s'.run_queue here ≡ s.run_queue here ++ t ∷ [])
      × ((s'.threads t).state ≡ ThreadState.ready)
      × ((s'.threads t).blocking_on ≡ none)
      × ((s'.threads t).block_code ≡ code)
      × (s'.current ≡ s.current)
unfolding wake_one peek
wake_one_first cpus here w t q reschedule code s e v =
    let s1 = dequeued w t q code s in
    let anywhere : (s1.threads t).affinity ≡ none = rw (==_refl t) v.anywhere in
    let run1 = dequeue_first w t q code s e v in
    let run2 = unblock_here cpus here t s1 anywhere in
    (
      unblocked here t s1,
      ground (arith, e, run1, run2),
      rw (==_refl w) refl,
      rw (==_refl here) refl,
      rw (==_refl t) refl,
      rw (==_refl t) refl,
      rw (==_refl t) refl,
      refl,
    )
