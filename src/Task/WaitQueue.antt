-- ===== src/Task/WaitQueue.antt =====
-- kern/task/thread/wait_queue.cc. A wait queue is a number; that a thread's link is in a list
-- (`holding`) is read as: in the list of the queue that is concerned.
pub mod Wake
pub mod WakeAll
pub mod Readers
pub mod Block
use Prim.Native.Nat.{bit_and}
use project_dionysus.Base.{
  ℕ, ◌+◌, ◌-◌, ◌*◌, ◌^◌, ◌%◌, ◌≡◌, Bool, true, false, not, ◌&&◌, ◌||◌, List, [], ◌∷◌, ◌++◌, Option,
  none, some, ErrorCode, error_invalid, error_timeout, error_internal_intr_killed,
  error_internal_intr_retry, Run, ok, fault, assert, deref, ◌>>=◌, ◌>>◌, ◌==◌, ltb, if◌then◌else◌,
}
use project_dionysus.Task.{
  Thread, System, ThreadState, running, blocked, blocked_read_lock, update, remove, set_thread,
  set_state, is_state, has,
}
use project_dionysus.Task.Scheduler.{reschedule_locked, unblock, unblock_all}

-- thread_signals: the enumerators have no values of their own.
abbrev pub signal_killed : ℕ
signal_killed = 0

abbrev pub signal_suspend : ℕ
signal_suspend = 1

-- `signals_ & ~signal_mask`, with a mask of 32 bits.
pub unmasked : ℕ → ℕ → ℕ
unmasked signals mask = bit_and signals (2 ^ 32 - 1 - mask % 2 ^ 32)

pub data ResourceOwnership : Type 0 where
  normal reader : ResourceOwnership

-- How a call of `block_etc` leaves the processor: it returns at once, or another thread has been
-- scheduled, with the time after which a timer that was added expires.
pub data Blocking : Type 0 where
  returned : Option ErrorCode → System → Blocking
  waiting : Option ℕ → System → Blocking

-- The thread is linked into the queue and its state says so.
unfoldable pub enlist : ℕ → ℕ → ResourceOwnership → Bool → System → System
enlist t w reason intr s =
    record (set_thread t
      (record (s.threads t) {
        state = elim reason [ normal ↦ blocked | reader ↦ blocked_read_lock ];
        interruptible = intr;
        blocking_on = some w;
        block_code = none;
      })
      s) { waiters = update s.waiters w (s.waiters w ++ t ∷ []) }

-- The rest of `block_etc`, behind its early returns. `ddl` is the time of the deadline, none for
-- TIME_INFINITE, and `now` what the clock says.
unfoldable pub block_now : ℕ → ℕ → Option ℕ → ℕ → ResourceOwnership → Bool → System → Run Blocking
unfolding enlist
block_now here w ddl now reason intr s = do
  s' ← reschedule_locked here (enlist (s.current here) w reason intr s)
  ok (waiting (elim ddl [ none ↦ none | some when ↦ some (when - now) ]) s')

pub expired : Option ℕ → ℕ → Bool
expired none now = false
expired (some when) now = ltb when now

unfoldable pub block_etc :
    ℕ → ℕ → Option ℕ → ℕ → ℕ → ResourceOwnership → Bool → System → Run Blocking
unfolding expired unmasked
block_etc here w ddl now mask reason intr s =
    let t = s.threads (s.current here) in
    assert (is_state (s.current here) running s)
    >> (if expired ddl now
        then ok (returned (some error_timeout) s)
        else if intr
            && not (unmasked t.signals mask == 0)
            && not (bit_and t.signals signal_killed == 0)
        then ok (returned (some error_internal_intr_killed) s)
        else if intr
            && not (unmasked t.signals mask == 0)
            && not (bit_and t.signals signal_suspend == 0)
        then ok (returned (some error_internal_intr_retry) s)
        else block_now here w ddl now reason intr s)

-- What `block_etc` does when the thread runs again.
unfoldable pub finish_block : ℕ → System → Option ErrorCode × System
finish_block t s =
    ((s.threads t).block_code, set_thread t (record (s.threads t) { interruptible = false }) s)

unfoldable pub peek : ℕ → System → Option ℕ
peek w s = elim (s.waiters w) [ [] ↦ none | t ∷ q ↦ some t ]

abbrev pub blocks_on : Option ℕ → ℕ → Bool
blocks_on none w = false
blocks_on (some v) w = v == w

abbrev pub is_blocked : ℕ → System → Bool
is_blocked t s = is_state t blocked s || is_state t blocked_read_lock s

-- The thread is unlinked and told the code, none for ERROR_SUCCESS.
unfoldable pub dequeue : ℕ → ℕ → Option ErrorCode → System → Run System
dequeue w t code s =
    assert (has t (s.waiters w))
    >> assert (is_blocked t s)
    >> assert (blocks_on (s.threads t).blocking_on w)
    >> ok
        (record (set_thread t (record (s.threads t) { blocking_on = none; block_code = code }) s) {
          waiters = update s.waiters w (remove t (s.waiters w));
        })

-- The result says whether the woken thread took the processor.
unfoldable pub wake_one : ℕ → ℕ → ℕ → Bool → Option ErrorCode → System → Run (Bool × System)
wake_one cpus here w reschedule code s = elim (peek w s) [
  | none ↦ ok (false, s)
  | some t ↦
      (dequeue w t code s >>= λ s1. unblock cpus here t s1 >>= λ r.
      if reschedule && r.0
      then (reschedule_locked here r.1 >>= λ s2. ok (true, s2))
      else ok (false, r.1))
]

-- The loop of `wake_all`, over the threads of the queue.
unfoldable pub dequeue_all : ℕ → List ℕ → Option ErrorCode → System → Run System
dequeue_all w [] code s = ok s
dequeue_all w (t ∷ q) code s = dequeue w t code s >>= λ s'. dequeue_all w q code s'

unfoldable pub wake_all : ℕ → ℕ → ℕ → Bool → Option ErrorCode → System → Run System
wake_all cpus here w reschedule code s =
    if is_empty (s.waiters w)
    then ok s
    else (dequeue_all w (s.waiters w) code s >>= λ s1.
        unblock_all cpus here (s.waiters w) s1 >>= λ s2.
        if reschedule then reschedule_locked here s2 else ok s2)
  where
    is_empty : List ℕ → Bool
    is_empty [] = true
    is_empty (t ∷ q) = false

unfoldable pub unblock_thread :
    ℕ → ℕ → ℕ → Option ErrorCode → System → Run (Option ErrorCode × System)
unblock_thread cpus here t code s =
    if not (is_state t blocked s) && is_state t blocked_read_lock s
    then ok (some error_invalid, s)
    else (deref (s.threads t).blocking_on >>= λ w. dequeue w t code s >>= λ s1.
        unblock cpus here t s1 >>= λ r.
        if r.0 then (reschedule_locked here r.1 >>= λ s2. ok (none, s2)) else ok (none, r.1))

unfoldable pub unblock_if_interruptible : ℕ → ℕ → ℕ → Option ErrorCode → System → Run System
unblock_if_interruptible cpus here t status s =
    if (s.threads t).interruptible
    then (unblock_thread cpus here t status s >>= λ r. ok r.1)
    else ok s

unfoldable pub unsleep : ℕ → ℕ → ℕ → Option ErrorCode → System → Run (Bool × System)
unsleep cpus here t status s =
    unblock cpus here t (set_thread t (record (s.threads t) { block_code = status }) s)

unfoldable pub unsleep_if_interruptible :
    ℕ → ℕ → ℕ → Option ErrorCode → System → Run (Bool × System)
unsleep_if_interruptible cpus here t status s =
    if (s.threads t).interruptible then unsleep cpus here t status s else ok (false, s)
