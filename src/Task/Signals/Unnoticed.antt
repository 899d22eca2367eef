-- ===== src/Task/Signals/Unnoticed.antt =====
-- SIGNAL_KILLED has the value 0, so that a thread that is killed never hears of it.
use project_dionysus.Base.{
  ℕ, ◌≡◌, ◌≢◌, refl, Bool, ◌⊎◌, inl, inr, Option, some, error_internal_intr_killed, ok, arith,
  ==_refl,
}
use project_dionysus.Base.Bits.{bit_or-zero, bit_and-zero}
use project_dionysus.Task.{System, ThreadState}
use project_dionysus.Task.WaitQueue.{
  signal_killed, ResourceOwnership, returned, block_etc, block_now,
}
use project_dionysus.Task.WaitQueue.{unblock_if_interruptible}
use project_dionysus.Task.WaitQueue.Readers.{unblock_thread_reader}
use project_dionysus.Task.Signals.{kill_locked, raise_signal}

-- Killing a thread that waits for the processor, or runs elsewhere, changes the signals of no
-- thread.
pub kill_locked_unnoticed :
    (cpus here t : ℕ) (s : System)
    → (((s.threads t).state ≡ ThreadState.ready) ⊎ ((s.threads t).state ≡ ThreadState.running))
    → (s' : System) × (kill_locked cpus here t s ≡ ok s')
      × ((x : ℕ) → (s'.threads x).signals ≡ (s.threads x).signals)
unfolding kill_locked raise_signal
kill_locked_unnoticed cpus here t s (inl r) = (
  raise_signal t signal_killed s,
  ground (arith, r),
  λ x. ground (arith, bit_or-zero (s.threads x).signals),
)
kill_locked_unnoticed cpus here t s (inr r) = (
  raise_signal t signal_killed s,
  ground (arith, r),
  λ x. ground (arith, bit_or-zero (s.threads x).signals),
)

-- Blocking never returns that the thread was killed, whatever its signals are.
pub block_etc_never_killed :
    (here w : ℕ) (ddl : Option ℕ) (now mask : ℕ) (reason : ResourceOwnership) (intr : Bool)
    (s s' : System)
    → block_etc here w ddl now mask reason intr s
      ≢ ok (returned (some error_internal_intr_killed) s')
unfolding block_etc block_now
block_etc_never_killed here w ddl now mask reason intr s s' =
    ground (arith, bit_and-zero (s.threads (s.current here)).signals)

-- Killing another thread that waits as a reader, interruptible or not, leaves it in its wait queue
-- and blocked.
pub kill_locked_reader :
    (cpus here t : ℕ) (s : System)
    → (s.threads t).state ≡ ThreadState.blocked_read_lock
    → t ≢ s.current here
    → (s' : System) × (kill_locked cpus here t s ≡ ok s')
      × (s'.waiters ≡ s.waiters)
      × (s'.run_queue ≡ s.run_queue)
      × ((s'.threads t).state ≡ ThreadState.blocked_read_lock)
unfolding kill_locked raise_signal unblock_if_interruptible
kill_locked_reader cpus here t s h n =
    let s1 = raise_signal t signal_killed s in
    let same : (s1.threads t).state ≡ ThreadState.blocked_read_lock =
      ground (arith, h, ==_refl t) in
    let refused = unblock_thread_reader cpus here t (some error_internal_intr_killed) s1 same in
    (s1, ground (arith, h, n, refused), refl, refl, same)
