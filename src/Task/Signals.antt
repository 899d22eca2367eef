-- ===== src/Task/Signals.antt =====
-- Killing, suspending and resuming a thread: kill_locked, suspend and resume of
-- kern/task/thread/thread.cc.
pub mod Unnoticed
use Prim.Native.Nat.{bit_and, bit_or}
use project_dionysus.Base.{
  ℕ, ◌-◌, ◌^◌, ◌≡◌, Bool, true, false, not, ◌&&◌, ◌||◌, Option, none, some, ErrorCode,
  error_invalid, error_internal_intr_killed, error_internal_intr_retry, Run, ok, fault, assert,
  ◌>>=◌, ◌>>◌, ◌==◌, if◌then◌else◌,
}
use project_dionysus.Task.{
  Thread, System, ThreadState, initial, ready, running, suspended, blocked, blocked_read_lock,
  sleeping, dying, dead, set_thread, is_state,
}
use project_dionysus.Task.Scheduler.{reschedule_locked, unblock}
use project_dionysus.Task.WaitQueue.{
  signal_killed, signal_suspend, unblock_if_interruptible, unsleep_if_interruptible,
}

-- signals_ |= signal
unfoldable pub raise_signal : ℕ → ℕ → System → System
raise_signal t signal s =
    set_thread t (record (s.threads t) { signals = bit_or (s.threads t).signals signal }) s

-- signals_ &= ~signal
unfoldable pub drop_signal : ℕ → ℕ → System → System
drop_signal t signal s =
    set_thread t
      (record (s.threads t) { signals = bit_and (s.threads t).signals (2 ^ 64 - 1 - signal) }) s

abbrev reschedule_if : ℕ → Bool × System → Run System
reschedule_if here (true, s) = reschedule_locked here s
reschedule_if here (false, s) = ok s

unfoldable pub kill_locked : ℕ → ℕ → ℕ → System → Run System
kill_locked cpus here t s0 =
    let s = raise_signal t signal_killed s0 in
    if t == s.current here then ok s else elim (s.threads t).state [
      | initial ↦ ok s
      | ready ↦ ok s
      | running ↦ ok s
      | suspended ↦ (unblock cpus here t s >>= reschedule_if here)
      | blocked ↦ unblock_if_interruptible cpus here t (some error_internal_intr_killed) s
      | blocked_read_lock ↦ unblock_if_interruptible cpus here t (some error_internal_intr_killed) s
      | sleeping ↦
          (unsleep_if_interruptible cpus here t (some error_internal_intr_killed) s
            >>= reschedule_if here)
      | dying ↦ ok s
      | dead ↦ ok s
    ]

-- `disabled` says whether interrupts were off at the call.
unfoldable pub resume : ℕ → ℕ → Bool → ℕ → System → Run System
resume cpus here disabled t s0 =
    let s = drop_signal t signal_suspend s0 in
    if is_state t dead s0 || is_state t dying s0
    then ok s0
    else if is_state t initial s0 || is_state t suspended s0
    then (unblock cpus here t s >>= λ r. reschedule_if here (disabled && r.0, r.1))
    else ok s

-- The thread's own request to be rescheduled is tested, on the processor of the caller.
abbrev finish_suspend : ℕ → ℕ → Bool × System → Run (Option ErrorCode × System)
finish_suspend here t (local, s) =
    if (s.threads t).need_reschedule && local
    then (reschedule_locked here s >>= λ s'. ok (none, s'))
    else ok (none, s)

unfoldable pub suspend : ℕ → ℕ → ℕ → System → Run (Option ErrorCode × System)
suspend cpus here t s0 =
    let s = raise_signal t signal_killed s0 in
    let retry = some error_internal_intr_retry in
    assert (not (s0.threads t).flag_idle) >> (elim (s0.threads t).state [
      | initial ↦ (unblock cpus here t s >>= finish_suspend here t)
      | ready ↦ ok (none, s)
      | running ↦ ok (none, s)
      | suspended ↦ ok (none, s)
      | blocked ↦ (unblock_if_interruptible cpus here t retry s >>= λ s'. ok (none, s'))
      | blocked_read_lock ↦ (unblock_if_interruptible cpus here t retry s >>= λ s'. ok (none, s'))
      | sleeping ↦ (unsleep_if_interruptible cpus here t retry s >>= finish_suspend here t)
      | dying ↦ fault
      | dead ↦ ok (some error_invalid, s0)
    ])
