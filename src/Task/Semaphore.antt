-- ===== src/Task/Semaphore.antt =====
-- kern/libs/kbl/lock/semaphore.cc: a count and a wait queue. The operations without `_locked` are
-- the same under the global thread lock.
pub mod Balance
use project_dionysus.Base.{
  ℕ, ◌+◌, ◌-◌, ◌^◌, ◌%◌, ◌≡◌, Bool, true, false, ◌||◌, List, [], ◌∷◌, Option, none, some, Run, ok,
  fault, assert, ◌>>=◌, ◌>>◌, ◌==◌, if◌then◌else◌,
}
use project_dionysus.Task.{System}
use project_dionysus.Task.WaitQueue.{Blocking, returned, normal, block_etc, wake_one}

pub record Semaphore : Type 0 where
  pub count : ℕ
  pub wait_queue : ℕ

abbrev pub is_empty : List ℕ → Bool
is_empty [] = true
is_empty (t ∷ q) = false

-- KDEBUG_ASSERT(count_ == 0 || wait_queue_.empty())
abbrev pub balanced : Semaphore → System → Bool
balanced m s = (m.count == 0) || is_empty (s.waiters m.wait_queue)

unfoldable pub wait_locked : ℕ → Option ℕ → ℕ → Semaphore → System → Run (Semaphore × Blocking)
wait_locked here ddl now m s =
    assert (balanced m s)
    >> (if m.count == 0
        then (block_etc here m.wait_queue ddl now 0 normal true s >>= λ b. ok (m, b))
        else ok (record m { count = m.count - 1 }, returned none s))

unfoldable pub signal_locked : ℕ → ℕ → Semaphore → System → Run (Semaphore × System)
signal_locked cpus here m s =
    assert (balanced m s)
    >> (if is_empty (s.waiters m.wait_queue)
        then ok (record m { count = (m.count + 1) % 2 ^ 64 }, s)
        else (wake_one cpus here m.wait_queue true none s >>= λ r. ok (m, r.1)))

unfoldable pub try_wait_locked : Semaphore → Bool × Semaphore
try_wait_locked m = if m.count == 0 then (false, m) else (true, record m { count = m.count - 1 })
