-- ===== src/Task/WaitQueue/Readers.antt =====
-- The guard of unblock_thread.
use project_dionysus.Base.{ℕ, ◌≡◌, Option, none, some, ErrorCode, error_invalid, ok, fault, arith}
use project_dionysus.Task.{System, ThreadState}
use project_dionysus.Task.WaitQueue.{unblock_thread}

-- A thread that waits as a reader is refused, and nothing changes.
pub unblock_thread_reader :
    (cpus here t : ℕ) (code : Option ErrorCode) (s : System)
    → (s.threads t).state ≡ ThreadState.blocked_read_lock
    → unblock_thread cpus here t code s ≡ ok (some error_invalid, s)
unfolding unblock_thread
unblock_thread_reader cpus here t code s h = ground (arith, h)

-- A thread that runs and waits in no queue is not refused: its queue is null.
pub unblock_thread_running :
    (cpus here t : ℕ) (code : Option ErrorCode) (s : System)
    → (s.threads t).state ≡ ThreadState.running
    → (s.threads t).blocking_on ≡ none
    → unblock_thread cpus here t code s ≡ fault
unfolding unblock_thread
unblock_thread_running cpus here t code s h e = ground (arith, h, e)
