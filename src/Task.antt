-- ===== src/Task.antt =====
-- Threads, run queues and wait queues: the state that kern/task shares. Queues of the kernel's
-- intrusive lists are lists of thread numbers, and all per-processor data are functions of the
-- processor. A function takes the processor on which it runs; the locks are left out.
mod Tests
pub mod Fcfs
pub mod Scheduler
pub mod Threads
pub mod WaitQueue
pub mod Semaphore
pub mod Signals
pub mod Timers
pub use project_dionysus.Base.{has, Distinct}
use project_dionysus.Base.{
  ℕ, ◌≡◌, Bool, true, false, not, ◌&&◌, ◌||◌, List, [], ◌∷◌, ◌++◌, Option, none, some, ErrorCode,
  ◌==◌, if◌then◌else◌,
}

-- thread::thread_states of include/task/thread/thread.hpp.
pub data ThreadState : Type 0 where
  initial ready running suspended blocked blocked_read_lock sleeping dying dead : ThreadState

abbrev pub state_eq : ThreadState → ThreadState → Bool
state_eq initial initial = true
state_eq ready ready = true
state_eq running running = true
state_eq suspended suspended = true
state_eq blocked blocked = true
state_eq blocked_read_lock blocked_read_lock = true
state_eq sleeping sleeping = true
state_eq dying dying = true
state_eq dead dead = true
state_eq _ _ = false

-- cpu_affinity_type of include/task/thread/cpu_affinity.hpp.
pub data AffinityType : Type 0 where
  soft hard : AffinityType

-- The part of a thread that scheduling and waiting read. `affinity` has no processor where the
-- source has CPU_NUM_INVALID, and `block_code` no error where it has ERROR_SUCCESS.
pub record Thread : Type 0 where
  pub state : ThreadState
  pub affinity : Option ℕ
  pub affinity_type : AffinityType
  pub flag_idle : Bool
  pub flag_init : Bool
  pub need_reschedule : Bool
  pub signals : ℕ
  pub interruptible : Bool
  pub blocking_on : Option ℕ
  pub block_code : Option ErrorCode

pub record System : Type 0 where
  pub threads : ℕ → Thread
  pub run_queue : ℕ → List ℕ
  pub zombie_queue : ℕ → List ℕ
  pub waiters : ℕ → List ℕ
  pub current : ℕ → ℕ
  pub idle : ℕ → ℕ

abbrev pub update {ℓ} : {A : Type ℓ} → (ℕ → A) → ℕ → A → ℕ → A
update f i a j = if i == j then a else f j

-- Unlinking an element from a list, if it is there.
unfoldable pub remove : ℕ → List ℕ → List ℕ
remove x [] = []
remove x (y ∷ ys) = if x == y then ys else y ∷ remove x ys

abbrev pub set_thread : ℕ → Thread → System → System
set_thread t v s = record s { threads = update s.threads t v }

abbrev pub set_state : ℕ → ThreadState → System → System
set_state t st s = set_thread t (record (s.threads t) { state = st }) s

abbrev pub is_state : ℕ → ThreadState → System → Bool
is_state t st s = state_eq (s.threads t).state st
