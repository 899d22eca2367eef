-- ===== src/Ipc/State.antt =====
-- The message and buffer registers of a thread: include/task/thread/ipc_state.hpp and
-- kern/task/thread/ipc_state.cc. Here is what happens to registers; Ipc/State/Extended has send, and
-- waiting for one another on the semaphores e and f is left out.
-- memmove is taken to copy, and to fault where it would leave an array.
pub mod Transfer
pub mod Extended
use Prim.Native.Nat.{bit_and, bit_or}
use project_dionysus.Base.{
  ℕ, zero, suc, ◌+◌, ◌-◌, ◌*◌, ◌/◌, ◌^◌, ◌≤◌, ◌<◌, ◌≡◌, Bool, true, false, not, ◌&&◌, ◌||◌, Option,
  none, some, Run, ok, err, fault, assert, ◌>>=◌, ◌>>◌, Result, value, error, error_invalid, ltb,
  leb, ◌==◌, if◌then◌else◌,
}
use project_dionysus.Ipc.Tag.{untyped_count, typed_count, allow_string, string_length, send_base}
use project_dionysus.Ipc.Message.{Message, tag, update, read, write, set_tag}

abbrev pub mr_size : ℕ
mr_size = 64

abbrev pub br_size : ℕ
br_size = 33

pub record IpcState : Type 0 where
  pub mr : ℕ → ℕ
  pub mr_count : ℕ
  pub br : ℕ → ℕ
  pub br_count : ℕ
  pub sender : Option ℕ

-- memmove of `count` words to `dst + start` from `src + start`.
abbrev pub blit : (ℕ → ℕ) → (ℕ → ℕ) → ℕ → ℕ → ℕ → ℕ
blit dst src start count k = if leb start k && ltb k (start + count) then src k else dst k

pub copy_mrs_to_locked : IpcState → IpcState → ℕ → ℕ → Run IpcState
copy_mrs_to_locked self another st cnt =
    assert (leb (st + cnt) mr_size) >> ok (record another { mr = blit another.mr self.mr st cnt })

-- `mrs` are `count` words, of which the k-th is `mrs (start + k)`.
pub load_mrs_locked : ℕ → (ℕ → ℕ) → ℕ → IpcState → Run IpcState
load_mrs_locked start mrs count self =
    assert (leb (start + count) mr_size) >> ok (record self { mr = blit self.mr mrs start count })

-- The loop of `store_mrs_locked` over the items of a message, from register `k` on.
pub store_mrs_locked : ℕ → ℕ → IpcState → Message → Run Message
store_mrs_locked zero k self m = ok m
store_mrs_locked (suc n) k self m = do
  v ← read self.mr k
  m' ← write m k v
  store_mrs_locked n (k + 1) self m'

abbrev pub get_message_tag : IpcState → ℕ
get_message_tag self = self.mr 0

abbrev pub get_acceptor : IpcState → ℕ
get_acceptor self = self.br 0

pub set_message_tag_locked : ℕ → IpcState → IpcState
set_message_tag_locked t self = record self { mr = update self.mr 0 t; mr_count = 1 }

pub set_acceptor : ℕ → IpcState → IpcState
set_acceptor acc self = record self { br = update self.br 0 acc; br_count = 1 }

pub load_message : Message → IpcState → Run IpcState
load_message msg self =
    load_mrs_locked 1 msg (untyped_count (tag msg) + typed_count (tag msg))
      (set_message_tag_locked (tag msg) self)

-- The message that `store_message` leaves in `msg`, before it lets the next sender in.
pub store_message : IpcState → Message → Run Message
store_message self msg =
    store_mrs_locked (untyped_count (get_message_tag self) + typed_count (get_message_tag self)) 1
      self (set_tag (get_message_tag self) msg)

-- The first part of `send` under the lock: the sender is noted and all registers are copied.
pub send_registers : ℕ → IpcState → IpcState → Run IpcState
send_registers parent self to =
    copy_mrs_to_locked self (record to { sender = some parent }) 0 mr_size
