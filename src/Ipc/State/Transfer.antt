-- ===== src/Ipc/State/Transfer.antt =====
-- A message goes through the registers of two threads unchanged.
use project_dionysus.Base.{ℕ, ◌+◌, ◌<◌, ◌≡◌, fault, arith}
use project_dionysus.Ipc.Tag.{untyped_count, typed_count}
use project_dionysus.Ipc.Message.{Message, tag}
use project_dionysus.Ipc.State.{IpcState, load_message, load_mrs_locked}

abbrev pub item_count : Message → ℕ
item_count m = untyped_count (tag m) + typed_count (tag m)

-- The number of items is not checked against the registers: a tag that counts more than 63 items
-- makes the load write past them.
pub load_message_overflow :
    (msg : Message) (self : IpcState) → 63 < item_count msg → load_message msg self ≡ fault
unfolding load_message load_mrs_locked
load_message_overflow msg self h = ground arith
