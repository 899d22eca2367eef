-- ===== src/Ipc/State/Extended.antt =====
-- send_extended_items and send of kern/task/thread/ipc_state.cc, the latter behind its wait for the
-- receiver's e. The address spaces, the memory and the semaphores of the two threads are a world
-- `W`; `grant` stands for the regions of the acceptor followed by address_space::fpage_grant, `move`
-- for memmove between the threads' memories, and `signal` for signalling the receiver's f. Taking
-- a lock that this processor holds is a panic, and a read past an array is undefined; both are
-- faults.
pub mod Sending
use Prim.Native.Nat.{bit_and, bit_or}
use project_dionysus.Base.{
  ℕ, zero, suc, ◌+◌, ◌-◌, ◌*◌, ◌/◌, ◌%◌, ◌^◌, ◌≤◌, ◌<◌, ◌≡◌, ◌≢◌, Bool, true, false, not, Option,
  none, some, ErrorCode, ok, err, fault, error_invalid, error_invalid_access, ltb, leb, ◌==◌,
  if◌then◌else◌, arith, Option-cases,
}
use project_dionysus.Ipc.Tag.{
  untyped_count, typed_count, typed_count-lt, allow_string, string_length, send_base,
}
use project_dionysus.Ipc.Message.{update}
use project_dionysus.Ipc.State.{
  IpcState, get_message_tag, get_acceptor, blit, br_size, send_registers,
}

abbrev pub item_string : ℕ
item_string = 0

abbrev pub item_map : ℕ
item_map = 1

abbrev pub item_grant : ℕ
item_grant = 2

-- USER_TOP of include/system/memlayout.h.
abbrev pub user_top : ℕ
user_top = 0x00007fffffffffff

pub valid_user_ptr : ℕ → Bool
valid_user_ptr p = leb p user_top

-- `locked` is whether the sender's lock_ is held.
pub record Transfer (W : Type 0) : Type 0 where
  pub from : IpcState
  pub to : IpcState
  pub world : W
  pub locked : Bool

-- How the loop ends: with an error code or success, with a fault, or,
-- in the model, for lack of fuel.
pub data Exit (W : Type 0) : Type 0 where
  returned : Option ErrorCode → Transfer W → Exit W
  faulted : Exit W
  out_of_fuel : Exit W

module _ {W : Type 0} (grant : ℕ → ℕ → ℕ → W → Option ErrorCode × W)
    (move : ℕ → ℕ → ℕ → W → W) where
  pub copy_string_locked : ℕ → ℕ → ℕ → W → Option ErrorCode × W
  unfolding valid_user_ptr
  copy_string_locked from to len w =
      if not (valid_user_ptr from)
      then (some error_invalid_access, w)
      else if not (valid_user_ptr to)
      then (some error_invalid_access, w)
      else if not (valid_user_ptr ((from + len + 2 ^ 64 - 1) % 2 ^ 64))
      then (some error_invalid_access, w)
      else if not (valid_user_ptr ((to + len + 2 ^ 64 - 1) % 2 ^ 64))
      then (some error_invalid_access, w)
      else (none, move from to len w)

  -- A map or grant item: both words are copied under the lock, then the page is granted. `none` is
  -- a fault.
  pub transfer_page : ℕ → ℕ → Transfer W → Option (Option ErrorCode × Transfer W)
  transfer_page acceptor idx s =
      let to' = record s.to { mr = blit (blit s.to.mr s.from.mr idx 1) s.from.mr (idx + 1) 1 } in
      let (e, w) = grant acceptor (s.from.mr (idx + 1)) (send_base (s.from.mr idx)) s.world in
      if s.locked then none else some (e, record s { to = to'; world = w })

  -- What the string branch writes back: the length above the low ten bits that were there.
  pub string_written : ℕ → ℕ → Transfer W → Transfer W
  string_written at len s = record s {
    from = record s.from {
      br = update s.from.br at (bit_or (len * 2 ^ 10 % 2 ^ 64) (bit_and (s.from.br at) 0x3ff));
    };
  }

  -- A string item, with `b` the buffer register index behind `br_index += 2`. The buffer registers
  -- are the sender's own. `none` is a fault: the lock is held, or a read past the registers.
  pub transfer_string : ℕ → ℕ → ℕ → Transfer W → Option (Option ErrorCode × Transfer W)
  unfolding copy_string_locked
  transfer_string acceptor idx b s =
      let len = string_length (s.from.mr idx) in
      let (e, w) = copy_string_locked (s.from.mr (idx + 1)) (s.from.br (b - 2)) len s.world in
      let moved = record s { world = w } in
      if not (allow_string acceptor)
      then some (some error_invalid, s)
      else if s.locked
      then none
      else if leb br_size (b + 1)
      then none
      else if not (bit_and (s.from.br (b + 1)) 0xf == item_string)
      then some (some error_invalid, s)
      else if ltb (s.from.br (b + 1) / 2 ^ 10) len
      then some (some error_invalid, s)
      else elim e [
        | some code ↦ some (some code, moved)
        | none ↦ some (none, string_written (b + 1) len moved)
      ]

  -- The loop of `send_extended_items`: tag and acceptor are read before it.
  pub extended_loop : ℕ → ℕ → ℕ → ℕ → ℕ → Transfer W → Exit W
  extended_loop zero tag acceptor idx b s = out_of_fuel
  extended_loop (suc fuel) tag acceptor idx b s =
      let kind = bit_and (s.from.mr idx) 0xf in
      let page = transfer_page acceptor idx s in
      let string = transfer_string acceptor idx (b + 2) s in
      let after_page : Exit W = elim page [
        | none ↦ faulted
        | some (some code, s') ↦ returned (some code) s'
        | some (none, s') ↦ extended_loop fuel tag acceptor (idx + 2) b s'
      ] in
      let after_string : Exit W = elim string [
        | none ↦ faulted
        | some (some code, s') ↦ returned (some code) s'
        | some (none, s') ↦ extended_loop fuel tag acceptor idx (b + 2) s'
      ] in
      if not (ltb idx (typed_count tag))
      then returned none s
      else if kind == item_map
      then after_page
      else if kind == item_grant
      then after_page
      else if kind == item_string
      then after_string
      else returned (some error_invalid) s

  -- Each round moves on in the items or in the buffer registers.
  abbrev pub enough_fuel : ℕ
  enough_fuel = 98

  pub send_extended_items : Transfer W → Exit W
  send_extended_items s =
      extended_loop enough_fuel (get_message_tag s.from) (get_acceptor s.to)
        (untyped_count (get_message_tag s.from) + 1) 1 s

  -- What send leaves when its loop over the items has ended.
  pub finish_send : (W → W) → Exit W → Exit W
  finish_send signal (returned (some e) s) = returned (some e) (record s { locked = false })
  finish_send signal (returned none s) =
      returned none (record s { world = signal s.world; locked = false })
  finish_send signal faulted = faulted
  finish_send signal out_of_fuel = out_of_fuel

  -- send by the thread `parent`, behind its wait.
  pub send : (W → W) → ℕ → Transfer W → Exit W
  send signal parent s = if s.locked then faulted else elim (send_registers parent s.from s.to) [
    | err e ↦ faulted
    | fault ↦ faulted
    | ok to' ↦ finish_send signal (send_extended_items (record s { to = to'; locked = true }))
  ]
