-- ===== src/Ipc/Message.antt =====
-- The class message of include/task/ipc/public/messages.hpp: sixty-four registers, the first of
-- which is the tag. An access to a register that is not there faults.
pub mod Append
use project_dionysus.Base.{
  ℕ, zero, suc, ◌+◌, ◌-◌, ◌<◌, ◌≡◌, Bool, List, [], ◌∷◌, Run, ok, assert, ◌>>=◌, ◌>>◌, ltb, ◌==◌,
  if◌then◌else◌,
}
use project_dionysus.Ipc.Tag.{
  untyped_count, typed_count, count_untyped, count_typed, next_typed_pos,
}

abbrev pub regs_per_message : ℕ
regs_per_message = 64

abbrev pub Message : Type 0
Message = ℕ → ℕ

abbrev pub tag : Message → ℕ
tag m = m 0

abbrev pub update : Message → ℕ → ℕ → Message
update m i v k = if i == k then v else m k

unfoldable pub read : Message → ℕ → Run ℕ
read m i = assert (ltb i regs_per_message) >> ok (m i)

unfoldable pub write : Message → ℕ → ℕ → Run Message
write m i v = assert (ltb i regs_per_message) >> ok (update m i v)

-- `for (i = ...; ...; i--) regs_[i] = regs_[i - 1]`, by the rounds that are left.
pub shift_up : ℕ → ℕ → Message → Run Message
shift_up zero i m = ok m
shift_up (suc n) i m = do v ← read m (i - 1); m' ← write m i v; shift_up n (i - 1) m'

-- regs_[++tag_.u_] = item
pub write_untyped : ℕ → Message → Run Message
write_untyped item m =
    write (update m 0 (count_untyped (tag m))) (untyped_count (count_untyped (tag m))) item

pub append_untyped : ℕ → Message → Run Message
append_untyped item m = do
  m' ←
      (if typed_count (tag m) == 0
        then ok m
        else shift_up (next_typed_pos (tag m) - (1 + untyped_count (tag m)))
            (next_typed_pos (tag m)) m)
  write_untyped item m'

pub append_single : ℕ → Message → Run Message
append_single raw m = do
  m' ← write m (next_typed_pos (tag m)) raw
  ok (update m' 0 (count_typed (tag m')))

pub append_double : ℕ → ℕ → Message → Run Message
append_double raw0 raw1 m = do m' ← append_single raw0 m; append_single raw1 m'

pub put_untyped : ℕ → ℕ → Message → Run Message
put_untyped item index m = write m (untyped_count (tag m) + index + 1) item

pub put_single : ℕ → ℕ → Message → Run Message
put_single raw index m = write m (untyped_count (tag m) + index + 1) raw

pub put_double : ℕ → ℕ → ℕ → Message → Run Message
put_double raw0 raw1 index m = do
  m' ← write m (untyped_count (tag m) + index + 1) raw0
  write m' (untyped_count (tag m') + index + 2) raw1

pub at_untyped : ℕ → Message → Run ℕ
at_untyped index m = read m (1 + index)

pub at_single : ℕ → Message → Run ℕ
at_single index m = read m (untyped_count (tag m) + index)

pub clear : Message → Message
clear m = update m 0 0

unfoldable pub set_tag : ℕ → Message → Message
set_tag t m = update m 0 t

-- The registers from `i` on, `n` of them.
abbrev pub segment : (ℕ → ℕ) → ℕ → ℕ → List ℕ
segment m i zero = []
segment m i (suc n) = m i ∷ segment m (i + 1) n

-- get_items_span, with the message's own tag and with another's.
pub get_items_span : Message → List ℕ
get_items_span m = segment m 1 (untyped_count (tag m) + typed_count (tag m))

pub get_items_span_for : ℕ → Message → List ℕ
get_items_span_for t m = segment m 1 (untyped_count t + typed_count t)

-- What a message holds: its untyped words, and the words of its typed items.
abbrev pub untyped_items : Message → List ℕ
untyped_items m = segment m 1 (untyped_count (tag m))

abbrev pub typed_items : Message → List ℕ
typed_items m = segment m (1 + untyped_count (tag m)) (typed_count (tag m))
