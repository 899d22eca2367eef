-- ===== src/Ipc/Tests.antt =====
-- Messages and registers on concrete data: the theorems at inputs that meet their hypotheses.
use project_dionysus.Base.{
  ErrorCode, false, error_invalid, ◌⊎◌, Option, ℕ, ◌+◌, ◌≡◌, none, some, ok, arith, ◌==◌,
  if◌then◌else◌, ◌++◌, ◌∷◌, [],
}
use project_dionysus.Ipc.Tag.{untyped_count, typed_count, label, flags}
use project_dionysus.Ipc.Message.{Message, tag, append_untyped, untyped_items, typed_items}
use project_dionysus.Ipc.Message.Append.{append_untyped_snoc}
use project_dionysus.Ipc.State.{IpcState, send_registers}
use project_dionysus.Ipc.State.Extended.{Transfer, returned, faulted, send}
use project_dionysus.Ipc.State.Extended.Sending.{send_typed}

-- Two untyped words.
abbrev two_words : Message
two_words k = if k == 0 then 2 else 10 + k

-- Two untyped words and two typed ones.
abbrev mixed : Message
mixed k = if k == 0 then 130 else 10 + k

abbrev state_of : Message → IpcState
state_of m = record { mr = m; mr_count = 1; br = λ _. 0; br_count = 1; sender = none }

abbrev blank : Message
blank _ = 0

abbrev no_grant : ℕ → ℕ → ℕ → Unit {0} → Option ErrorCode × Unit {0}
no_grant _ _ _ w = (none, w)

abbrev no_move : ℕ → ℕ → ℕ → Unit {0} → Unit {0}
no_move _ _ _ w = w

abbrev no_signal : Unit {0} → Unit {0}
no_signal w = w

append_untyped_snoc_example :
    (m' : Message) × (append_untyped 99 mixed ≡ ok m')
    × (untyped_items m' ≡ untyped_items mixed ++ 99 ∷ [])
    × (typed_items m' ≡ typed_items mixed)
    × (flags (tag m') ≡ flags (tag mixed))
    × (label (tag m') ≡ label (tag mixed))
unfolding untyped_count typed_count
append_untyped_snoc_example = append_untyped_snoc mixed (omega arith) 99

-- A message with tag `t` whose other words are zero, so that its first item is a string item.
abbrev transfer_of : ℕ → Transfer (Unit {0})
transfer_of t = record {
  from = state_of (λ k. if k == 0 then t else 0);
  to = state_of blank;
  world = tt;
  locked = false;
}

-- Two typed words and no untyped one.
send_typed_example :
    (send no_grant no_move no_signal 7 (transfer_of 128) ≡ faulted)
    ⊎ ((to' : IpcState) × (send_registers 7 (transfer_of 128).from (transfer_of 128).to ≡ ok to')
        × (send no_grant no_move no_signal 7 (transfer_of 128)
            ≡ returned
                (some error_invalid)
                (record (transfer_of 128) { to = to'; locked = false })))
unfolding untyped_count typed_count
send_typed_example = send_typed no_grant no_move no_signal 7 (transfer_of 128) (omega arith)
