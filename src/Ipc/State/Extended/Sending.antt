-- ===== src/Ipc/State/Extended/Sending.antt =====
-- What becomes of the typed items of a message that is sent.
use project_dionysus.Base.{
  ℕ, zero, suc, ◌+◌, ◌-◌, ◌≤◌, ◌<◌, ◌≡◌, ◌≢◌, refl, ap, ◌⊎◌, inl, inr, true, false, Option, none,
  some, ErrorCode, ok, error_invalid, ltb, arith, Option-cases, Bool-cases,
}
use project_dionysus.Ipc.Tag.{untyped_count, typed_count, typed_count-lt}
use project_dionysus.Ipc.State.{
  IpcState, get_message_tag, get_acceptor, blit, send_registers, copy_mrs_to_locked,
}
use project_dionysus.Ipc.State.Extended.{
  Transfer, returned, faulted, out_of_fuel, transfer_page, transfer_string, string_written,
  extended_loop, send_extended_items, finish_send, send,
}

module _ {W : Type 0} (grant : ℕ → ℕ → ℕ → W → Option ErrorCode × W)
    (move : ℕ → ℕ → ℕ → W → W) where
  -- A string item that is taken leaves the registers alone, and its buffer register exists.
  transfer_string-some :
      (acceptor idx b : ℕ) (s s' : Transfer W)
      → transfer_string grant move acceptor idx b s ≡ some (none, s')
      → b + 1 < 33
  unfolding transfer_string string_written
  transfer_string-some acceptor idx b s s' h = ground arith

  -- The loop ends within the fuel: a round takes two items, or two buffer registers of 33.
  extended_loop_ends :
      (fuel tag acceptor idx b : ℕ) (s : Transfer W)
      → typed_count tag - idx + (32 - b) < fuel
      → extended_loop grant move fuel tag acceptor idx b s ≢ out_of_fuel
  unfolding extended_loop
  extended_loop_ends zero tag acceptor idx b s h = absurd (omega arith)
  extended_loop_ends (suc fuel) tag acceptor idx b s h =
      let next_page = λ (u : Transfer W). extended_loop_ends fuel tag acceptor (idx + 2) b u in
      let next_string = λ (u : Transfer W). extended_loop_ends fuel tag acceptor idx (b + 2) u in
      let room = transfer_string-some acceptor idx (b + 2) s in
      elim (Option-cases (transfer_page grant move acceptor idx s)) [
        | inl p ↦ elim (Option-cases (transfer_string grant move acceptor idx (b + 2) s)) [
          | inl q ↦ ground (arith, p, q)
          | inr ((some code, v), q) ↦ ground (arith, p, q)
          | inr ((none, v), q) ↦ ground (arith, p, q, next_string v, room v)
        ]
        | inr ((some code, u), p) ↦
            elim (Option-cases (transfer_string grant move acceptor idx (b + 2) s)) [
              | inl q ↦ ground (arith, p, q)
              | inr ((some code', v), q) ↦ ground (arith, p, q)
              | inr ((none, v), q) ↦ ground (arith, p, q, next_string v, room v)
            ]
        | inr ((none, u), p) ↦
            elim (Option-cases (transfer_string grant move acceptor idx (b + 2) s)) [
              | inl q ↦ ground (arith, p, q, next_page u)
              | inr ((some code', v), q) ↦ ground (arith, p, q, next_page u)
              | inr ((none, v), q) ↦ ground (arith, p, q, next_page u, next_string v, room v)
            ]
      ]

  -- Handling the typed items always comes to an end.
  pub send_extended_items_ends : (s : Transfer W) → send_extended_items grant move s ≢ out_of_fuel
  unfolding send_extended_items
  send_extended_items_ends s =
      extended_loop_ends 98 _ _ _ 1 s (omega (arith, typed_count-lt (get_message_tag s.from)))

  extended_loop_stop :
      (fuel tag acceptor idx b : ℕ) (s : Transfer W)
      → ltb idx (typed_count tag) ≡ false
      → extended_loop grant move (suc fuel) tag acceptor idx b s ≡ returned none s
  unfolding extended_loop
  extended_loop_stop fuel tag acceptor idx b s h = rw h refl

  -- The loop counts its index, which starts behind the untyped words, against the number of typed
  -- words alone.
  pub send_extended_items_skipped :
      (s : Transfer W)
      → typed_count (get_message_tag s.from) ≤ untyped_count (get_message_tag s.from) + 1
      → send_extended_items grant move s ≡ returned none s
  unfolding send_extended_items
  send_extended_items_skipped s h = extended_loop_stop 97 _ (get_acceptor s.to) _ 1 s (ground arith)

  -- With the lock held, the first item that the loop meets is a fault or an error.
  extended_loop_locked :
      (fuel tag acceptor idx b : ℕ) (s : Transfer W)
      → idx < typed_count tag
      → s.locked ≡ true
      → (extended_loop grant move (suc fuel) tag acceptor idx b s ≡ faulted)
        ⊎ (extended_loop grant move (suc fuel) tag acceptor idx b s
            ≡ returned (some error_invalid) s)
  unfolding extended_loop transfer_page transfer_string
  extended_loop_locked fuel tag acceptor idx b s more held = ground (arith, more, held)

  -- Sending a message with more typed words than its untyped ones and one never succeeds: the
  -- send is a fault, or it copies the registers, returns ERROR_INVALID, frees the lock and
  -- signals nobody.
  pub send_typed :
      (signal : W → W) (parent : ℕ) (s : Transfer W)
      → untyped_count (get_message_tag s.from) + 1 < typed_count (get_message_tag s.from)
      → (send grant move signal parent s ≡ faulted)
        ⊎ ((to' : IpcState) × (send_registers parent s.from s.to ≡ ok to')
            × (send grant move signal parent s
                ≡ returned (some error_invalid) (record s { to = to'; locked = false })))
  unfolding send send_extended_items finish_send send_registers copy_mrs_to_locked
  send_typed signal parent s more = elim (Bool-cases s.locked) [
    | inl held ↦ inl (rw held refl)
    | inr here ↦
        let to' : IpcState = record (s.to) {
          mr = blit s.to.mr s.from.mr 0 64;
          sender = some parent;
        } in
        let s' : Transfer W = record s { to = to'; locked = true } in
        elim (extended_loop_locked 97 (get_message_tag s.from) (get_acceptor to')
          (untyped_count (get_message_tag s.from) + 1) 1 s' more refl) [
            | inl e ↦ inl (rw (here, e) refl)
            | inr e ↦ inr (to', refl, rw (here, e) refl)
          ]
  ]

  -- A message whose typed items the loop does not meet is sent.
  pub send_untyped :
      (signal : W → W) (parent : ℕ) (self to : IpcState) (w : W)
      → typed_count (get_message_tag self) ≤ untyped_count (get_message_tag self) + 1
      → send grant move signal parent record { from = self; to = to; world = w; locked = false }
        ≡ returned none record {
          from = self;
          to = record to { mr = blit to.mr self.mr 0 64; sender = some parent };
          world = signal w;
          locked = false;
        }
  unfolding send finish_send send_registers copy_mrs_to_locked
  send_untyped signal parent self to w few =
      let to' : IpcState = record to { mr = blit to.mr self.mr 0 64; sender = some parent } in
      let all_skipped =
        send_extended_items_skipped record { from = self; to = to'; world = w; locked = true }
          few in
      ap (finish_send grant move signal) all_skipped
