-- ===== src/Ipc/Message/Append.antt =====
-- The appends of include/task/ipc/public/messages.hpp against the two lists that a message holds.
use project_dionysus.Base.{
  ℕ, zero, suc, ◌+◌, ◌-◌, ◌≤◌, ◌<◌, ◌≡◌, refl, ◌∙◌, ap, ◌&&◌, [], ◌∷◌, ◌++◌, Run, ok, ltb, leb,
  ◌==◌, if◌then◌else◌, arith, lt→ltb, Bool-cases, inl, inr,
}
use mathlib.Core.Path.{ap₂}
use mathlib.Core.List.{append_assoc}
use project_dionysus.Ipc.Tag.{
  untyped_count, typed_count, flags, label, count_untyped, count_typed, next_typed_pos,
  count_untyped_fields, count_typed_fields, count_untyped_wraps,
}
use project_dionysus.Ipc.Message.{
  Message, tag, update, read, write, shift_up, write_untyped, append_untyped, append_single,
  append_double, segment, untyped_items, typed_items, put_single, at_single,
}

pub segment-eq :
    (f g : ℕ → ℕ) (n a b : ℕ)
    → ((k : ℕ) → k < n → f (a + k) ≡ g (b + k))
    → segment f a n ≡ segment g b n
segment-eq f g zero a b h = refl
segment-eq f g (suc n) a b h =
    ground (arith, h 0, segment-eq f g n (a + 1) (b + 1) (λ k lt. ground (arith, h (k + 1))))

segment-snoc : (f : ℕ → ℕ) (n a : ℕ) → segment f a (suc n) ≡ segment f a n ++ f (a + n) ∷ []
segment-snoc f zero a = ground arith
segment-snoc f (suc n) a =
    let e : a + 1 + n ≡ a + suc n = omega arith in
    ap (λ l. f a ∷ l) (segment-snoc f n (a + 1) ∙ ap (λ z. segment f (a + 1) n ++ f z ∷ []) e)

-- A list of registers that is grown by the register behind it.
segment-grow :
    (f g : ℕ → ℕ) (n c a item : ℕ)
    → ((k : ℕ) → k < n → f (a + k) ≡ g (a + k))
    → f (a + n) ≡ item
    → c ≡ n + 1
    → segment f a c ≡ segment g a n ++ item ∷ []
segment-grow f g n c a item same last count =
    let e : c ≡ suc n = omega arith in
    ap (segment f a) e
    ∙ segment-snoc f n a
    ∙ ap (λ l. l ++ f (a + n) ∷ []) (segment-eq f g n a a same)
    ∙ ap (λ x. segment g a n ++ x ∷ []) last

-- The loop moves the registers from `i - n` to `i - 1` up by one.
shift_up-lem :
    (n i : ℕ) (m : Message)
    → n < i
    → i < 64
    → (m' : Message) × (shift_up n i m ≡ ok m')
      × ((k : ℕ) → m' k ≡ (if ltb (i - n) k && leb k i then m (k - 1) else m k))
unfolding shift_up read write
shift_up-lem zero i m lt room = (m, refl, λ k. ground arith)
shift_up-lem (suc n) i m lt room =
    let (m', eq, h) = shift_up-lem n (i - 1) (update m i (m (i - 1))) (omega arith) (omega arith) in
    (
      m',
      rw (lt→ltb (i - 1) 64 (omega arith), lt→ltb i 64 (omega arith)) eq,
      λ k. h k ∙ ground arith,
    )

make_room : Message → Run Message
make_room m =
    if typed_count (tag m) == 0
    then ok m
    else shift_up (next_typed_pos (tag m) - (1 + untyped_count (tag m))) (next_typed_pos (tag m)) m

module _ (m : Message) (room : untyped_count (tag m) + typed_count (tag m) < 63) where
  abbrev u : ℕ
  u = untyped_count (tag m)

  abbrev t : ℕ
  t = typed_count (tag m)

  -- The typed items move up by one register, and the rest stays.
  make_room-lem :
      (m' : Message) × (make_room m ≡ ok m')
      × ((k : ℕ) → k ≤ u → m' k ≡ m k)
      × ((k : ℕ) → u < k → k ≤ u + t → m' (k + 1) ≡ m k)
  unfolding make_room next_typed_pos
  make_room-lem = elim (Bool-cases (t == 0)) [
    | inl none_typed ↦ (m, rw none_typed, λ k h. refl, λ k a b. absurd (ground arith))
    | inr some_typed ↦
        let (m', eq, h) =
          shift_up-lem (1 + u + t - (1 + u)) (1 + u + t) m (omega arith) (omega arith) in
        (m', rw some_typed eq, λ k le. h k ∙ ground arith, λ k a b. h (k + 1) ∙ ground arith)
  ]

  -- Appending an untyped word to a message with room puts it behind the untyped words and
  -- leaves the typed items, the flags and the label as they were.
  pub append_untyped_snoc :
      (item : ℕ)
      → (m' : Message) × (append_untyped item m ≡ ok m')
        × (untyped_items m' ≡ untyped_items m ++ item ∷ [])
        × (typed_items m' ≡ typed_items m)
        × (flags (tag m') ≡ flags (tag m))
        × (label (tag m') ≡ label (tag m))
  unfolding append_untyped write_untyped write make_room
  append_untyped_snoc item =
      let (m1, eq, low, high) = make_room-lem in
      let t1 = count_untyped (tag m) in
      let m2 : Message = update (update m1 0 t1) (u + 1) item in
      let (hu, ht, hf, hl) = count_untyped_fields (tag m) (omega arith) in
      let same_tag : tag m1 ≡ tag m = low 0 (omega arith) in
      let new_tag : tag m2 ≡ t1 = ground arith in
      (
        m2,
        rw eq (rw (same_tag, hu, lt→ltb (u + 1) 64 (omega arith))),
        segment-grow m2 m u (untyped_count (tag m2)) 1 item (λ k lt. ground (arith, low (1 + k)))
            (ground arith) (ap untyped_count new_tag ∙ hu),
        ap₂ (λ a b. segment m2 (1 + a) b) (ap untyped_count new_tag ∙ hu)
              (ap typed_count new_tag ∙ ht)
            ∙ segment-eq m2 m t (1 + (u + 1)) (1 + u) (λ k lt. ground (arith, high (1 + u + k))),
        ap flags new_tag ∙ hf,
        ap label new_tag ∙ hl,
      )

  -- Appending a one-word item to a message with room puts it behind the typed words.
  pub append_single_snoc :
      (raw : ℕ)
      → (m' : Message) × (append_single raw m ≡ ok m')
        × (typed_items m' ≡ typed_items m ++ raw ∷ [])
        × (untyped_items m' ≡ untyped_items m)
        × (tag m' ≡ count_typed (tag m))
  unfolding append_single write next_typed_pos
  append_single_snoc raw =
      let m2 : Message = update (update m (1 + u + t) raw) 0 (count_typed (tag m)) in
      let (ht, hu, hf, hl) = count_typed_fields (tag m) (omega arith) in
      let same_tag : update m (1 + u + t) raw 0 ≡ tag m = ground arith in
      let start : 1 + untyped_count (tag m2) ≡ 1 + u = omega (arith, hu) in
      (
        m2,
        rw (lt→ltb (1 + u + t) 64 (omega arith)) (rw same_tag),
        ap (λ a. segment m2 a (typed_count (tag m2))) start
            ∙ segment-grow m2 m t (typed_count (tag m2)) (1 + u) raw (λ k lt. ground arith)
                (ground arith) ht,
        ap (segment m2 1) hu ∙ segment-eq m2 m u 1 1 (λ k lt. ground arith),
        refl,
      )

-- Appending a two-word item to a message with room for two puts both words behind the typed
-- words, in order.
pub append_double_snoc :
    (raw0 raw1 : ℕ) (m : Message)
    → untyped_count (tag m) + typed_count (tag m) < 62
    → (m' : Message) × (append_double raw0 raw1 m ≡ ok m')
      × (typed_items m' ≡ typed_items m ++ raw0 ∷ raw1 ∷ [])
      × (untyped_items m' ≡ untyped_items m)
unfolding append_double
append_double_snoc raw0 raw1 m room =
    let (m1, eq1, t1, u1, tag1) = append_single_snoc m (omega arith) raw0 in
    let (ht, hu, hf, hl) = count_typed_fields (tag m) (omega arith) in
    let room1 : untyped_count (tag m1) + typed_count (tag m1) < 63 = ground (arith, tag1, ht, hu) in
    let (m2, eq2, t2, u2, tag2) = append_single_snoc m1 room1 raw1 in
    (
      m2,
      rw eq1 eq2,
      t2 ∙ ap (λ l. l ++ raw1 ∷ []) t1 ∙ append_assoc (typed_items m) (raw0 ∷ []) (raw1 ∷ []),
      u2 ∙ u1,
    )

-- A message that is full of untyped words has no room check: the count wraps around, and the
-- appended word becomes the tag.
pub append_untyped_overflow :
    (item : ℕ) (m : Message)
    → untyped_count (tag m) ≡ 63
    → typed_count (tag m) ≡ 0
    → (m' : Message) × (append_untyped item m ≡ ok m') × (tag m' ≡ item)
unfolding append_untyped write_untyped write
append_untyped_overflow item m hu ht =
    let wraps = count_untyped_wraps (tag m) hu in
    (update (update m 0 (count_untyped (tag m))) 0 item, rw ht (rw wraps), refl)

-- What `put` writes for a one-word item, `at` reads at the next index; at the same index `at`
-- reads the register before.
pub at_single-put_single :
    (raw index : ℕ) (m : Message)
    → untyped_count (tag m) + index + 1 < 64
    → (m' : Message) × (put_single raw index m ≡ ok m')
      × (at_single (index + 1) m' ≡ ok raw)
      × (at_single index m' ≡ ok (m (untyped_count (tag m) + index)))
unfolding at_single put_single read write
at_single-put_single raw index m room =
    let n = untyped_count (tag m) + index + 1 in
    let same_tag : update m n raw 0 ≡ tag m = ground arith in
    (update m n raw, rw (lt→ltb n 64 room), rw same_tag (ground arith), rw same_tag (ground arith))
