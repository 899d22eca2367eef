-- ===== src/Handle/Add.antt =====
-- add_handle_locked of kern/object/handle_table.cc in valid tables.
use project_dionysus.Base.{
  ℕ, ◌+◌, ◌≤◌, ◌<◌, ◌≡◌, refl, ◌≢◌, inl, inr, Option, none, some, arith, ok, value, first_index,
  first_index-some, first_index-eq_none, Option-cases,
}
use project_dionysus.Handle.Code.{Position, make_handle}
use project_dionysus.Handle.{
  Slots, Table, update, position, is_null, same_object, attribute, increase_next, allocate_slot,
  fresh_slot, claim_slot, local_get_locked, claim_entry, store_entry, add_handle_locked,
}
use project_dionysus.Handle.Valid.{IsValid, write_slot-first, scan-first_index}

-- No entry of the table is for the object of `e`.
abbrev pub IsNew : ℕ → Table → Slots → Type 0
IsNew e t s = (i f : ℕ) → s i ≡ some f → (t.entries f).object ≢ (t.entries e).object

increase_next-low :
    (t : Table)
    → t.next.l4 + 1 < 512
    → increase_next t.next ≡ (record t.next { l4 = t.next.l4 + 1 }, value tt)
unfolding increase_next
increase_next-low t h = ground arith

pub fresh_slot-low :
    (t : Table)
    → t.next.l4 + 1 < 512
    → fresh_slot t ≡ (record t { next = record t.next { l4 = t.next.l4 + 1 } }, value t.next)
unfolding fresh_slot
fresh_slot-low t h = ground (arith, increase_next-low t h)

pub claim_slot-low :
    (t : Table) (p : Position)
    → t.next.l4 + 1 < 512
    → claim_slot (t, value p) ≡ (record t { next = record t.next { l4 = t.next.l4 + 1 } }, value p)
unfolding claim_slot
claim_slot-low t p h = ground (arith, increase_next-low t h)

module _ (t : Table) (s : Slots) (v : IsValid t s) where
  pub claim_entry-IsValid : (current : Option ℕ) (e : ℕ) → IsValid (claim_entry current e t) s
  unfolding claim_entry
  claim_entry-IsValid current e = record {
    first = v.first;
    low1 = v.low1;
    low2 = v.low2;
    low3 = v.low3;
    room = v.room;
    unused = v.unused;
    distinct = λ i j a b p q h. ground (arith, v.distinct i j a b);
    named = λ i a p. ground (arith, v.named i a);
  }

  local_get_locked-none : (e : ℕ) → IsNew e t s → local_get_locked e t ≡ ok none
  unfolding local_get_locked
  local_get_locked-none e new = rw (scan-first_index t s (same_object t e) v) (
      rw (
        first_index-eq_none t.next.l4 0 (λ d. same_object t e (s d))
          λ k a b. elim (Option-cases (s k)) [
            | inl p ↦ rw p
            | inr (f, p) ↦ rw p (ground (arith, new k f p))
          ]))

  -- The slot is free and below the new `next`, which moves by at most two.
  allocate_slot-lem :
      t.next.l4 + 2 < 512
      → (d : ℕ) × (n : ℕ) × (allocate_slot t
          ≡ ok (record t { next = record t.next { l4 = n } }, value (position 0 0 0 d)))
        × (s d ≡ none)
        × (d < n)
        × (t.next.l4 ≤ n)
        × (n ≤ t.next.l4 + 2)
  unfolding allocate_slot
  allocate_slot-lem h = elim (Option-cases (first_index t.next.l4 0 (λ d. is_null (s d)))) [
    | inl p ↦ (
      t.next.l4,
      t.next.l4 + 1 + 1,
      rw (scan-first_index t s is_null v, p, fresh_slot-low t (omega arith))
          (rw
            (claim_slot-low (record t { next = record t.next { l4 = t.next.l4 + 1 } }) t.next
              (omega arith))
            (ground (arith, v.low1, v.low2, v.low3))),
      v.unused _ (omega arith),
      omega arith,
      omega arith,
      omega arith,
    )
    | inr (d, p) ↦
        let (a, b, c) = first_index-some t.next.l4 0 (λ k. is_null (s k)) d p in
        (
          d,
          t.next.l4 + 1,
          rw (scan-first_index t s is_null v, p, claim_slot-low t (position 0 0 0 d) (omega arith)),
          ground (arith, c),
          omega arith,
          omega arith,
          omega arith,
        )
  ]

  store_entry-lem :
      (e d n : ℕ)
      → IsNew e t s
      → s d ≡ none
      → d < n
      → n < 512
      → t.next.l4 ≤ n
      → let h = make_handle (attribute t) (position 0 0 0 d) in
        (t' : Table) × (store_entry e
            (record t { next = record t.next { l4 = n } }, value (position 0 0 0 d))
          ≡ ok (h, t'))
        × IsValid t' (update s d (some e))
        × (t'.next.l4 ≡ n)
        × (t'.local ≡ t.local)
  unfolding store_entry
  store_entry-lem e d n new free lt room le =
      let (r, w, f) = write_slot-first v.first d (omega arith) (some e) in
      (
        record t {
          root = r;
          next = record t.next { l4 = n };
          entries =
              update t.entries e
                (record (t.entries e) { value = make_handle (attribute t) (position 0 0 0 d) });
        },
        rw w,
        record {
          first = f;
          low1 = v.low1;
          low2 = v.low2;
          low3 = v.low3;
          room = room;
          unused = λ i p. ground (arith, v.unused i);
          distinct = λ i j a b p q h. ground (arith, v.distinct i j a b, new i a, new j b);
          named = λ i a p. ground (arith, v.named i a, new i a);
        },
        refl,
        refl,
      )

module _ (current : Option ℕ) (e : ℕ) (t : Table) (s : Slots) (v : IsValid t s)
    (new : IsNew e t s) where
  claim_entry-IsNew : IsNew e (claim_entry current e t) s
  unfolding claim_entry
  claim_entry-IsNew i f p = ground (arith, new i f p)

  pub add_handle_locked-IsValid :
      t.next.l4 + 2 < 512
      → (d : ℕ) × (t' : Table) × (add_handle_locked current (some e) t
          ≡ ok (make_handle (attribute t) (position 0 0 0 d), t'))
        × (s d ≡ none)
        × (d < t'.next.l4)
        × (t'.next.l4 ≤ t.next.l4 + 2)
        × (t'.local ≡ t.local)
        × IsValid t' (update s d (some e))
  unfolding add_handle_locked
  add_handle_locked-IsValid h =
      let u = claim_entry current e t in
      let v' = claim_entry-IsValid t s v current e in
      let new' = claim_entry-IsNew in
      let (d, n, eq, free, lt, le, le') = allocate_slot-lem u s v' h in
      let (t', eq', v'', en, el) = store_entry-lem u s v' e d n new' free lt (omega arith) le in
      (
        d,
        t',
        rw (local_get_locked-none u s v' e new', eq) eq',
        free,
        omega arith,
        omega arith,
        el,
        v'',
      )
