-- ===== src/Handle/Faults.antt =====
-- Where add_handle_locked of kern/object/handle_table.cc does not add: an object that is there
-- already, and a table whose first 512 slots are used up.
use project_dionysus.Base.{
  ℕ, ◌+◌, ◌≡◌, refl, inl, inr, true, Bool, Run, ap, for_each-none, for_each_zero, Option, none,
  some, arith, ok, fault, Option-cases, first_index, first_index-none,
}
use project_dionysus.Handle.{
  Slots, Root, Table, position, same_object, scan, is_null, local_get_locked, claim_entry,
  add_handle_locked, first_free, allocate_slot, store_entry, write_slot, initialize_table,
  first_tables, null_slots,
}
use project_dionysus.Handle.Code.{Position}
use project_dionysus.Handle.Valid.{FirstTable, IsValid, scan-first_index}
use project_dionysus.Handle.Lookup.{below_next}
use project_dionysus.Handle.Add.{claim_entry-IsValid, fresh_slot-low, claim_slot-low}

-- A table that is set up is valid and holds nothing.
pub initialize_table-IsValid : (t : Table) → IsValid (initialize_table t) null_slots
unfolding initialize_table first_tables
initialize_table-IsValid t = record {
  first = record { level2 = _; level3 = _; at1 = refl; at2 = refl; at3 = refl };
  low1 = refl;
  low2 = refl;
  low3 = refl;
  room = omega arith;
  unused = λ i h. refl;
  distinct = λ i j e f p. absurd (ground arith);
  named = λ i e p. absurd (ground arith);
}

-- Adding an entry for an object that the table holds already stores nothing, and returns the
-- value of the new entry, not the handle of the entry that is there.
pub add_handle_locked_duplicate :
    (current : Option ℕ) (t : Table) (s : Slots) (i f e : ℕ)
    → IsValid t s
    → s i ≡ some f
    → (t.entries f).object ≡ (t.entries e).object
    → (t' : Table) × (add_handle_locked current (some e) t ≡ ok ((t.entries e).value, t'))
      × (t'.root ≡ t.root)
      × (t'.next ≡ t.next)
unfolding add_handle_locked local_get_locked claim_entry
add_handle_locked_duplicate current t s i f e v p same =
    elim (Option-cases (first_index t.next.l4 0 (λ d. same_object u e (s d)))) [
      | inl q ↦ absurd (
          ground (
            arith,
            first_index-none t.next.l4 0 (λ d. same_object u e (s d)) i q,
            below_next t s i f v p,
            hit,
          ))
      | inr (d, q) ↦ (
        u,
        rw (scan-first_index u s (same_object u e) (claim_entry-IsValid t s v current e), q)
            value_kept,
        root_kept,
        next_kept,
      )
    ]
  where
    u : Table
    u = claim_entry current e t

    hit : same_object u e (s i) ≡ true
    hit = rw p (ground (arith, same))

    value_kept :
        ◌≡◌ {A = Run (ℕ × Table)} (ok ((u.entries e).value, u)) (ok ((t.entries e).value, u))
    value_kept = ground arith

    root_kept : u.root ≡ t.root
    root_kept = refl

    next_kept : u.next ≡ t.next
    next_kept = refl

scan-empty : (test : Option ℕ → Bool) (t : Table) → t.next.l4 ≡ 0 → scan test t ≡ ok none
unfolding scan
scan-empty test t e = for_each-none (t.next.l1 + 1) 0 _ λ a.
    for_each-none (t.next.l2 + 1) 0 _
      λ b. for_each-none (t.next.l3 + 1) 0 _ λ c. for_each_zero t.next.l4 0 _ e

write_slot-missing :
    (r : Root) (s : Slots) (f : FirstTable r s) (p : Position) (e : Option ℕ)
    → f.level3 1 ≡ none
    → p ≡ position 0 0 1 0
    → write_slot r p e ≡ fault
unfolding write_slot
write_slot-missing r s f p e missing at = rw at (rw (f.at1, f.at2, missing))

-- Behind the last slot of the first table no further table is allocated: once `next` has moved
-- there, adding any entry faults.
pub add_handle_locked_exhausted :
    (current : Option ℕ) (e : ℕ) (t : Table) (s : Slots) (f : FirstTable t.root s)
    → f.level3 1 ≡ none
    → t.next ≡ position 0 0 1 0
    → add_handle_locked current (some e) t ≡ fault
unfolding add_handle_locked local_get_locked allocate_slot first_free store_entry
add_handle_locked_exhausted current e t s f missing at =
    let u = claim_entry current e t in
    let low : t.next.l4 ≡ 0 = ap (λ p. p.l4) at in
    let u1 = record u { next = record u.next { l4 = u.next.l4 + 1 } } in
    rw (scan-empty (same_object u e) u low, scan-empty is_null u low)
      (rw (fresh_slot-low u (omega arith)) (
        rw (claim_slot-low u1 t.next (omega arith))
          (rw (write_slot-missing t.root s f t.next (some e) missing at))))
