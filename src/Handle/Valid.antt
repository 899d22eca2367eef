-- ===== src/Handle/Valid.antt =====
-- The states of a handle table that add_handle and remove_handle keep to, and what the loops of
-- kern/object/handle_table.cc compute there.
use project_dionysus.Base.{
  ℕ, ◌+◌, ◌≤◌, ◌<◌, ◌≡◌, refl, ◌∙◌, Bool, Option, none, some, arith, ok, first_index,
  for_each-first_index, for_each_once, lt→ltb,
}
use project_dionysus.Handle.Code.{make_handle}
use project_dionysus.Handle.{
  Slots, Level2, Level3, Root, Table, update, position, read_slot, write_slot, scan, attribute,
}

-- The path of zeros leads to the table of entries `s`.
pub record FirstTable (r : Root) (s : Slots) : Type 0 where
  pub level2 : Level2
  pub level3 : Level3
  pub at1 : r 0 ≡ some level2
  pub at2 : level2 0 ≡ some level3
  pub at3 : level3 0 ≡ some s

-- Only the table of entries at the path of zeros is in use, up to the index `next.l4`; no two of
-- its entries are for one object, and each bears the handle of its slot.
pub record IsValid (t : Table) (s : Slots) : Type 0 where
  pub first : FirstTable t.root s
  pub low1 : t.next.l1 ≡ 0
  pub low2 : t.next.l2 ≡ 0
  pub low3 : t.next.l3 ≡ 0
  pub room : t.next.l4 < 512
  pub unused : (i : ℕ) → t.next.l4 ≤ i → s i ≡ none
  pub distinct :
      (i j e f : ℕ)
      → s i ≡ some e
      → s j ≡ some f
      → (t.entries e).object ≡ (t.entries f).object
      → i ≡ j
  pub named :
      (i e : ℕ) → s i ≡ some e → (t.entries e).value ≡ make_handle (attribute t) (position 0 0 0 i)

module _ {r : Root} {s : Slots} (f : FirstTable r s) (d : ℕ) (h : d < 512) where
  pub read_slot-first : read_slot r (position 0 0 0 d) ≡ ok (s d)
  unfolding read_slot
  read_slot-first = rw (f.at1, f.at2, f.at3, lt→ltb d 512 h)

  pub write_slot-first :
      (e : Option ℕ)
      → (r' : Root) × (write_slot r (position 0 0 0 d) e ≡ ok r') × FirstTable r' (update s d e)
  unfolding write_slot
  write_slot-first e = (
    update r 0 (some (update f.level2 0 (some (update f.level3 0 (some (update s d e)))))),
    rw (f.at1, f.at2, f.at3, lt→ltb d 512 h),
    record { level2 = _; level3 = _; at1 = refl; at2 = refl; at3 = refl },
  )

-- In a valid table the four loops search the first table of entries from the bottom.
pub scan-first_index :
    (t : Table) (s : Slots) (test : Option ℕ → Bool)
    → IsValid t s
    → scan test t
      ≡ ok (elim (first_index t.next.l4 0 (λ d. test (s d))) [
        | none ↦ none
        | some d ↦ some (position 0 0 0 d)
      ])
unfolding scan
scan-first_index t s test v =
    for_each_once (t.next.l1 + 1) _ (omega (arith, v.low1))
    ∙ for_each_once (t.next.l2 + 1) _ (omega (arith, v.low2))
    ∙ for_each_once (t.next.l3 + 1) _ (omega (arith, v.low3))
    ∙ for_each-first_index t.next.l4 0 _ (λ d. test (s d)) (position 0 0 0)
        (λ k a b. rw (read_slot-first v.first k (omega (arith, v.room))))
