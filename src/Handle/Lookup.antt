-- ===== src/Handle/Lookup.antt =====
-- get_handle_entry_locked of kern/object/handle_table.cc in valid tables, alone and after
-- add_handle_locked.
use project_dionysus.Base.{ℕ, ◌^◌, ◌≤◌, ◌<◌, ◌≡◌, true, none, some, arith, ok, le→leb}
use project_dionysus.Handle.Code.{
  Position, FitsByte, hattr_global, make_handle, disassemble-make_handle,
}
use project_dionysus.Handle.{Slots, Table, position, attribute, get_handle_entry_locked}
use project_dionysus.Handle.Valid.{IsValid, read_slot-first}

attribute-small : (t : Table) → attribute t < 2 ^ 16
attribute-small t = ground arith

-- The handle of a slot below 256 finds what the slot holds.
pub get_handle_entry_locked_slot :
    (t : Table) (s : Slots) (i : ℕ)
    → IsValid t s
    → i < 256
    → i ≤ t.next.l4
    → get_handle_entry_locked (make_handle (attribute t) (position 0 0 0 i)) t ≡ ok (s i)
unfolding get_handle_entry_locked
get_handle_entry_locked_slot t s i v small le =
    rw (disassemble-make_handle (attribute t) (position 0 0 0 i) (attribute-small t) (omega arith))
      (ground (arith, read_slot-first v.first i, le→leb i t.next.l4 le))

-- A process table answers no global handle.
pub get_handle_entry_locked_global :
    (t : Table) (p : Position)
    → FitsByte p
    → t.local ≡ true
    → get_handle_entry_locked (make_handle hattr_global p) t ≡ ok none
unfolding get_handle_entry_locked
get_handle_entry_locked_global t p fits local =
    rw (disassemble-make_handle hattr_global p (omega arith) fits) (ground arith)

-- The slots in use lie below `next`.
pub below_next : (t : Table) (s : Slots) (i e : ℕ) → IsValid t s → s i ≡ some e → i < t.next.l4
below_next t s i e v p = ground (arith, v.unused i)

-- Every entry is found by the handle that it bears.
pub get_handle_entry_locked_entry :
    (t : Table) (s : Slots) (i f : ℕ)
    → IsValid t s
    → t.next.l4 ≤ 256
    → s i ≡ some f
    → get_handle_entry_locked (t.entries f).value t ≡ ok (some f)
get_handle_entry_locked_entry t s i f v small p =
    rw
      (
        v.named i f p,
        get_handle_entry_locked_slot t s i v (omega (arith, below_next t s i f v p))
            (omega (arith, below_next t s i f v p)),
      )
      (ground arith)
