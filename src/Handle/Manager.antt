-- ===== src/Handle/Manager.antt =====
-- kern/object/object_manager.cc: get_handle_entry, over the global table and the table of the
-- current process.
use project_dionysus.Base.{ℕ, ◌≡◌, true, Option, none, Run, ok, arith, if◌then◌else◌}
use project_dionysus.Handle.Code.{
  Position, FitsByte, make_handle, handle_has_attribute, hattr_global, hattr_local_proc,
  handle_has_attribute-make_handle,
}
use project_dionysus.Handle.Lookup.{get_handle_entry_locked_global}
use project_dionysus.Handle.{Table, get_handle_entry_locked}

-- `global` is the global handle table, `current` that of the current process.
pub get_handle_entry : Table → Table → ℕ → Run (Option ℕ)
get_handle_entry global current h =
    if handle_has_attribute h hattr_local_proc
    then get_handle_entry_locked h global
    else get_handle_entry_locked h current

-- The test is inverted: a handle of the global table is looked up in the table of the process,
-- where it is never found, whatever the two tables hold.
pub get_handle_entry_global :
    (global current : Table) (p : Position)
    → FitsByte p
    → current.local ≡ true
    → get_handle_entry global current (make_handle hattr_global p) ≡ ok none
unfolding get_handle_entry
get_handle_entry_global global current p fits local =
    rw (handle_has_attribute-make_handle hattr_global hattr_local_proc p (omega arith) fits)
      (get_handle_entry_locked_global current p fits local)

-- A handle of a process table is looked up in the global table.
pub get_handle_entry_local :
    (global current : Table) (p : Position)
    → FitsByte p
    → get_handle_entry global current (make_handle hattr_local_proc p)
      ≡ get_handle_entry_locked (make_handle hattr_local_proc p) global
unfolding get_handle_entry
get_handle_entry_local global current p fits =
    rw (handle_has_attribute-make_handle hattr_local_proc hattr_local_proc p (omega arith) fits)
