-- ===== src/Handle/Tests.antt =====
-- Handle tables on concrete data: tests, and the theorems at inputs that meet their hypotheses.
use project_dionysus.Base.{ℕ, ◌+◌, ◌≡◌, true, none, some, arith, ◌==◌, if◌then◌else◌}
use project_dionysus.Handle.Code.{
  make_handle, disassemble_handle, hattr_local_proc, disassemble-make_handle, make_handle_collision,
}
use project_dionysus.Handle.{Entry, no_owner, Slots, Root, Table, update, position, null_slots}

abbrev entry : ℕ → ℕ → Entry
entry object value = record {
  object = object;
  parent = none;
  name = "obj";
  owner_process_id = no_owner;
  value = value;
}

-- Entry 1 and entry 4 are for object 101, entry 2 is for object 102, and so on.
abbrev entries : ℕ → Entry
entries e = if e == 4 then entry 101 0 else entry (100 + e) 0

abbrev blank : Table
blank = record {
  address = 9;
  local = true;
  parent = none;
  root = λ _. none;
  next = position 0 0 0 0;
  entries = entries;
}

-- A table whose slot 0 holds entry 1, whose handle is 2 << 32.
abbrev root_with : Slots → Root
root_with s =
    update (λ _. none) 0 (some (update (λ _. none) 0 (some (update (λ _. none) 0 (some s)))))

abbrev one_slots : Slots
one_slots = update null_slots 0 (some 1)

abbrev one_entry : Table
one_entry = record blank {
  root = root_with one_slots;
  next = position 0 0 0 2;
  entries = update entries 1 (entry 101 0x200000000);
}

disassemble-make_handle_example :
    disassemble_handle (make_handle hattr_local_proc (position 0 0 3 7)) ≡ (2, position 0 0 3 7)
disassemble-make_handle_example =
    disassemble-make_handle hattr_local_proc (position 0 0 3 7) (omega arith) (omega arith)

make_handle_collision_example :
    make_handle hattr_local_proc (position 0 0 0 256)
    ≡ make_handle hattr_local_proc (position 0 0 1 0)
make_handle_collision_example =
    make_handle_collision hattr_local_proc 0 0 0 0 (omega arith) (omega arith) (omega arith)
      (omega arith) (omega arith)
