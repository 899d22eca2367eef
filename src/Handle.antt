-- ===== src/Handle.antt =====
-- The handle table: include/object/handle_table.hpp and kern/object/handle_table.cc.
-- A table of a level is a function of the index, null where no table or entry is; handle entries
-- live at addresses in a store. Locks and canaries are left out, and a name is a whole text.
pub mod Code
pub mod Valid
pub mod Add
pub mod Lookup
pub mod Remove
pub mod Faults
pub mod Manager
mod Tests
use Prim.Native.Nat.{bit_and}
use Prim.Native.String.{String}
use text.Mathlib.Text.{◌==◌ as str_eq}
use project_dionysus.Base.{
  ℕ, ◌+◌, ◌%◌, Bool, true, false, ◌&&◌, not, Option, none, some, ltb, leb, ◌==◌, if◌then◌else◌, Run,
  ok, fault, ◌>>=◌, ◌>>◌, assert, deref, Result, value, error, error_too_many_handles, for_each,
  for_update,
}
use Code.{Position, make_handle, disassemble_handle, hattr_global, hattr_local_proc}

abbrev pub max_handle_per_table : ℕ
max_handle_per_table = 512

-- `koid_type`, with the -1 of an entry that no process owns.
pub data Koid : Type 0 where
  koid : ℕ → Koid
  no_owner : Koid

-- `handle_entry`; `object` is the address of its dispatcher, `parent` that of its table.
pub record Entry : Type 0 where
  pub object : ℕ
  pub parent : Option ℕ
  pub name : String
  pub owner_process_id : Koid
  pub value : ℕ

-- `table`, at each of the four levels.
abbrev pub Slots : Type 0
Slots = ℕ → Option ℕ

abbrev pub Level3 : Type 0
Level3 = ℕ → Option Slots

abbrev pub Level2 : Type 0
Level2 = ℕ → Option Level3

abbrev pub Root : Type 0
Root = ℕ → Option Level2

-- `handle_table`, with the entries in memory. `parent` is the koid of the owning dispatcher.
pub record Table : Type 0 where
  pub address : ℕ
  pub local : Bool
  pub parent : Option ℕ
  pub root : Root
  pub next : Position
  pub entries : ℕ → Entry

abbrev pub update {ℓ} : {A : Type ℓ} → (ℕ → A) → ℕ → A → ℕ → A
update f i a j = if i == j then a else f j

abbrev pub position : ℕ → ℕ → ℕ → ℕ → Position
position a b c d = record { l1 = a; l2 = b; l3 = c; l4 = d }

abbrev pub null_slots : Slots
null_slots i = none

-- The tables that `initialize_table` allocates: one on each path through index 0.
pub first_tables : Root
first_tables =
    update (λ _. none) 0
      (some (update (λ _. none) 0 (some (update (λ _. none) 0 (some null_slots)))))

pub initialize_table : Table → Table
initialize_table t = record t { root = update t.root 0 (first_tables 0); next = position 0 0 0 0 }

-- An access past the end of an array faults.
abbrev pub in_table : ℕ → Run (Unit {0})
in_table i = assert (ltb i max_handle_per_table)

abbrev pub next_table {ℓ} : {A : Type ℓ} → (ℕ → Option A) → ℕ → Run A
next_table t i = in_table i >> deref (t i)

-- root_.next[l1]->next[l2]->next[l3]->entry[l4], read and written.
pub read_slot : Root → Position → Run (Option ℕ)
read_slot r p = do
  t2 ← next_table r p.l1
  t3 ← next_table t2 p.l2
  t4 ← next_table t3 p.l3
  in_table p.l4
  ok (t4 p.l4)

pub write_slot : Root → Position → Option ℕ → Run Root
write_slot r p e = do
  t2 ← next_table r p.l1
  t3 ← next_table t2 p.l2
  t4 ← next_table t3 p.l3
  in_table p.l4
  ok (update r p.l1 (some (update t2 p.l2 (some (update t3 p.l3 (some (update t4 p.l4 e)))))))

-- The four nested loops that the searches share: the first slot that passes the test.
pub scan : (Option ℕ → Bool) → Table → Run (Option Position)
scan test t = for_each (t.next.l1 + 1) 0 λ a. for_each (t.next.l2 + 1) 0 λ b.
    for_each (t.next.l3 + 1) 0 λ c. for_each t.next.l4 0 λ d. do
      slot ← read_slot t.root (position a b c d)
      ok (if test slot then some (position a b c d) else none)

abbrev pub is_null {ℓ} : {A : Type ℓ} → Option A → Bool
is_null none = true
is_null (some a) = false

-- slot && slot->ptr_ == e->ptr_
abbrev pub same_object : Table → ℕ → Option ℕ → Bool
same_object t e none = false
same_object t e (some s) = (t.entries s).object == (t.entries e).object

pub increase_next_cur : ℕ → Bool × ℕ
increase_next_cur n = (leb max_handle_per_table (n + 1), (n + 1) % max_handle_per_table)

pub increase_next : Position → Position × Result (Unit {0})
unfolding increase_next_cur
increase_next n =
    let (c4, v4) = increase_next_cur n.l4 in
    let (c3, v3) = increase_next_cur n.l3 in
    let (c2, v2) = increase_next_cur n.l2 in
    let (c1, v1) = increase_next_cur n.l1 in
    if c4
    then (if c3
        then (if c2
            then (if c1
                then (record n { l1 = v1 }, error error_too_many_handles)
                else (position v1 v2 v3 v4, value tt))
            else (record n { l2 = v2; l3 = v3; l4 = v4 }, value tt))
        else (record n { l3 = v3; l4 = v4 }, value tt))
    else (record n { l4 = v4 }, value tt)

-- What `first_free` returns after its search.
pub fresh_slot : Table → Table × Result Position
fresh_slot t = elim ((increase_next t.next).1) [
  | error e ↦ (record t { next = (increase_next t.next).0 }, error e)
  | value _ ↦ (record t { next = (increase_next t.next).0 }, value t.next)
]

pub first_free : Table → Run (Table × Result Position)
unfolding fresh_slot
first_free t =
    scan is_null t >>= λ found. elim found [ some p ↦ ok (t, value p) | none ↦ ok (fresh_slot t) ]

-- The second half of `allocate_slot`, behind a successful search.
pub claim_slot : Table × Result Position → Table × Result Position
claim_slot (t, error e) = (t, error e)
claim_slot (t, value p) = elim ((increase_next t.next).1) [
  | error e ↦ (record t { next = (increase_next t.next).0 }, error e)
  | value _ ↦ (record t { next = (increase_next t.next).0 }, value p)
]

pub allocate_slot : Table → Run (Table × Result Position)
unfolding first_free claim_slot
allocate_slot t = first_free t >>= λ r. ok (claim_slot r)

pub local_get_locked : ℕ → Table → Run (Option Position)
local_get_locked e t = scan (same_object t e) t

pub local_exist_locked : ℕ → Table → Run Bool
local_exist_locked e t = scan (same_object t e) t >>= λ r. ok (not (is_null r))

pub query_handle_by_name_locked : String → Table → Run (Option ℕ)
query_handle_by_name_locked name t = do
  found ← scan (λ s. elim s [ none ↦ false | some p ↦ str_eq (t.entries p).name name ]) t
  elim found [ none ↦ ok none | some p ↦ read_slot t.root p ]

-- `query_handle_locked` of the header, for a predicate on entries.
pub query_handle_locked : (Entry → Bool) → Table → Run (Option ℕ)
query_handle_locked pred t = do
  found ← scan (λ s. elim s [ none ↦ false | some p ↦ pred (t.entries p) ]) t
  elim found [ none ↦ ok none | some p ↦ read_slot t.root p ]

abbrev pub attribute : Table → ℕ
attribute t = if t.local then hattr_local_proc else hattr_global

-- The owner that `add_handle_locked` notes: the current process, or the table's dispatcher.
pub noted_owner : Table → Option ℕ → Koid → Koid
noted_owner t current old =
    if t.local
    then (elim current [ some k ↦ koid k | none ↦ elim t.parent [ some k ↦ koid k | none ↦ old ] ])
    else old

pub claim_entry : Option ℕ → ℕ → Table → Table
unfolding noted_owner
claim_entry current e t = record t {
  entries = update t.entries e (record (t.entries e) {
    owner_process_id = noted_owner t current (t.entries e).owner_process_id;
    parent = some t.address;
  });
}

-- The slot that was allocated takes the entry, and the entry its handle.
pub store_entry : ℕ → Table × Result Position → Run (ℕ × Table)
store_entry e (t, error _) = fault
store_entry e (t, value p) = do
  r ← write_slot t.root p (some e)
  ok (
    make_handle (attribute t) p,
    record t {
      root = r;
      entries = update t.entries e (record (t.entries e) { value = make_handle (attribute t) p });
    },
  )

-- `current` is the koid of the current process, if there is one; the entry may be null.
pub add_handle_locked : Option ℕ → Option ℕ → Table → Run (ℕ × Table)
unfolding claim_entry store_entry local_get_locked allocate_slot
add_handle_locked current none t = fault
add_handle_locked current (some e) t =
    let t' = claim_entry current e t in
    local_get_locked e t' >>= λ found. elim found [
      | none ↦ (allocate_slot t' >>= λ r. store_entry e r)
      | some _ ↦ ok ((t'.entries e).value, t')
    ]

pub entry_to_handle : Table → ℕ → ℕ
entry_to_handle t e = (t.entries e).value

pub get_handle_entry_locked : ℕ → Table → Run (Option ℕ)
get_handle_entry_locked h t =
    let (attr, p) = disassemble_handle h in
    if not (bit_and attr hattr_global == 0) && t.local then ok none else (do
      assert (leb p.l1 t.next.l1)
      assert (leb p.l2 t.next.l2)
      assert (leb p.l3 t.next.l3)
      assert (leb p.l4 t.next.l4)
      read_slot t.root p)

-- One round of the loop of `remove_handle_locked`.
pub clear_slot : ℕ → Table → Position → Root → Run Root
clear_slot e t p r = do
  slot ← read_slot r p
  if same_object t e slot then write_slot r p none else ok r

pub clear_slots : ℕ → Table → Run Root
unfolding clear_slot
clear_slots e t =
    for_update (t.next.l1 + 1) 0
      (λ a. for_update (t.next.l2 + 1) 0 λ b.
        for_update (t.next.l3 + 1) 0
          λ c. for_update t.next.l4 0 λ d. clear_slot e t (position a b c d))
      t.root

pub disown : Table → ℕ → ℕ → Entry
disown t e =
    update t.entries e (record (t.entries e) { owner_process_id = no_owner; parent = none })

-- Returns the entry to its new owner, the caller.
pub remove_entry_locked : ℕ → Table → Run (ℕ × Table)
unfolding local_exist_locked clear_slots disown
remove_entry_locked e t = local_exist_locked e t >>= λ exists. elim exists [
  | false ↦ ok (e, t)
  | true ↦ (clear_slots e t >>= λ r. ok (e, record t { root = r; entries = disown t e }))
]

pub remove_handle_locked : ℕ → Table → Run (Option ℕ × Table)
remove_handle_locked h t = do
  found ← get_handle_entry_locked h t
  elim found [
    | none ↦ ok (none, t)
    | some e ↦ (remove_entry_locked e t >>= λ r. ok (some r.0, r.1))
  ]
