-- ===== src/AddressSpace.antt =====
-- The address space of kern/memory/vmm/address_space.cc: its segments in an intrusive list, the
-- cache of the last search, and its lock. A segment is an address, which is also its link's. The
-- page table is a parameter, `unmap_range`; the loops run on fuel. An allocation is the address it
-- gives, or `none`.
pub mod Search
pub mod Place
pub mod Order
pub mod Insert
pub mod Map
pub mod Unmap
mod Tests
use Prim.Native.Nat.{bit_and, min}
use project_dionysus.Base.{
  ℕ, zero, suc, ◌+◌, ◌-◌, ◌*◌, ◌/◌, ◌%◌, ◌^◌, ◌≡◌, Bool, true, false, not, ◌&&◌, ◌||◌, Option, none,
  some, Run, ok, fault, assert, deref, ◌>>=◌, ◌>>◌, Result, value, error, ErrorCode, error_invalid,
  error_already_exist, error_memory_alloc, ◌==◌, leb, ltb, if◌then◌else◌,
}
use project_dionysus.IntrusiveList.{
  Links, IntrusiveList, update, check, list_empty, insert, push_back, remove, new_list,
}

-- start_, end_, flags_, and whether parent_ is set.
pub record Segment : Type 0 where
  pub start : ℕ
  pub end : ℕ
  pub flags : ℕ
  pub owned : Bool

-- segments, with the links and the segments of all addresses, search_cache_, and whether this CPU
-- holds lock_.
pub record Space : Type 0 where
  pub segments : IntrusiveList
  pub links : Links
  pub segment : ℕ → Segment
  pub search_cache : Option ℕ
  pub locked : Bool

abbrev pub page_size : ℕ
page_size = 4096

abbrev pub user_top : ℕ
user_top = 2 ^ 47 - 1

abbrev pub vm_share : ℕ
vm_share = 16

unfoldable pub rounddown : ℕ → ℕ → ℕ
rounddown val n = val - val % n

unfoldable pub roundup : ℕ → ℕ → ℕ
roundup val n = rounddown ((val + n + 2 ^ 64 - 1) % 2 ^ 64) n

unfoldable pub page_rounddown : ℕ → ℕ
page_rounddown addr = bit_and addr (2 ^ 64 - page_size)

unfoldable pub page_roundup : ℕ → ℕ
page_roundup addr = bit_and ((addr + (page_size - 1)) % 2 ^ 64) (2 ^ 64 - page_size)

unfoldable pub valid_user_region : ℕ → ℕ → Bool
valid_user_region start end = ltb start end && leb end user_top

-- The constructor of a segment.
unfoldable pub new_segment : ℕ → ℕ → ℕ → ℕ → Space → Run Space
new_segment vma start end flags sp =
    assert (ltb start end)
    >> ok (record sp {
      segment =
          update sp.segment vma (record { start = start; end = end; flags = flags; owned = false });
    })

-- address_space_segment::resize
unfoldable pub resize_segment : ℕ → ℕ → Segment → Result Segment
resize_segment start end seg =
    if not (start % page_size == 0) || not (end % page_size == 0)
    then error error_invalid
    else (if leb end start
        then error error_invalid
        else (if not (leb seg.start start && leb end seg.end)
            then error error_invalid
            else value (record seg { start = start; end = end })))

-- What an iterator points at.
abbrev pub at_iterator : ℕ → Space → Run ℕ
at_iterator iter sp = check iter >> deref (sp.links.parent iter)

-- A scope with a lock_guard on lock_: taking it again on the same CPU is a panic.
unfoldable pub with_lock {ℓ} : {A : Type ℓ} → (Space → Run (A × Space)) → Space → Run (A × Space)
with_lock f sp =
    if sp.locked
    then fault
    else (f (record sp { locked = true }) >>= λ r. ok (r.0, record r.1 { locked = false }))

abbrev pub covers : ℕ → Segment → Bool
covers addr seg = leb seg.start addr && ltb addr seg.end

-- The loop of find_vma_locked, from the link `iter` on.
unfoldable pub scan : ℕ → ℕ → ℕ → Space → Run (Option ℕ)
scan zero addr iter sp = fault
scan (suc fuel) addr iter sp =
    let rest = at_iterator iter sp >>= λ seg.
    (if covers addr (sp.segment seg)
      then ok (some seg)
      else scan fuel addr (sp.links.next iter) sp) in
    if iter == sp.segments.head then ok none else rest

-- The test of the cache in find_vma_locked.
unfoldable pub cached : ℕ → Space → Bool
cached addr sp = elim sp.search_cache [ none ↦ false | some c ↦ covers addr (sp.segment c) ]

unfoldable pub find_vma_locked : ℕ → ℕ → Space → Run (Option ℕ × Space)
find_vma_locked fuel addr sp = do
  ret ←
      (if cached addr sp
        then ok sp.search_cache
        else scan fuel addr (sp.links.next sp.segments.head) sp)
  ok (ret, elim ret [ none ↦ sp | some vma ↦ record sp { search_cache = some vma } ])

unfoldable pub assert_segment_overlap : Option ℕ → Option ℕ → Space → Run (Unit {0})
assert_segment_overlap none next sp = ok tt
assert_segment_overlap (some p) none sp = ok tt
assert_segment_overlap (some p) (some n) sp =
    assert (ltb (sp.segment p).start (sp.segment p).end)
    >> assert (leb (sp.segment p).end (sp.segment n).start)
    >> assert (ltb (sp.segment n).start (sp.segment n).end)

-- The loop of insert_vma_locked: `prev` when it ends.
unfoldable pub find_prev : ℕ → ℕ → Option ℕ → ℕ → Space → Run (Option ℕ)
find_prev zero start prev iter sp = fault
find_prev (suc fuel) start prev iter sp =
    let rest = at_iterator iter sp >>= λ seg.
    (if ltb start (sp.segment seg).start
      then ok prev
      else find_prev fuel start (some seg) (sp.links.next iter) sp) in
    if iter == sp.segments.head then ok prev else rest

unfoldable pub insert_vma_locked : ℕ → ℕ → Space → Run Space
insert_vma_locked fuel vma sp =
    if list_empty sp.segments.head sp.links
    then (push_back vma sp.segments sp.links >>= λ r.
        ok (record sp { segments = r.0; links = r.1 }))
    else (do
      found ← find_prev fuel (sp.segment vma).start none (sp.links.next sp.segments.head) sp
      prev ← deref found
      check (sp.links.next prev)
      let next = sp.links.parent (sp.links.next prev)
      assert_segment_overlap (some prev) (some vma) sp
      assert_segment_overlap (some vma) next sp
      (l, s) ← insert prev vma sp.segments sp.links
      ok (record sp {
        segments = l;
        links = s;
        segment = update sp.segment vma (record (sp.segment vma) { owned = true });
      }))

unfoldable pub insert_vma : ℕ → ℕ → Space → Run (Unit {0} × Space)
insert_vma fuel vma = with_lock (λ sp. insert_vma_locked fuel vma sp >>= λ sp'. ok (tt, sp'))

unfoldable pub find_vma : ℕ → ℕ → Space → Run (Option ℕ × Space)
find_vma fuel addr = with_lock (find_vma_locked fuel addr)

unfoldable pub intersect_vma : ℕ → ℕ → ℕ → Space → Run (Option ℕ × Space)
intersect_vma fuel start end = with_lock (λ sp. find_vma_locked fuel start sp >>= λ r. ok (
  elim r.0 [ none ↦ none | some vma ↦ if leb end (r.1.segment vma).start then none else some vma ],
  r.1,
))

-- The new segment that map and resize_locked put into the list.
unfoldable pub place : ℕ → Option ℕ → ℕ → ℕ → ℕ → Space → Run (Result ℕ × Space)
place fuel alloc start end flags sp = elim alloc [
  | none ↦ ok (error error_memory_alloc, sp)
  | some vma ↦ new_segment vma start end flags sp >>= λ sp1.
      insert_vma_locked fuel vma sp1 >>= λ sp2. ok (value vma, sp2)
]

unfoldable pub map : ℕ → Option ℕ → ℕ → ℕ → ℕ → Space → Run (Result ℕ × Space)
map fuel alloc addr len flags sp =
    let start = rounddown addr page_size in
    let end = min (roundup ((addr + len) % 2 ^ 64) page_size) user_top in
    if not (valid_user_region start end)
    then ok (error error_invalid, sp)
    else with_lock
        (λ sp0. find_vma_locked fuel start sp0 >>= λ r.
          if elim r.0 [ none ↦ false | some vma ↦ ltb (r.1.segment vma).start end ]
          then ok (error error_already_exist, r.1)
          else place fuel alloc start end (bit_and flags (2 ^ 64 - 1 - vm_share)) r.1)
        sp

-- VM_READ | VM_WRITE
abbrev pub heap_flags : ℕ
heap_flags = 3

-- The loop that collects the segments of the region, from the link `iter` on.
unfoldable pub collect : ℕ → ℕ → IntrusiveList → ℕ → Space → Run (IntrusiveList × Space)
collect zero end freelist iter sp = fault
collect (suc fuel) end freelist iter sp =
    let rest = at_iterator iter sp >>= λ seg.
    (if leb end (sp.segment seg).start
      then ok (freelist, sp)
      else (push_back seg freelist sp.links >>= λ r.
          collect fuel end r.0 (r.1.next iter) (record sp { links = r.1 }))) in
    if iter == sp.segments.head then ok (freelist, sp) else rest

-- A collected segment that is cut to [start, end) goes back into the list.
unfoldable pub cut : ℕ → ℕ → ℕ → ℕ → Space → Run Space
cut fuel entry start end sp =
    insert_vma_locked fuel entry (elim (resize_segment start end (sp.segment entry)) [
      | error _ ↦ sp
      | value seg ↦ record sp { segment = update sp.segment entry seg }
    ])

module _ (unmap_range : ℕ → ℕ → Run (Unit {0})) where
  -- The branch of unmap where the region lies inside the segment `vma`.
  unfoldable pub punch : ℕ → Option ℕ → ℕ → ℕ → ℕ → Space → Run (Result (Unit {0}) × Space)
  punch fuel alloc start end vma sp = elim alloc [
    | none ↦ ok (error error_memory_alloc, sp)
    | some new_vma ↦
        new_segment new_vma (sp.segment vma).start start (sp.segment vma).flags sp >>= λ sp1.
        elim (resize_segment end (sp1.segment vma).end (sp1.segment vma)) [
          | error e ↦ ok (error e, sp1)
          | value seg ↦
              insert_vma_locked fuel new_vma (record sp1 { segment = update sp1.segment vma seg })
              >>= λ sp2. unmap_range start end >> ok (value tt, sp2)
        ]
  ]

  -- The loop over the collected segments. To go on from a deleted one is an access to freed memory.
  unfoldable pub free_segments : ℕ → ℕ → ℕ → IntrusiveList → ℕ → Space → Run Space
  free_segments zero start end freelist iter sp = fault
  free_segments (suc fuel) start end freelist iter sp =
      let rest = at_iterator iter sp >>= λ entry. remove entry sp.segments sp.links >>= λ r.
      (let sp1 = record sp { segments = r.0; links = r.1 } in
        let seg = sp1.segment entry in
        if ltb seg.start start
        then (cut fuel entry seg.start start sp1 >>= λ sp2.
            unmap_range start seg.end
            >> free_segments fuel start end freelist (sp2.links.next iter) sp2)
        else (if ltb end seg.end
            then (cut fuel entry end seg.end sp1 >>= λ sp2.
                unmap_range seg.start end
                >> free_segments fuel start end freelist (sp2.links.next iter) sp2)
            else (unmap_range seg.start seg.end >> fault))) in
      if iter == freelist.head then ok sp else rest

  -- unmap, with `freelist` the address of the head of the local list.
  unfoldable pub unmap : ℕ → Option ℕ → ℕ → ℕ → ℕ → Space → Run (Result (Unit {0}) × Space)
  unmap fuel alloc freelist addr len sp =
      let start = page_rounddown addr in
      let end = page_roundup ((addr + len) % 2 ^ 64) in
      if not (valid_user_region start end)
      then ok (error error_invalid, sp)
      else with_lock
          (λ sp0. find_vma_locked fuel start sp0 >>= λ r. elim r.0 [
            | none ↦ ok (value tt, r.1)
            | some vma ↦
                (let seg = r.1.segment vma in
                  if ltb end seg.start
                  then ok (value tt, r.1)
                  else (if ltb seg.start start && ltb end seg.end
                      then punch fuel alloc start end vma r.1
                      else (new_list freelist r.1.links >>= λ f.
                          collect fuel end f.0 vma (record r.1 { links = f.1 }) >>= λ c.
                          free_segments fuel start end c.0 (c.1.links.next c.0.head) c.1 >>= λ sp1.
                          ok (value tt, sp1))))
          ])
          sp

  unfoldable pub resize_locked :
      ℕ → Option ℕ → Option ℕ → ℕ → ℕ → ℕ → Space → Run (Result (Unit {0}) × Space)
  resize_locked fuel alloc alloc' freelist addr len sp =
      let start = page_rounddown addr in
      let end = page_roundup ((addr + len) % 2 ^ 64) in
      if not (valid_user_region start end)
      then ok (error error_invalid, sp)
      else (unmap fuel alloc freelist start (end - start) sp >>= λ u. elim u.0 [
        | error e ↦ ok (error e, u.1)
        | value _ ↦ find_vma_locked fuel ((start + 2 ^ 64 - 1) % 2 ^ 64) u.1 >>= λ r.
            (let grow = λ (vma : ℕ). ok (
              value tt,
              record r.1 {
                segment = update r.1.segment vma (record (r.1.segment vma) { end = end });
              },
            ) in
              let fresh = place fuel alloc' start end heap_flags r.1 >>= λ p.
              ok (elim p.0 [ error e ↦ error e | value _ ↦ value tt ], p.1) in
              elim r.0 [
                | none ↦ fresh
                | some vma ↦
                    if (r.1.segment vma).end == start && (r.1.segment vma).flags == heap_flags
                    then grow vma
                    else fresh
              ])
      ])

  unfoldable pub resize :
      ℕ → Option ℕ → Option ℕ → ℕ → ℕ → ℕ → Space → Run (Result (Unit {0}) × Space)
  resize fuel alloc alloc' freelist addr len =
      with_lock (resize_locked fuel alloc alloc' freelist addr len)
