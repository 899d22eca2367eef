-- ===== src/AddressSpace/Map.antt =====
-- map: a region that meets no segment gets one, in its place; one whose start is taken gets none.
use Prim.Native.Nat.{bit_and, min}
use project_dionysus.Base.{
  ℕ, ◌+◌, ◌%◌, ◌^◌, ◌-◌, ◌≤◌, ◌<◌, ◌≡◌, ◌⊎◌, refl, sym, ◌∙◌, fun_ext, true, false, List, [], ◌∷◌,
  arith, ◌==◌, bind_ok, has, All, subst, length, ok, Option, none, some, ==_refl, ==-ne, lt→ltb,
  ltb, value, error, error_already_exist,
}
use project_dionysus.IntrusiveList.{update}
use project_dionysus.AddressSpace.{
  Space, Segment, map, place, new_segment, with_lock, find_vma_locked, insert_vma_locked, covers,
  rounddown, roundup, valid_user_region, page_size, user_top, vm_share,
}
use project_dionysus.AddressSpace.Search.{
  found_locked, IsSpace, IsCached, Ordered, lookup, find_vma_locked-lookup,
}
use project_dionysus.AddressSpace.Place.{inserted}
use project_dionysus.AddressSpace.Insert.{insert_vma_locked-inserted}

-- The region of a call of map.
abbrev pub first_page : ℕ → ℕ
first_page addr = rounddown addr page_size

abbrev pub last_page : ℕ → ℕ → ℕ
last_page addr len = min (roundup ((addr + len) % 2 ^ 64) page_size) user_top

-- The segment it makes.
abbrev pub mapped : ℕ → ℕ → ℕ → Segment
mapped addr len flags = record {
  start = first_page addr;
  end = last_page addr len;
  flags = bit_and flags (2 ^ 64 - 1 - vm_share);
  owned = false;
}

-- The region [start, end) has no address in common with a segment.
abbrev pub Free : ℕ → ℕ → Segment → Type 0
Free start end seg = (seg.end ≤ start) ⊎ (end ≤ seg.start)

All-elsewhere {κ} :
    (P : Segment → Type κ) (seg : ℕ → Segment) (vma : ℕ) (v : Segment) (xs : List ℕ)
    → has vma xs ≡ false
    → All (λ y. P (seg y)) xs
    → All (λ y. P (update seg vma v y)) xs
All-elsewhere P seg vma v [] h a = tt
All-elsewhere P seg vma v (x ∷ xs) h a =
    let there : (vma == x) ≡ false = ground arith in
    (rw there a.0, All-elsewhere P seg vma v xs (ground arith) a.1)

Ordered-elsewhere :
    (seg : ℕ → Segment) (vma : ℕ) (v : Segment) (xs : List ℕ)
    → has vma xs ≡ false
    → Ordered seg xs
    → Ordered (update seg vma v) xs
Ordered-elsewhere seg vma v [] h o = tt
Ordered-elsewhere seg vma v (x ∷ xs) h o =
    let there : (vma == x) ≡ false = ground arith in
    let inside : has vma xs ≡ false = ground arith in
    (
      rw there o.0,
      rw there (All-elsewhere (λ s. (seg x).end ≤ s.start) seg vma v xs inside o.1),
      Ordered-elsewhere seg vma v xs inside o.2,
    )

lookup-Free :
    (start end : ℕ) (seg : ℕ → Segment) (xs : List ℕ)
    → start < end
    → All (λ y. Free start end (seg y)) xs
    → lookup start seg xs ≡ none
unfolding lookup
lookup-Free start end seg [] h a = refl
lookup-Free start end seg (x ∷ xs) h a =
    rw (not_covered (seg x) a.0) (lookup-Free start end seg xs h a.1)
  where
    not_covered : (s : Segment) → Free start end s → covers start s ≡ false
    not_covered s f = ground (arith, h)

region_lt : (start end : ℕ) → valid_user_region start end ≡ true → start < end
unfolding valid_user_region
region_lt start end h = ground arith

-- The search in a space where the region is free.
searched :
    (sp : Space) (ss : List ℕ) (addr len fuel : ℕ)
    → IsSpace sp ss
    → IsCached sp.search_cache ss
    → length ss < fuel
    → first_page addr < last_page addr len
    → All (λ y. Free (first_page addr) (last_page addr len) (sp.segment y)) ss
    → find_vma_locked fuel (first_page addr) (record sp { locked = true })
      ≡ ok (none, record sp { locked = true })
searched sp ss addr len fuel space valid h long apart =
    find_vma_locked-lookup (record sp { locked = true }) ss (first_page addr) fuel
      (record { ring = space.ring; own = space.own; bare = space.bare; ordered = space.ordered })
      valid h
    ∙ rw (lookup-Free (first_page addr) (last_page addr len) sp.segment ss long apart) refl

placed :
    (sp : Space) (vma addr len flags fuel : ℕ) (sp' : Space)
    → first_page addr < last_page addr len
    → insert_vma_locked fuel vma
        (record sp { segment = update sp.segment vma (mapped addr len flags) })
      ≡ ok sp'
    → place fuel
        (some vma)
        (first_page addr)
        (last_page addr len)
        (bit_and flags (2 ^ 64 - 1 - vm_share))
        sp
      ≡ ok (value vma, sp')
unfolding place new_segment
placed sp vma addr len flags fuel sp' long done =
    rw (lt→ltb (first_page addr) (last_page addr len) long) (bind_ok _ done refl)

update_twice : (f : ℕ → Segment) (k : ℕ) (u v : Segment) → update (update f k u) k v ≡ update f k v
update_twice f k u v = fun_ext (λ j. ground arith)

-- Mapping a valid region that meets no segment of a well-formed address space, and does not
-- start before the first one, into a new segment that is in no list, succeeds: the segment
-- starts and ends with the region rounded to pages, has the flags asked for without the one for
-- sharing, and stands at its place in the order; no other segment changes, the address space
-- stays well formed and its lock is free again.
pub map-inserted :
    (sp : Space) (x : ℕ) (xs : List ℕ) (vma addr len flags fuel : ℕ)
    → IsSpace sp (x ∷ xs)
    → IsCached sp.search_cache (x ∷ xs)
    → length xs + 2 ≤ fuel
    → sp.locked ≡ false
    → valid_user_region (first_page addr) (last_page addr len) ≡ true
    → All (λ y. Free (first_page addr) (last_page addr len) (sp.segment y)) (x ∷ xs)
    → (sp.segment x).start ≤ first_page addr
    → has vma (0 ∷ sp.segments.head ∷ x ∷ xs) ≡ false
    → sp.links.parent vma ≡ some vma
    → (sp' : Space) × (map fuel (some vma) addr len flags sp ≡ ok (value vma, sp'))
      × IsSpace sp' (inserted (update sp.segment vma (mapped addr len flags)) vma (x ∷ xs))
      × (sp'.segment ≡ update sp.segment vma (record (mapped addr len flags) { owned = true }))
      × (sp'.locked ≡ false)
unfolding map with_lock
map-inserted sp x xs vma addr len flags fuel space valid h free region apart le u own =
    let ss = x ∷ xs in
    let seg = mapped addr len flags in
    let fresh : has vma ss ≡ false = ground arith in
    let long = region_lt (first_page addr) (last_page addr len) region in
    let at_vma : update sp.segment vma seg vma ≡ seg = rw (==_refl vma) refl in
    let sp2 = record sp { locked = true; segment = update sp.segment vma seg } in
    let (sp3, done, space3, _, _, segments3) =
      insert_vma_locked-inserted sp2 x xs vma fuel
        (record {
          ring = space.ring;
          own = space.own;
          bare = space.bare;
          ordered = Ordered-elsewhere sp.segment vma seg ss fresh space.ordered;
        })
        (rw at_vma long)
        (subst (λ s. All (λ y. Free s.start s.end (update sp.segment vma seg y)) ss) (sym at_vma)
          (All-elsewhere (Free (first_page addr) (last_page addr len)) sp.segment vma seg ss fresh
            apart))
        (rw (at_vma, ==-ne vma x (ground arith)) le) u own h in
    (
      record sp3 { locked = false },
      rw (region, free)
          (bind_ok _
            (bind_ok _ (searched sp ss addr len fuel space valid (omega arith) long apart)
              (placed (record sp { locked = true }) vma addr len flags fuel sp3 long done))
            refl),
      record { ring = space3.ring; own = space3.own; bare = space3.bare; ordered = space3.ordered },
      segments3 ∙ rw at_vma (update_twice sp.segment vma seg (record seg { owned = true })),
      refl,
    )

-- map of a region whose start lies in a segment makes none.
pub map_taken :
    (sp : Space) (ss : List ℕ) (alloc : Option ℕ) (addr len flags c fuel : ℕ)
    → IsSpace sp ss
    → IsCached sp.search_cache ss
    → length ss < fuel
    → sp.locked ≡ false
    → valid_user_region (first_page addr) (last_page addr len) ≡ true
    → has c ss ≡ true
    → covers (first_page addr) (sp.segment c) ≡ true
    → map fuel alloc addr len flags sp
      ≡ ok (error error_already_exist, record sp { locked = false; search_cache = some c })
unfolding map with_lock
map_taken sp ss alloc addr len flags c fuel space valid h free region inside k =
    rw
      (
        region,
        free,
        found_locked sp ss (first_page addr) c fuel space valid h inside k,
        before_last (first_page addr) (last_page addr len) (sp.segment c)
            (region_lt (first_page addr) (last_page addr len) region) k,
      )
      refl
  where
    before_last :
        (start end : ℕ) (seg : Segment)
        → start < end
        → covers start seg ≡ true
        → ltb seg.start end ≡ true
    before_last start end seg a b = ground arith
