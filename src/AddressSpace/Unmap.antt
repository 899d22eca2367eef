-- ===== src/AddressSpace/Unmap.antt =====
-- Where the code stops: a segment before all others, taking whole segments out, and resize.
use project_dionysus.Base.{
  ℕ, zero, suc, ◌+◌, ◌-◌, ◌*◌, ◌/◌, ◌%◌, ◌^◌, ◌<◌, ◌≡◌, refl, ap, ◌∙◌, true, false, ◌&&◌, List, [],
  ◌∷◌, inl, inr, arith, ◌==◌, Bool-cases, bind_ok, bind_fault, lt→ltb, has, All-has, length, Run,
  ok, fault, Option, none, some, ==_refl, ==-ne, leb, ltb,
}
use project_dionysus.Base.Bits.{bit_and_split, bit_and-mask, bit_and-zero}
use project_dionysus.IntrusiveList.{
  IntrusiveList, Links, new_list, push_back, list_add_tail, util_list_add, util_list_init, increase,
  write_next, write_prev,
}
use project_dionysus.IntrusiveList.Ring.{added, elsewhere}
use project_dionysus.IntrusiveList.Ends.{list_empty-cons}
use project_dionysus.AddressSpace.{
  Space, Segment, find_prev, insert_vma_locked, unmap, collect, with_lock, covers, resize,
  resize_locked, valid_user_region, page_rounddown, page_roundup,
}
use project_dionysus.AddressSpace.Search.{found_locked, IsSpace, IsCached}

-- A segment that starts before all others meets no place: the code reads through a null `prev`.
pub insert_vma_locked_first :
    (sp : Space) (x : ℕ) (xs : List ℕ) (vma fuel : ℕ)
    → IsSpace sp (x ∷ xs)
    → (sp.segment vma).start < (sp.segment x).start
    → insert_vma_locked fuel vma sp ≡ fault
unfolding insert_vma_locked find_prev
insert_vma_locked_first sp x xs vma zero space h =
    rw (list_empty-cons sp.segments sp.links x xs space.ring) refl
insert_vma_locked_first sp x xs vma (suc fuel) space h =
    rw
      (
        list_empty-cons sp.segments sp.links x xs space.ring,
        space.ring.chain.0,
        ==-ne x sp.segments.head (ground (arith, space.ring.distinct)),
        ==-ne x 0 (ground (arith, space.ring.nonzero)),
        space.own.0,
        lt→ltb (sp.segment vma).start (sp.segment x).start h,
      )
      refl

page_rounddown_lem : (a : ℕ) → page_rounddown a ≡ a / 4096 % 2 ^ 52 * 4096
unfolding page_rounddown
page_rounddown_lem a = ground (
  arith,
  bit_and_split 12 (a / 4096) (a % 4096) (2 ^ 52 - 1) 0,
  bit_and-mask 52 (a / 4096),
  bit_and-zero (a % 4096),
)

collect_end :
    (sp : Space) (end freelist fuel : ℕ) (l : IntrusiveList)
    → has freelist (0 ∷ sp.segments.head ∷ []) ≡ false
    → sp.links.parent freelist ≡ none
    → collect fuel end l freelist sp ≡ fault
unfolding collect
collect_end sp end freelist zero l v bare = refl
collect_end sp end freelist (suc fuel) l v bare =
    rw (==-ne freelist sp.segments.head (ground arith), ==-ne freelist 0 (ground arith), bare) refl

push_fresh :
    (s : Links) (vma freelist : ℕ)
    → has 0 (vma ∷ freelist ∷ []) ≡ false
    → s.prev freelist ≡ freelist
    → push_back vma (record { head = freelist; size = 0 }) s
      ≡ ok (increase (record { head = freelist; size = 0 }), added vma freelist freelist s)
unfolding push_back list_add_tail util_list_add
push_fresh s vma freelist u p =
    rw (p, ==-ne freelist 0 (ground arith), ==-ne vma 0 (ground arith)) refl

-- The first collected link leads to the head of the local list, which belongs to no segment.
collect_faults :
    (sp : Space) (end vma freelist fuel : ℕ)
    → has vma (0 ∷ sp.segments.head ∷ freelist ∷ []) ≡ false
    → has freelist (0 ∷ sp.segments.head ∷ []) ≡ false
    → sp.links.parent vma ≡ some vma
    → sp.links.parent freelist ≡ none
    → (sp.segment vma).start < end
    → sp.links.prev freelist ≡ freelist
    → collect fuel end (record { head = freelist; size = 0 }) vma sp ≡ fault
unfolding collect
collect_faults sp end vma freelist zero u v own bare h p = refl
collect_faults sp end vma freelist (suc fuel) u v own bare h p =
    rw
      (
        ==-ne vma sp.segments.head (ground arith),
        ==-ne vma 0 (ground arith),
        own,
        behind end (sp.segment vma).start h,
      )
      (bind_ok _ (push_fresh sp.links vma freelist (ground arith) p) (
        ap
          (λ i.
            collect fuel end fresh i (record sp { links = added vma freelist freelist sp.links }))
          (rw (==_refl vma) refl)
        ∙ collect_end (record sp { links = added vma freelist freelist sp.links }) end freelist fuel
            fresh v bare))
  where
    fresh : IntrusiveList
    fresh = increase (record { head = freelist; size = 0 })

    behind : (e s : ℕ) → s < e → leb e s ≡ false
    behind e s h = ground arith

region_starts :
    (start end : ℕ) (seg : Segment)
    → valid_user_region start end ≡ true
    → covers start seg ≡ true
    → (ltb end seg.start ≡ false) × (seg.start < end)
unfolding valid_user_region
region_starts start end seg h k = ground arith

-- The links with the head of an empty list.
abbrev around : ℕ → Links → Links
around p s = write_prev p p (write_next p p s)

new_list_lem :
    (p : ℕ) (s : Links)
    → (p == 0) ≡ false
    → new_list p s ≡ ok (record { head = p; size = 0 }, around p s)
unfolding new_list util_list_init
new_list_lem p s h = rw h refl

member_fresh :
    (c freelist head : ℕ) (ss : List ℕ)
    → has c ss ≡ true
    → has freelist (0 ∷ head ∷ ss) ≡ false
    → has 0 (head ∷ ss) ≡ false
    → has head ss ≡ false
    → has c (0 ∷ head ∷ freelist ∷ []) ≡ false
member_fresh c freelist head ss h u z d =
    ground (arith, elsewhere c 0 ss, elsewhere c head ss, elsewhere c freelist ss)

module _ (unmap_range : ℕ → ℕ → Run (Unit {0})) where
  -- Taking a valid region out of a well-formed address space is a fault whenever the region
  -- starts in a segment but does not lie strictly inside it.
  pub unmap_faults :
      (sp : Space) (ss : List ℕ) (alloc : Option ℕ) (addr len freelist c fuel : ℕ)
      → IsSpace sp ss
      → IsCached sp.search_cache ss
      → length ss < fuel
      → sp.locked ≡ false
      → valid_user_region (page_rounddown addr) (page_roundup ((addr + len) % 2 ^ 64)) ≡ true
      → has c ss ≡ true
      → covers (page_rounddown addr) (sp.segment c) ≡ true
      → (ltb (sp.segment c).start (page_rounddown addr)
          && ltb (page_roundup ((addr + len) % 2 ^ 64)) (sp.segment c).end)
        ≡ false
      → has freelist (0 ∷ sp.segments.head ∷ ss) ≡ false
      → sp.links.parent freelist ≡ none
      → unmap unmap_range fuel alloc freelist addr len sp ≡ fault
  unfolding unmap with_lock new_list
  unmap_faults sp ss alloc addr len freelist c fuel space valid h free region inside k ends u bare =
      let start = page_rounddown addr in
      let end = page_roundup ((addr + len) % 2 ^ 64) in
      let before_end = region_starts start end (sp.segment c) region k in
      rw (region, free)
        (bind_fault _ (
          bind_ok _ (found_locked sp ss start c fuel space valid h inside k) (
            rw (before_end.0, ends)
              (bind_ok _ (new_list_lem freelist sp.links (ground arith)) (
                bind_fault _ (
                  collect_faults
                    (record sp {
                      locked = true;
                      search_cache = some c;
                      links = around freelist sp.links;
                    })
                    end c freelist fuel
                    (member_fresh c freelist sp.segments.head ss inside u space.ring.nonzero
                      space.ring.distinct.0)
                    (ground arith) (All-has (λ x. sp.links.parent x ≡ some x) ss c space.own inside)
                    bare before_end.1 (rw (==_refl freelist) refl)))))))

rounddown_twice : (a : ℕ) → page_rounddown (page_rounddown a) ≡ page_rounddown a
rounddown_twice a = omega (arith, page_rounddown_lem a, page_rounddown_lem (page_rounddown a))

page_roundup_lem : (a : ℕ) → page_roundup a ≡ page_rounddown ((a + 4095) % 2 ^ 64)
unfolding page_roundup page_rounddown
page_roundup_lem a = refl

roundup_twice : (a : ℕ) → page_roundup (page_roundup a) ≡ page_roundup a
roundup_twice a = omega (
  arith,
  page_roundup_lem a,
  page_roundup_lem (page_roundup a),
  page_rounddown_lem ((a + 4095) % 2 ^ 64),
  page_rounddown_lem ((page_roundup a + 4095) % 2 ^ 64),
)

-- The region that resize_locked gives to unmap is the one it computed.
same_end :
    (start end : ℕ) → valid_user_region start end ≡ true → (start + (end - start)) % 2 ^ 64 ≡ end
unfolding valid_user_region
same_end start end h = ground arith

module _ (unmap_range : ℕ → ℕ → Run (Unit {0})) where
  -- unmap under a held lock_ is a panic.
  unmap_locked :
      (sp : Space) (alloc : Option ℕ) (addr len freelist fuel : ℕ)
      → sp.locked ≡ true
      → valid_user_region (page_rounddown addr) (page_roundup ((addr + len) % 2 ^ 64)) ≡ true
      → unmap unmap_range fuel alloc freelist addr len sp ≡ fault
  unfolding unmap with_lock
  unmap_locked sp alloc addr len freelist fuel held region = rw (region, held) refl

  -- Resizing any address space to a valid region is a fault.
  pub resize_faults :
      (sp : Space) (alloc alloc' : Option ℕ) (addr len freelist fuel : ℕ)
      → valid_user_region (page_rounddown addr) (page_roundup ((addr + len) % 2 ^ 64)) ≡ true
      → resize unmap_range fuel alloc alloc' freelist addr len sp ≡ fault
  unfolding resize resize_locked with_lock
  resize_faults sp alloc alloc' addr len freelist fuel region =
      let start = page_rounddown addr in
      let end = page_roundup ((addr + len) % 2 ^ 64) in
      elim (Bool-cases sp.locked) [
        | inl k ↦ rw k refl
        | inr k ↦
            rw (k, region)
              (bind_fault _ (
                bind_fault _ (
                  unmap_locked (record sp { locked = true }) alloc start (end - start) freelist fuel
                    refl
                    (rw
                      (
                        same_end start end region,
                        rounddown_twice addr,
                        roundup_twice ((addr + len) % 2 ^ 64),
                      )
                      region))))
      ]
