-- ===== src/AddressSpace/Tests.antt =====
-- Address spaces on concrete segments: tests, and the theorems at inputs that meet their
-- hypotheses.
use project_dionysus.Base.{
  ℕ, ◌≡◌, refl, true, false, none, some, inl, inr, [], ◌∷◌, ok, fault, arith, ◌==◌, if◌then◌else◌,
  value,
}
use project_dionysus.IntrusiveList.{update, Links}
use project_dionysus.AddressSpace.{
  Space, Segment, find_vma_locked, insert_vma_locked, map, unmap, rounddown, roundup,
  page_rounddown, page_roundup, valid_user_region, resize_segment,
}
use project_dionysus.AddressSpace.Search.{IsSpace, find_vma_locked-lookup, lookup}
use project_dionysus.AddressSpace.Insert.{insert_vma_locked-inserted}
use project_dionysus.AddressSpace.Map.{map-inserted}
use project_dionysus.AddressSpace.Unmap.{unmap_faults}

-- The head 1 with the links 2 and 3.
abbrev two_links : Links
two_links = record {
  next = λ p. if p == 1 then 2 else (if p == 2 then 3 else (if p == 3 then 1 else p));
  prev = λ p. if p == 1 then 3 else (if p == 2 then 1 else (if p == 3 then 2 else p));
  parent = λ p. if p == 1 then none else (if p == 7 then none else some p);
}

abbrev segment : ℕ → ℕ → Segment
segment start end = record { start = start; end = end; flags = 3; owned = true }

-- Segment 2 is the second page, 3 the sixth and seventh, and 4, not in the list, the fourth.
abbrev two : Space
two = record {
  segments = record { head = 1; size = 2 };
  links = two_links;
  segment = λ p.
      if p == 2
      then segment 0x1000 0x2000
      else (if p == 3 then segment 0x5000 0x7000 else segment 0x3000 0x4000);
  search_cache = some 3;
  locked = false;
}

two-IsSpace : IsSpace two (2 ∷ 3 ∷ [])
two-IsSpace = record {
  ring = record {
    chain = (refl, refl, (refl, refl, (refl, refl)));
    distinct = (refl, (refl, (refl, tt)));
    nonzero = refl;
    count = refl;
  };
  own = (refl, (refl, tt));
  bare = refl;
  ordered = (omega arith, (omega arith, tt), (omega arith, tt, tt));
}

resize_segment_test :
    resize_segment 0x5000 0x6000 (segment 0x5000 0x7000) ≡ value (segment 0x5000 0x6000)
unfolding resize_segment
resize_segment_test = refl

find_vma_locked-lookup_example :
    find_vma_locked 3 0x1234 two ≡ ok (some 2, record two { search_cache = some 2 })
unfolding lookup
find_vma_locked-lookup_example =
    find_vma_locked-lookup two (2 ∷ 3 ∷ []) 0x1234 3 two-IsSpace refl (omega arith)

insert_vma_locked-inserted_example :
    (sp' : Space) × (insert_vma_locked 3 4 two ≡ ok sp')
    × IsSpace sp' (2 ∷ 4 ∷ 3 ∷ [])
    × (sp'.search_cache ≡ some 3)
    × ((sp'.segment 4).owned ≡ true)
    × (sp'.segment ≡ update two.segment 4 (record (two.segment 4) { owned = true }))
insert_vma_locked-inserted_example =
    insert_vma_locked-inserted two 2 (3 ∷ []) 4 3 two-IsSpace (omega arith)
      (inl (omega arith), (inr (omega arith), tt)) (omega arith) refl refl (omega arith)

map-inserted_example :
    (sp' : Space) × (map 3 (some 4) 0x3010 0x20 19 two ≡ ok (value 4, sp'))
    × IsSpace sp' (2 ∷ 4 ∷ 3 ∷ [])
    × (sp'.segment
        ≡ update two.segment 4 record { start = 0x3000; end = 0x4000; flags = 3; owned = true })
    × (sp'.locked ≡ false)
unfolding rounddown roundup valid_user_region
map-inserted_example =
    map-inserted two 2 (3 ∷ []) 4 0x3010 0x20 19 3 two-IsSpace refl (omega arith) refl refl
      (inl (omega arith), (inr (omega arith), tt)) (omega arith) refl refl

unmap_faults_example : unmap (λ _ _. ok tt) 3 none 7 0x1000 0x1000 two ≡ fault
unfolding page_rounddown page_roundup valid_user_region
unmap_faults_example =
    unmap_faults (λ _ _. ok tt) two (2 ∷ 3 ∷ []) none 0x1000 0x1000 7 2 3 two-IsSpace refl
      (omega arith) refl refl refl refl refl refl refl
