-- ===== src/AddressSpace/Insert.antt =====
-- Putting a segment into the list keeps the space well formed.
use project_dionysus.Base.{
  ℕ, zero, suc, ◌+◌, ◌≤◌, ◌<◌, ◌≡◌, refl, ap, true, false, List, ◌∷◌, arith, bind_ok, has, All,
  subst, length, ok, none, some, ==_refl, ==-ne, ltb,
}
use project_dionysus.IntrusiveList.{increase, update}
use project_dionysus.IntrusiveList.Ring.{put_behind, elsewhere, added}
use project_dionysus.IntrusiveList.Steps.{IsRing, add-IsRing, next_nonzero}
use project_dionysus.IntrusiveList.Ends.{insert-added, list_empty-cons}
use project_dionysus.AddressSpace.{Space, find_prev, insert_vma_locked}
use project_dionysus.AddressSpace.Search.{IsSpace}
use project_dionysus.AddressSpace.Place.{
  inserted, Apart, before, has-before, put_behind-before, find_prev-before, fits_behind, fits_ahead,
}
use project_dionysus.AddressSpace.Order.{All-inserted, Ordered-inserted, Ordered-owned}

not_before : (start other : ℕ) → other ≤ start → ltb start other ≡ false
not_before start other h = ground arith

found_prev :
    (sp : Space) (x : ℕ) (xs : List ℕ) (vma fuel : ℕ)
    → IsSpace sp (x ∷ xs)
    → (sp.segment x).start ≤ (sp.segment vma).start
    → length xs + 2 ≤ fuel
    → find_prev fuel (sp.segment vma).start none (sp.links.next sp.segments.head) sp
      ≡ ok (some (before sp.segment (sp.segment vma).start x xs))
unfolding find_prev
found_prev sp x xs vma zero space le h = absurd (omega arith)
found_prev sp x xs vma (suc fuel) space le h =
    rw
      (
        space.ring.chain.0,
        ==-ne x sp.segments.head (ground (arith, space.ring.distinct)),
        ==-ne x 0 (ground (arith, space.ring.nonzero)),
        space.own.0,
        not_before (sp.segment vma).start (sp.segment x).start le,
      )
      (find_prev-before sp (sp.segment vma).start x xs fuel space.ring.chain.2
        (ground (arith, space.ring.distinct)) (ground (arith, space.ring.nonzero)) space.own.1
        (omega arith))

place_found :
    (sp : Space) (x : ℕ) (xs : List ℕ) (vma : ℕ)
    → IsSpace sp (x ∷ xs)
    → (sp.segment x).start ≤ (sp.segment vma).start
    → put_behind (before sp.segment (sp.segment vma).start x xs) vma sp.segments.head (x ∷ xs)
      ≡ inserted sp.segment vma (x ∷ xs)
place_found sp x xs vma space le =
    rw
      (
        elsewhere (before sp.segment (sp.segment vma).start x xs) sp.segments.head (x ∷ xs)
            (has-before sp.segment (sp.segment vma).start x xs) space.ring.distinct.0,
        not_before (sp.segment vma).start (sp.segment x).start le,
      )
      (ap (λ zs. x ∷ zs) (put_behind-before sp.segment vma x xs space.ring.distinct.1))

-- Inserting a segment that is not empty and meets no other one into a well-formed address space
-- whose first segment does not start behind it succeeds, puts the segment at its place in the
-- order, makes it owned, changes no other segment, and leaves the address space well formed.
pub insert_vma_locked-inserted :
    (sp : Space) (x : ℕ) (xs : List ℕ) (vma fuel : ℕ)
    → IsSpace sp (x ∷ xs)
    → (sp.segment vma).start < (sp.segment vma).end
    → All (Apart sp.segment vma) (x ∷ xs)
    → (sp.segment x).start ≤ (sp.segment vma).start
    → has vma (0 ∷ sp.segments.head ∷ x ∷ xs) ≡ false
    → sp.links.parent vma ≡ some vma
    → length xs + 2 ≤ fuel
    → (sp' : Space) × (insert_vma_locked fuel vma sp ≡ ok sp')
      × IsSpace sp' (inserted sp.segment vma (x ∷ xs))
      × (sp'.search_cache ≡ sp.search_cache)
      × ((sp'.segment vma).owned ≡ true)
      × (sp'.segment ≡ update sp.segment vma (record (sp.segment vma) { owned = true }))
unfolding insert_vma_locked
insert_vma_locked-inserted sp x xs vma fuel space n apart le u own h =
    let p = before sp.segment (sp.segment vma).start x xs in
    let ss = x ∷ xs in
    let member = has-before sp.segment (sp.segment vma).start x xs in
    let inside : has p (sp.segments.head ∷ ss) ≡ true = ground (arith, member) in
    let (done, ring) =
      add-IsRing sp.segments sp.links ss space.ring p vma inside (ground arith) (ground arith) in
    (
      record sp {
        segments = increase sp.segments;
        links = added vma p (sp.links.next p) sp.links;
        segment = update sp.segment vma (record (sp.segment vma) { owned = true });
      },
      rw (list_empty-cons sp.segments sp.links x xs space.ring) (
          bind_ok _ (found_prev sp x xs vma fuel space le h) (
            rw
              (
                next_nonzero sp.segments sp.links ss space.ring p inside,
                fits_behind sp vma x xs n le space.ordered apart,
                fits_ahead sp vma x xs space.ring.chain.2 space.own.1 space.bare n space.ordered
                    apart,
                insert-added sp.segments sp.links ss space.ring p vma inside done,
              )
              refl)),
      record {
        ring =
            subst (IsRing (increase sp.segments) (added vma p (sp.links.next p) sp.links))
              (place_found sp x xs vma space le) ring;
        own = All-inserted (λ y. sp.links.parent y ≡ some y) sp.segment vma ss own space.own;
        bare = space.bare;
        ordered =
            Ordered-owned sp.segment vma (inserted sp.segment vma ss)
              (Ordered-inserted sp.segment vma ss n space.ordered apart);
      },
      refl,
      rw (==_refl vma) refl,
      refl,
    )
