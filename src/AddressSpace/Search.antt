-- ===== src/AddressSpace/Search.antt =====
-- The search for the segment of an address: with and without the cache.
use project_dionysus.Base.{
  ℕ, zero, suc, ◌≤◌, ◌<◌, ◌≡◌, refl, sym, ap, ◌∙◌, Bool, true, false, List, [], ◌∷◌, ◌⊎◌, inl, inr,
  arith, ◌==◌, if◌then◌else◌, Bool-cases, Option-cases, same, All-has, has, All, subst, length, ok,
  Option, none, some, ==_refl,
}
use project_dionysus.IntrusiveList.Ring.{Chain}
use project_dionysus.IntrusiveList.Steps.{IsRing}
use project_dionysus.AddressSpace.{Space, Segment, covers, cached, scan, find_vma_locked}

-- The segments are not empty, and each ends before the next ones start.
abbrev pub Ordered : (ℕ → Segment) → List ℕ → Type 0
Ordered seg [] = Unit
Ordered seg (x ∷ xs) =
    ((seg x).start < (seg x).end) × All (λ y. (seg x).end ≤ (seg y).start) xs × Ordered seg xs

-- The space holds the segments `ss`, in this order.
pub record IsSpace (sp : Space) (ss : List ℕ) : Type 0 where
  pub ring : IsRing sp.segments sp.links ss
  pub own : All (λ x. sp.links.parent x ≡ some x) ss
  pub bare : sp.links.parent sp.segments.head ≡ none
  pub ordered : Ordered sp.segment ss

-- The cache holds no segment but one of the list.
abbrev pub IsCached : Option ℕ → List ℕ → Type 0
IsCached none ss = Unit
IsCached (some c) ss = has c ss ≡ true

-- The segment of an address, looked for in the list alone.
unfoldable pub lookup : ℕ → (ℕ → Segment) → List ℕ → Option ℕ
lookup addr seg [] = none
lookup addr seg (x ∷ xs) =
    let rest = lookup addr seg xs in if covers addr (seg x) then some x else rest

passed : (addr : ℕ) (s t : Segment) → s.end ≤ t.start → covers addr t ≡ true → covers addr s ≡ false
passed addr s t h k = ground arith

pub lookup_member :
    (addr : ℕ) (seg : ℕ → Segment) (ss : List ℕ) (c : ℕ)
    → Ordered seg ss
    → has c ss ≡ true
    → covers addr (seg c) ≡ true
    → lookup addr seg ss ≡ some c
unfolding lookup
lookup_member addr seg [] c d h k = absurd (ground arith)
lookup_member addr seg (x ∷ xs) c d h k = elim (Bool-cases (c == x)) [
  | inl e ↦ subst (λ i. lookup addr seg (i ∷ xs) ≡ some c) (same c x e) (rw k refl)
  | inr e ↦
      let inside : has c xs ≡ true = ground arith in
      let after = All-has (λ y. (seg x).end ≤ (seg y).start) xs c d.1 inside in
      rw (passed addr (seg x) (seg c) after k) (lookup_member addr seg xs c d.2 inside k)
]

pub lookup-has : (addr : ℕ) (seg : ℕ → Segment) (ss : List ℕ) → IsCached (lookup addr seg ss) ss
unfolding lookup
lookup-has addr seg [] = tt
lookup-has addr seg (x ∷ xs) = elim (Bool-cases (covers addr (seg x))) [
  | inl k ↦ rw k (ground arith)
  | inr k ↦ rw k (IsCached-cons (lookup addr seg xs) x xs (lookup-has addr seg xs))
]
  where
    IsCached-cons : (c : Option ℕ) (x : ℕ) (xs : List ℕ) → IsCached c xs → IsCached c (x ∷ xs)
    IsCached-cons none x xs h = tt
    IsCached-cons (some c) x xs h = ground arith

scan-lookup :
    (sp : Space) (addr a : ℕ) (xs : List ℕ) (fuel : ℕ)
    → Chain sp.links a xs sp.segments.head
    → has sp.segments.head xs ≡ false
    → has 0 xs ≡ false
    → All (λ x. sp.links.parent x ≡ some x) xs
    → length xs < fuel
    → scan fuel addr (sp.links.next a) sp ≡ ok (lookup addr sp.segment xs)
unfolding scan lookup
scan-lookup sp addr a xs zero c d z own h = absurd (omega arith)
scan-lookup sp addr a [] (suc fuel) c d z own h = rw (c.0, ==_refl sp.segments.head) refl
scan-lookup sp addr a (x ∷ xs) (suc fuel) (e, f, c) d z own h =
    let ahead : (x == sp.segments.head) ≡ false = ground arith in
    let there : (x == 0) ≡ false = ground arith in
    elim (Bool-cases (covers addr (sp.segment x))) [
      | inl k ↦ rw (e, ahead, there, own.0, k) refl
      | inr k ↦
          rw (e, ahead, there, own.0, k)
            (scan-lookup sp addr x xs fuel c (ground arith) (ground arith) own.1 (omega arith))
    ]

cached-cases :
    (addr : ℕ) (sp : Space)
    → (cached addr sp ≡ false)
      ⊎ ((c : ℕ) × (sp.search_cache ≡ some c)
          × (cached addr sp ≡ true)
          × (covers addr (sp.segment c) ≡ true))
unfolding cached
cached-cases addr sp = elim (Option-cases sp.search_cache) [
  | inl k ↦ inl (ap missed k)
  | inr (c, k) ↦ elim (Bool-cases (covers addr (sp.segment c))) [
    | inl m ↦ inr (c, k, ap missed k ∙ m, m)
    | inr m ↦ inl (ap missed k ∙ m)
  ]
]
  where
    missed : Option ℕ → Bool
    missed o = elim o [ none ↦ false | some c ↦ covers addr (sp.segment c) ]

-- In a well-formed address space whose cache holds no segment but one of the list, the search
-- with the cache finds the segment that a plain search of the list finds, and caches it; when
-- there is none, nothing changes.
pub find_vma_locked-lookup :
    (sp : Space) (ss : List ℕ) (addr fuel : ℕ)
    → IsSpace sp ss
    → IsCached sp.search_cache ss
    → length ss < fuel
    → find_vma_locked fuel addr sp
      ≡ ok (
        lookup addr sp.segment ss,
        elim (lookup addr sp.segment ss) [
          | none ↦ sp
          | some vma ↦ record sp { search_cache = some vma }
        ],
      )
unfolding find_vma_locked
find_vma_locked-lookup sp ss addr fuel space valid h = elim (cached-cases addr sp) [
  | inl k ↦ rw (k, scanned) refl
  | inr (c, k, m, n) ↦ rw m (
      ap
        (λ o. ok (
          o,
          elim o as (λ _. Space) [ none ↦ sp | some vma ↦ record sp { search_cache = some vma } ],
        ))
        (k
          ∙ sym (
              lookup_member addr sp.segment ss c space.ordered (subst (λ o. IsCached o ss) k valid)
                n)))
]
  where
    scanned : scan fuel addr (sp.links.next sp.segments.head) sp ≡ ok (lookup addr sp.segment ss)
    scanned =
        scan-lookup sp addr sp.segments.head ss fuel space.ring.chain space.ring.distinct.0
          (ground (arith, space.ring.nonzero)) space.own h

-- The search under the lock.
pub found_locked :
    (sp : Space) (ss : List ℕ) (addr c fuel : ℕ)
    → IsSpace sp ss
    → IsCached sp.search_cache ss
    → length ss < fuel
    → has c ss ≡ true
    → covers addr (sp.segment c) ≡ true
    → find_vma_locked fuel addr (record sp { locked = true })
      ≡ ok (some c, record sp { locked = true; search_cache = some c })
found_locked sp ss addr c fuel space valid h inside k =
    find_vma_locked-lookup (record sp { locked = true }) ss addr fuel
      (record { ring = space.ring; own = space.own; bare = space.bare; ordered = space.ordered })
      valid h
    ∙ rw (lookup_member addr sp.segment ss c space.ordered inside k) refl
