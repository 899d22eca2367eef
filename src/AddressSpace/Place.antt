-- ===== src/AddressSpace/Place.antt =====
-- Where insert_vma_locked finds the place of a segment, and that the checks there pass.
use project_dionysus.Base.{
  ℕ, zero, suc, ◌≤◌, ◌<◌, ◌≡◌, refl, sym, ap, true, false, ◌⊎◌, List, [], ◌∷◌, inl, inr, arith,
  ◌==◌, if◌then◌else◌, Bool-cases, lt→ltb, le→leb, has, All, subst, length, ok, none, some, ==_refl,
  ltb, Distinct,
}
use project_dionysus.IntrusiveList.Ring.{Chain, put_behind, elsewhere}
use project_dionysus.AddressSpace.{Space, Segment, find_prev, assert_segment_overlap}
use project_dionysus.AddressSpace.Search.{Ordered}

-- The list with the segment `vma` put before the first one that starts behind it.
abbrev pub inserted : (ℕ → Segment) → ℕ → List ℕ → List ℕ
inserted seg vma [] = vma ∷ []
inserted seg vma (x ∷ xs) =
    if ltb (seg vma).start (seg x).start then vma ∷ x ∷ xs else x ∷ inserted seg vma xs

-- Two segments have no address in common.
abbrev pub Apart : (ℕ → Segment) → ℕ → ℕ → Type 0
Apart seg v x = ((seg x).end ≤ (seg v).start) ⊎ ((seg v).end ≤ (seg x).start)

-- The last segment from `a` on that does not start behind `start`.
unfoldable pub before : (ℕ → Segment) → ℕ → ℕ → List ℕ → ℕ
before seg start a [] = a
before seg start a (y ∷ ys) = if ltb start (seg y).start then a else before seg start y ys

before_here :
    (seg : ℕ → Segment) (start a y : ℕ) (ys : List ℕ)
    → ltb start (seg y).start ≡ true
    → before seg start a (y ∷ ys) ≡ a
unfolding before
before_here seg start a y ys k = rw k refl

before_on :
    (seg : ℕ → Segment) (start a y : ℕ) (ys : List ℕ)
    → ltb start (seg y).start ≡ false
    → before seg start a (y ∷ ys) ≡ before seg start y ys
unfolding before
before_on seg start a y ys k = rw k refl

pub has-before :
    (seg : ℕ → Segment) (start a : ℕ) (xs : List ℕ) → has (before seg start a xs) (a ∷ xs) ≡ true
unfolding before
has-before seg start a [] = ground arith
has-before seg start a (y ∷ ys) = elim (Bool-cases (ltb start (seg y).start)) [
  | inl k ↦
      subst (λ p. has p (a ∷ y ∷ ys) ≡ true) (sym (before_here seg start a y ys k)) (ground arith)
  | inr k ↦
      subst (λ p. has p (a ∷ y ∷ ys) ≡ true) (sym (before_on seg start a y ys k))
        (ground (arith, has-before seg start y ys))
]

pub put_behind-before :
    (seg : ℕ → Segment) (vma a : ℕ) (xs : List ℕ)
    → Distinct (a ∷ xs)
    → put_behind (before seg (seg vma).start a xs) vma a xs ≡ inserted seg vma xs
unfolding before
put_behind-before seg vma a [] d = rw (==_refl a) refl
put_behind-before seg vma a (y ∷ ys) d = elim (Bool-cases (ltb (seg vma).start (seg y).start)) [
  | inl k ↦ rw (before_here seg (seg vma).start a y ys k, k, ==_refl a) refl
  | inr k ↦
      let p = before seg (seg vma).start y ys in
      subst (λ i. put_behind i vma a (y ∷ ys) ≡ inserted seg vma (y ∷ ys))
        (sym (before_on seg (seg vma).start a y ys k))
        (rw (k, elsewhere p a (y ∷ ys) (has-before seg (seg vma).start y ys) d.0)
          (ap (λ zs. y ∷ zs) (put_behind-before seg vma y ys d.1)))
]

pub find_prev-before :
    (sp : Space) (start a : ℕ) (xs : List ℕ) (fuel : ℕ)
    → Chain sp.links a xs sp.segments.head
    → has sp.segments.head xs ≡ false
    → has 0 xs ≡ false
    → All (λ x. sp.links.parent x ≡ some x) xs
    → length xs < fuel
    → find_prev fuel start (some a) (sp.links.next a) sp ≡ ok (some (before sp.segment start a xs))
unfolding find_prev before
find_prev-before sp start a xs zero c d z own h = absurd (omega arith)
find_prev-before sp start a [] (suc fuel) c d z own h = rw (c.0, ==_refl sp.segments.head) refl
find_prev-before sp start a (x ∷ xs) (suc fuel) (e, f, c) d z own h =
    let ahead : (x == sp.segments.head) ≡ false = ground arith in
    let there : (x == 0) ≡ false = ground arith in
    elim (Bool-cases (ltb start (sp.segment x).start)) [
      | inl k ↦ rw (before_here sp.segment start a x xs k, e, ahead, there, own.0, k) refl
      | inr k ↦
          rw (before_on sp.segment start a x xs k, e, ahead, there, own.0, k)
            (find_prev-before sp start x xs fuel c (ground arith) (ground arith) own.1
              (omega arith))
    ]

overlap_none :
    (sp : Space) (p n : ℕ)
    → (sp.segment p).start < (sp.segment p).end
    → (sp.segment p).end ≤ (sp.segment n).start
    → (sp.segment n).start < (sp.segment n).end
    → assert_segment_overlap (some p) (some n) sp ≡ ok tt
unfolding assert_segment_overlap
overlap_none sp p n a b c = rw (lt→ltb _ _ a, le→leb _ _ b, lt→ltb _ _ c) refl

behind_first :
    (sp : Space) (vma a : ℕ)
    → (sp.segment vma).start < (sp.segment vma).end
    → (sp.segment a).start ≤ (sp.segment vma).start
    → (sp.segment a).start < (sp.segment a).end
    → Apart sp.segment vma a
    → assert_segment_overlap (some a) (some vma) sp ≡ ok tt
behind_first sp vma a n le o apart = overlap_none sp a vma o (ground arith) n

pub fits_behind :
    (sp : Space) (vma a : ℕ) (xs : List ℕ)
    → (sp.segment vma).start < (sp.segment vma).end
    → (sp.segment a).start ≤ (sp.segment vma).start
    → Ordered sp.segment (a ∷ xs)
    → All (Apart sp.segment vma) (a ∷ xs)
    → assert_segment_overlap (some (before sp.segment (sp.segment vma).start a xs)) (some vma) sp
      ≡ ok tt
unfolding before
fits_behind sp vma a [] n le o apart = behind_first sp vma a n le o.0 apart.0
fits_behind sp vma a (y ∷ ys) n le o apart =
    elim (Bool-cases (ltb (sp.segment vma).start (sp.segment y).start)) [
      | inl k ↦
          rw (before_here sp.segment (sp.segment vma).start a y ys k)
            (behind_first sp vma a n le o.0 apart.0)
      | inr k ↦
          rw (before_on sp.segment (sp.segment vma).start a y ys k)
            (fits_behind sp vma y ys n (ground arith) o.2 apart.1)
    ]

pub fits_ahead :
    (sp : Space) (vma a : ℕ) (xs : List ℕ)
    → Chain sp.links a xs sp.segments.head
    → All (λ x. sp.links.parent x ≡ some x) xs
    → sp.links.parent sp.segments.head ≡ none
    → (sp.segment vma).start < (sp.segment vma).end
    → Ordered sp.segment (a ∷ xs)
    → All (Apart sp.segment vma) (a ∷ xs)
    → assert_segment_overlap
        (some vma)
        (sp.links.parent (sp.links.next (before sp.segment (sp.segment vma).start a xs)))
        sp
      ≡ ok tt
unfolding before assert_segment_overlap
fits_ahead sp vma a [] c own bare n o apart = rw (c.0, bare) refl
fits_ahead sp vma a (y ∷ ys) (e, f, c) own bare n o apart =
    elim (Bool-cases (ltb (sp.segment vma).start (sp.segment y).start)) [
      | inl k ↦
          rw (before_here sp.segment (sp.segment vma).start a y ys k, e, own.0)
            (overlap_none sp vma y n (ground (arith, apart.1.0)) o.2.0)
      | inr k ↦
          rw (before_on sp.segment (sp.segment vma).start a y ys k)
            (fits_ahead sp vma y ys c own.1 bare n o.2 apart.1)
    ]
