-- ===== src/AddressSpace/Order.antt =====
-- The order of the segments when one is put in or written.
use project_dionysus.Base.{
  ℕ, ◌≤◌, ◌<◌, ◌≡◌, refl, true, List, [], ◌∷◌, inl, inr, arith, ◌==◌, same, Bool-cases, All, ltb,
}
use project_dionysus.IntrusiveList.{update}
use project_dionysus.AddressSpace.{Segment}
use project_dionysus.AddressSpace.Search.{Ordered}
use project_dionysus.AddressSpace.Place.{inserted, Apart}

pub All-inserted {κ} :
    (P : ℕ → Type κ) (seg : ℕ → Segment) (vma : ℕ) (xs : List ℕ)
    → P vma
    → All P xs
    → All P (inserted seg vma xs)
All-inserted P seg vma [] v a = (v, tt)
All-inserted P seg vma (x ∷ xs) v a = elim (Bool-cases (ltb (seg vma).start (seg x).start)) [
  | inl k ↦ rw k (v, a)
  | inr k ↦ rw k (a.0, All-inserted P seg vma xs v a.1)
]

All-behind :
    (seg : ℕ → Segment) (p q : ℕ) (xs : List ℕ)
    → p ≤ q
    → All (λ y. q ≤ (seg y).start) xs
    → All (λ y. p ≤ (seg y).start) xs
All-behind seg p q [] h a = tt
All-behind seg p q (x ∷ xs) h a = (omega (arith, a.0), All-behind seg p q xs h a.1)

pub Ordered-inserted :
    (seg : ℕ → Segment) (vma : ℕ) (xs : List ℕ)
    → (seg vma).start < (seg vma).end
    → Ordered seg xs
    → All (Apart seg vma) xs
    → Ordered seg (inserted seg vma xs)
Ordered-inserted seg vma [] n o apart = (n, tt, tt)
Ordered-inserted seg vma (x ∷ xs) n o apart =
    elim (Bool-cases (ltb (seg vma).start (seg x).start)) [
      | inl k ↦
          let ahead : (seg vma).end ≤ (seg x).start = ground (arith, apart.0, o.0) in
          rw k (
            n,
            (ahead, All-behind seg (seg vma).end (seg x).end xs (omega (arith, ahead, o.0)) o.1),
            o,
          )
      | inr k ↦ rw k (
        o.0,
        All-inserted (λ y. (seg x).end ≤ (seg y).start) seg vma xs (ground (arith, apart.0)) o.1,
        Ordered-inserted seg vma xs n o.2 apart.1,
      )
    ]

All-pointwise :
    (seg seg' : ℕ → Segment) (e : ℕ) (xs : List ℕ)
    → ((y : ℕ) → ((seg' y).start ≡ (seg y).start) × ((seg' y).end ≡ (seg y).end))
    → All (λ y. e ≤ (seg y).start) xs
    → All (λ y. e ≤ (seg' y).start) xs
All-pointwise seg seg' e [] eq a = tt
All-pointwise seg seg' e (x ∷ xs) eq a =
    (omega (arith, (eq x).0, a.0), All-pointwise seg seg' e xs eq a.1)

Ordered-pointwise :
    (seg seg' : ℕ → Segment) (xs : List ℕ)
    → ((y : ℕ) → ((seg' y).start ≡ (seg y).start) × ((seg' y).end ≡ (seg y).end))
    → Ordered seg xs
    → Ordered seg' xs
Ordered-pointwise seg seg' [] eq o = tt
Ordered-pointwise seg seg' (x ∷ xs) eq o = (
  omega (arith, (eq x).0, (eq x).1, o.0),
  rw ((eq x).1) (All-pointwise seg seg' (seg x).end xs eq o.1),
  Ordered-pointwise seg seg' xs eq o.2,
)

-- Only who owns a segment is written.
pub Ordered-owned :
    (seg : ℕ → Segment) (vma : ℕ) (xs : List ℕ)
    → Ordered seg xs
    → Ordered (update seg vma (record (seg vma) { owned = true })) xs
Ordered-owned seg vma xs o =
    Ordered-pointwise seg (update seg vma (record (seg vma) { owned = true })) xs (kept seg vma) o
  where
    kept :
        (seg : ℕ → Segment) (vma y : ℕ)
        → ((update seg vma (record (seg vma) { owned = true }) y).start ≡ (seg y).start)
          × ((update seg vma (record (seg vma) { owned = true }) y).end ≡ (seg y).end)
    kept seg vma y = elim (Bool-cases (vma == y)) [
      | inl k ↦ rw (k, same vma y k) (refl, refl)
      | inr k ↦ rw k (refl, refl)
    ]
