-- ===== src/Buddy/Count.antt =====
-- Allocating a block takes its pages off the count of free pages.
use project_dionysus.Base.{
  ℕ, zero, suc, ◌+◌, ◌-◌, ◌*◌, ◌^◌, ◌≤◌, ◌<◌, ◌≡◌, refl, ◌∙◌, ap, sym, subst, true, not, none, some,
  ok, List, [], ◌∷◌, arith, le→leb, ◌≢◌, ◌⊎◌, first_index, first_index-some, Option-cases, inl, inr,
  length,
}
use native.Mathlib.Nat.{pow-suc}
use project_dionysus.Buddy.{
  Provider, update, decrease, push_block, split_block, take_block, do_allocate, total, free_count,
  is_empty,
}

total_same : (n : ℕ) (f g : ℕ → ℕ) → ((j : ℕ) → j < n → g j ≡ f j) → total n g ≡ total n f
unfolding total
total_same zero f g h = refl
total_same (suc n) f g h =
    let rest = total_same n f g (λ j lt. h j (omega arith)) in
    let last : g n * 2 ^ n ≡ f n * 2 ^ n = ap (λ x. x * 2 ^ n) (h n (omega arith)) in
    omega (arith, rest, last)

-- One block more of order `o`.
total_step :
    (n o : ℕ) (f g : ℕ → ℕ)
    → ((j : ℕ) → o ≢ j → g j ≡ f j)
    → g o ≡ f o + 1
    → o < n
    → total n g ≡ total n f + 2 ^ o
unfolding total
total_step zero o f g same more lt = absurd (omega arith)
total_step (suc n) o f g same more lt = elim (nat_cases o n) [
  | inl e ↦
      let rest = total_same n f g (λ j below. same j (λ p. omega arith)) in
      let grown : g n ≡ f n + 1 = subst (λ x. g x ≡ f x + 1) e more in
      let last : g n * 2 ^ n ≡ f n * 2 ^ n + 2 ^ n = ap (λ x. x * 2 ^ n) grown ∙ omega arith in
      let power : 2 ^ n ≡ 2 ^ o = ap (λ x. 2 ^ x) (sym e) in omega (arith, rest, last, power)
  | inr d ↦
      let rest = total_step n o f g same more (omega (arith, d)) in
      let last : g n * 2 ^ n ≡ f n * 2 ^ n = ap (λ x. x * 2 ^ n) (same n d) in
      omega (arith, rest, last)
]
  where
    nat_cases : (x y : ℕ) → (x ≡ y) ⊎ (x ≢ y)
    nat_cases x y = omega arith

-- Halving a block keeps the pages: what is pushed and what is left make up the block.
split_block-count :
    (n order pg : ℕ) (s : Provider)
    → ((j : ℕ) → j < order + n → s.free_area_count j < 2 ^ 63)
    → order + n ≤ 12
    → total 13 (split_block n order pg s).free_area_count + 2 ^ order
      ≡ total 13 s.free_area_count + 2 ^ (order + n)
unfolding split_block push_block
split_block-count zero order pg s h le = ap (λ x. total 13 s.free_area_count + 2 ^ x) (omega arith)
split_block-count (suc n) order pg s h le =
    let o = order + n in
    let s1 = push_block (pg + 2 ^ o) o s in
    let small = h o (omega arith) in
    let rest =
      split_block-count n order pg s1 (λ j lt. ground (arith, h j (omega arith))) (omega arith) in
    let same : (j : ℕ) → o ≢ j → s1.free_area_count j ≡ s.free_area_count j =
      λ j d. ground (arith, d) in
    let more : s1.free_area_count o ≡ s.free_area_count o + 1 = ground (arith, small) in
    let step = total_step 13 o s.free_area_count s1.free_area_count same more (omega arith) in
    let power : 2 ^ (order + suc n) ≡ 2 ^ o * 2 = ap (λ x. 2 ^ x) (omega arith) ∙ pow-suc 2 o in
    omega (arith, rest, step, power)

-- The free areas count their blocks, and no count is near the end of its 64 bits.
pub record IsCounted (s : Provider) : Type 0 where
  pub counts : (o : ℕ) → s.free_area_count o ≡ length (s.freelist o)
  pub small : (o : ℕ) → s.free_area_count o < 2 ^ 63

take_block-count :
    (order d pg : ℕ) (rest : List ℕ) (s : Provider)
    → IsCounted s
    → s.freelist (order + d) ≡ pg ∷ rest
    → order + d ≤ 12
    → total 13 s.free_area_count
      ≡ total 13 (take_block order (order + d) pg rest s).1.free_area_count + 2 ^ order
unfolding take_block
take_block-count order d pg rest s v e le =
    let cur = order + d in
    let s1 = record s {
      free_area_count = update s.free_area_count cur (decrease (s.free_area_count cur));
      freelist = update s.freelist cur rest;
    } in
    let there : s.free_area_count cur ≡ suc (length rest) = v.counts cur ∙ ap length e in
    let small = v.small cur in
    let less : s.free_area_count cur ≡ s1.free_area_count cur + 1 = ground (arith, there, small) in
    let step =
      total_step 13 cur s1.free_area_count s.free_area_count (λ j n. ground (arith, n)) less
        (omega arith) in
    let d' : cur - order ≡ d = omega arith in
    let split = split_block-count d order pg s1 (λ j lt. ground (arith, v.small j)) le in
    let back : total 13 (split_block (cur - order) order pg s1).free_area_count
        ≡ total 13 (split_block d order pg s1).free_area_count =
      ap (λ x. total 13 (split_block x order pg s1).free_area_count) d' in
    omega (arith, step, split, back)

split_list :
    (xs : List ℕ) → not (is_empty xs) ≡ true → (pg : ℕ) × (rest : List ℕ) × (xs ≡ pg ∷ rest)
split_list [] h = absurd (ground arith)
split_list (x ∷ xs) h = (x, xs, refl)

-- When the free areas count their blocks and no count is near its end, allocating a block of an
-- order up to 12 either finds no block of that order or above, and changes nothing, or returns
-- a page and takes exactly the pages of the block off the count of free pages.
pub do_allocate-free_count :
    (order : ℕ) (s : Provider)
    → IsCounted s
    → order ≤ 12
    → ((do_allocate order s ≡ ok (none, s))
        × (first_index (13 - order) order (λ o. not (is_empty (s.freelist o))) ≡ none))
      ⊎ ((p : ℕ) × (s' : Provider) × (do_allocate order s ≡ ok (some p, s'))
          × (free_count s ≡ free_count s' + 2 ^ order))
unfolding do_allocate free_count take_block
do_allocate-free_count order s v le =
    elim (Option-cases (first_index (13 - order) order (λ o. not (is_empty (s.freelist o))))) [
      | inl e ↦ inl (rw (le→leb order 12 le, e) refl, e)
      | inr (cur, e) ↦
          let (low, high, found) = first_index-some (13 - order) order _ cur e in
          let (pg, rest, list) = split_list (s.freelist cur) found in
          let same : order + (cur - order) ≡ cur = omega arith in
          let count =
            take_block-count order (cur - order) pg rest s v (ap s.freelist same ∙ list)
              (omega arith) in
          let moved = ap (λ c. total 13 (take_block order c pg rest s).1.free_area_count) same in
          inr (
            pg,
            (take_block order cur pg rest s).1,
            rw (le→leb order 12 le, e, list) refl,
            omega (arith, count, moved),
          )
    ]
