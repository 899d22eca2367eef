-- ===== src/IntrusiveList/Steps.antt =====
-- What adding and removing a link of a well-formed list do: the list stays well formed and holds
-- the sequence with the link put in or taken out.
use project_dionysus.Base.{
  ℕ, suc, ◌^◌, ◌%◌, ◌≡◌, refl, true, false, ◌||◌, List, [], ◌∷◌, ◌++◌, inl, inr, arith, ◌==◌,
  Bool-cases, has, Distinct, has-append, Distinct-append, length, ok,
}
use project_dionysus.IntrusiveList.{
  Links, IntrusiveList, increase, decrease, util_list_add, util_list_remove, util_list_remove_entry,
  util_list_init, list_remove, list_remove_init,
}
use project_dionysus.IntrusiveList.Ring.{
  Chain, put_behind, without, added, removed, Chain-next, Chain-prev, Chain-added, Chain-removed,
  elsewhere,
}

-- The list with the head `l.head` holds the links `xs`, in this order.
pub record IsRing (l : IntrusiveList) (s : Links) (xs : List ℕ) : Type 0 where
  pub chain : Chain s l.head xs l.head
  pub distinct : Distinct (l.head ∷ xs)
  pub nonzero : has 0 (l.head ∷ xs) ≡ false
  pub count : l.size ≡ length xs % 2 ^ 64

has-put_behind :
    (iter item a : ℕ) (xs : List ℕ) (p : ℕ)
    → has iter (a ∷ xs) ≡ true
    → has p (put_behind iter item a xs) ≡ ((p == item) || has p xs)
has-put_behind iter item a [] p h = ground arith
has-put_behind iter item a (x ∷ xs) p h = elim (Bool-cases (a == iter)) [
  | inl k ↦ rw k refl
  | inr k ↦ rw k (ground (arith, has-put_behind iter item x xs p))
]

Distinct-put_behind :
    (iter item a : ℕ) (xs : List ℕ)
    → has iter (a ∷ xs) ≡ true
    → has item xs ≡ false
    → Distinct xs
    → Distinct (put_behind iter item a xs)
Distinct-put_behind iter item a [] h k d = ground arith
Distinct-put_behind iter item a (x ∷ xs) h k d = elim (Bool-cases (a == iter)) [
  | inl e ↦ rw e (k, d)
  | inr e ↦ rw e (
    ground (arith, has-put_behind iter item x xs x),
    Distinct-put_behind iter item x xs (ground arith) (ground arith) d.1,
  )
]

length-put_behind :
    (iter item a : ℕ) (xs : List ℕ)
    → has iter (a ∷ xs) ≡ true
    → length (put_behind iter item a xs) ≡ suc (length xs)
length-put_behind iter item a [] h = ground arith
length-put_behind iter item a (x ∷ xs) h = elim (Bool-cases (a == iter)) [
  | inl k ↦ rw k refl
  | inr k ↦ rw k (ground (arith, length-put_behind iter item x xs))
]

has-without : (x p : ℕ) (xs : List ℕ) → has p xs ≡ false → has p (without x xs) ≡ false
has-without x p [] h = refl
has-without x p (y ∷ ys) h = elim (Bool-cases (y == x)) [
  | inl k ↦ rw k (ground arith)
  | inr k ↦ rw k (ground (arith, has-without x p ys))
]

Distinct-without : (x : ℕ) (xs : List ℕ) → Distinct xs → Distinct (without x xs)
Distinct-without x [] d = tt
Distinct-without x (y ∷ ys) d = elim (Bool-cases (y == x)) [
  | inl k ↦ rw k d.1
  | inr k ↦ rw k (has-without x y ys d.0, Distinct-without x ys d.1)
]

length-without : (x : ℕ) (xs : List ℕ) → has x xs ≡ true → suc (length (without x xs)) ≡ length xs
length-without x [] h = absurd (ground arith)
length-without x (y ∷ ys) h = elim (Bool-cases (y == x)) [
  | inl k ↦ rw k refl
  | inr k ↦ rw k (ground (arith, length-without x ys))
]

-- The ring closes at the head: its links without a first one are distinct too.
pub rotated : (a : ℕ) (xs : List ℕ) → Distinct (a ∷ xs) → Distinct (xs ++ a ∷ [])
rotated a xs d = Distinct-append xs a d.1 d.0

pub nonzero_member : (p : ℕ) (xs : List ℕ) → has p xs ≡ true → has 0 xs ≡ false → (p == 0) ≡ false
nonzero_member p xs h k = ground (arith, elsewhere p 0 xs)

module _ (l : IntrusiveList) (s : Links) (xs : List ℕ) (ring : IsRing l s xs) where
  pub link_nonzero : (p : ℕ) → has p (l.head ∷ xs) ≡ true → (p == 0) ≡ false
  link_nonzero p h = nonzero_member p (l.head ∷ xs) h ring.nonzero

  pub next_nonzero : (p : ℕ) → has p (l.head ∷ xs) ≡ true → (s.next p == 0) ≡ false
  next_nonzero p h = link_nonzero (s.next p) (
      ground (
        arith,
        Chain-next s l.head xs l.head p ring.chain h,
        has-append (s.next p) xs (l.head ∷ []),
      ))

  prev_nonzero : (p : ℕ) → has p xs ≡ true → (s.prev p == 0) ≡ false
  prev_nonzero p h =
      link_nonzero (s.prev p)
        (Chain-prev s l.head xs l.head p ring.chain (ground (arith, has-append p xs (l.head ∷ []))))

  pub add-IsRing :
      (iter item : ℕ)
      → has iter (l.head ∷ xs) ≡ true
      → has item (l.head ∷ xs) ≡ false
      → (item == 0) ≡ false
      → (util_list_add item iter (s.next iter) s ≡ ok (added item iter (s.next iter) s))
        × IsRing (increase l) (added item iter (s.next iter) s) (put_behind iter item l.head xs)
  unfolding util_list_add
  add-IsRing iter item h u z = (
    rw (link_nonzero iter h, next_nonzero iter h, z) refl,
    record {
      chain =
          Chain-added s l.head xs l.head iter item ring.chain ring.distinct
            (rotated l.head xs ring.distinct) h u
            (ground (arith, has-append item xs (l.head ∷ [])));
      distinct = (
        ground (arith, has-put_behind iter item l.head xs l.head),
        Distinct-put_behind iter item l.head xs h (ground arith) ring.distinct.1,
      );
      nonzero = ground (arith, has-put_behind iter item l.head xs 0, ring.nonzero);
      count = omega (arith, length-put_behind iter item l.head xs h, ring.count);
    },
  )

  pub remove-IsRing :
      (x : ℕ)
      → has x xs ≡ true
      → (list_remove_init x s ≡ ok (removed x (s.prev x) (s.next x) s))
        × IsRing (decrease l) (removed x (s.prev x) (s.next x) s) (without x xs)
  unfolding list_remove_init list_remove util_list_remove util_list_remove_entry util_list_init
  remove-IsRing x h = (
    rw
        (
          util_list_init,
          link_nonzero x (ground arith),
          next_nonzero x (ground arith),
          prev_nonzero x h,
        )
        refl,
    record {
      chain =
          Chain-removed s l.head xs l.head x ring.chain ring.distinct
            (rotated l.head xs ring.distinct) h;
      distinct = (has-without x l.head xs ring.distinct.0, Distinct-without x xs ring.distinct.1);
      nonzero = ground (arith, has-without x 0 xs, ring.nonzero);
      count = omega (arith, length-without x xs h, ring.count);
    },
  )
