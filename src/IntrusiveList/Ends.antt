-- ===== src/IntrusiveList/Ends.antt =====
-- The ends of a ring: what the links of the head lead to, and what is there when one is added or
-- removed.
use project_dionysus.Base.{
  ℕ, ◌≡◌, refl, ap, true, false, ◌||◌, List, [], ◌∷◌, ◌++◌, arith, ◌==◌, has, Distinct, has-append,
  length, ok, ==_refl,
}
use project_dionysus.IntrusiveList.{
  util_list_add, Links, IntrusiveList, increase, list_add, list_empty, insert,
}
use project_dionysus.IntrusiveList.Ring.{Chain, put_behind, without, added, Chain-prev, elsewhere}
use project_dionysus.IntrusiveList.Steps.{IsRing, link_nonzero}

abbrev pub drop_first : List ℕ → List ℕ
drop_first [] = []
drop_first (x ∷ xs) = xs

abbrev pub drop_last : List ℕ → List ℕ
drop_last [] = []
drop_last (x ∷ []) = []
drop_last (x ∷ y ∷ ys) = x ∷ drop_last (y ∷ ys)

pub put_behind_head : (h x : ℕ) (xs : List ℕ) → put_behind h x h xs ≡ x ∷ xs
put_behind_head h x [] = rw (==_refl h) refl
put_behind_head h x (y ∷ ys) = rw (==_refl h) refl

pub last_elsewhere :
    (s : Links) (a y : ℕ) (ys : List ℕ) (b : ℕ)
    → Chain s y ys b
    → Distinct (a ∷ y ∷ ys)
    → (a == s.prev b) ≡ false
last_elsewhere s a y ys b c d =
    elsewhere (s.prev b) a (y ∷ ys)
      (Chain-prev s y ys b b c (ground (arith, has-append b ys (b ∷ [])))) d.0

pub next_last : (s : Links) (a : ℕ) (xs : List ℕ) (b : ℕ) → Chain s a xs b → s.next (s.prev b) ≡ b
next_last s a [] b c = ground arith
next_last s a (x ∷ xs) b (e, f, c) = next_last s x xs b c

pub put_behind_last :
    (s : Links) (a : ℕ) (xs : List ℕ) (b x : ℕ)
    → Chain s a xs b
    → Distinct (a ∷ xs)
    → put_behind (s.prev b) x a xs ≡ xs ++ x ∷ []
put_behind_last s a [] b x c d = ground arith
put_behind_last s a (y ∷ ys) b x (e, f, c) d =
    rw (last_elsewhere s a y ys b c d) (ap (λ zs. y ∷ zs) (put_behind_last s y ys b x c d.1))

pub without_last :
    (s : Links) (a : ℕ) (xs : List ℕ) (b : ℕ)
    → Chain s a xs b
    → Distinct (a ∷ xs)
    → without (s.prev b) xs ≡ drop_last xs
without_last s a [] b c d = refl
without_last s a (x ∷ []) b (e, f, c) d = ground arith
without_last s a (x ∷ y ∷ ys) b (e, f, c) d =
    rw (last_elsewhere s x y ys b c.2 d.1) (ap (λ zs. x ∷ zs) (without_last s x (y ∷ ys) b c d.1))

pub last_member :
    (s : Links) (a : ℕ) (xs : List ℕ) (b : ℕ)
    → Chain s a xs b
    → Distinct (a ∷ xs)
    → ((length xs == 0) || has (s.prev b) xs) ≡ true
last_member s a [] b c d = refl
last_member s a (x ∷ xs) b (e, f, c) d =
    ground (arith, Chain-prev s x xs b b c, has-append b xs (b ∷ []))

pub first_member :
    (s : Links) (a : ℕ) (xs : List ℕ) (b : ℕ)
    → Chain s a xs b
    → ((length xs == 0) || has (s.next a) xs) ≡ true
first_member s a [] b c = refl
first_member s a (x ∷ xs) b (e, f, c) = ground arith

pub without_first :
    (s : Links) (a : ℕ) (xs : List ℕ) (b : ℕ)
    → Chain s a xs b
    → without (s.next a) xs ≡ drop_first xs
without_first s a [] b c = refl
without_first s a (x ∷ xs) b (e, f, c) = rw (e, ==_refl x) refl

pub list_empty-cons :
    (l : IntrusiveList) (s : Links) (x : ℕ) (xs : List ℕ)
    → IsRing l s (x ∷ xs)
    → list_empty l.head s ≡ false
unfolding list_empty
list_empty-cons l s x xs ring = ground (arith, ring.chain, ring.distinct)

pub insert-added :
    (l : IntrusiveList) (s : Links) (xs : List ℕ)
    → IsRing l s xs
    → (p vma : ℕ) → has p (l.head ∷ xs) ≡ true
    → util_list_add vma p (s.next p) s ≡ ok (added vma p (s.next p) s)
    → insert p vma l s ≡ ok (increase l, added vma p (s.next p) s)
unfolding insert list_add
insert-added l s xs ring p vma h done = rw (link_nonzero l s xs ring p h, done) refl
