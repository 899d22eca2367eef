-- ===== src/IntrusiveList/Ring.antt =====
-- The links of a list as a sequence of addresses: what a write elsewhere keeps, and what adding
-- and removing one link do to the sequence.
use project_dionysus.Base.{
  ℕ, ◌≡◌, ◌∙◌, true, false, List, [], ◌∷◌, ◌++◌, inl, inr, arith, ◌==◌, if◌then◌else◌, Bool-cases,
  same, has, Distinct, has-append, subst, ==_refl,
}
use project_dionysus.IntrusiveList.{Links, write_next, write_prev}

-- From `a` the links lead over `xs` to `b`, and back.
abbrev pub Chain : Links → ℕ → List ℕ → ℕ → Type 0
Chain s a [] b = (s.next a ≡ b) × (s.prev b ≡ a)
Chain s a (x ∷ xs) b = (s.next a ≡ x) × (s.prev x ≡ a) × Chain s x xs b

-- The sequence behind `a` with `item` put behind `iter`, and a sequence without `x`.
abbrev pub put_behind : ℕ → ℕ → ℕ → List ℕ → List ℕ
put_behind iter item a [] = if a == iter then item ∷ [] else []
put_behind iter item a (x ∷ xs) = if a == iter then item ∷ x ∷ xs else x ∷ put_behind iter item x xs

abbrev pub without : ℕ → List ℕ → List ℕ
without x [] = []
without x (y ∷ ys) = if y == x then ys else y ∷ without x ys

-- The links after util_list_add and after list_remove_init.
abbrev pub added : ℕ → ℕ → ℕ → Links → Links
added item p n s = write_prev item p (write_next item n (write_prev n item (write_next p item s)))

abbrev pub removed : ℕ → ℕ → ℕ → Links → Links
removed x p n s =
    write_prev x x
      (write_next x x (write_next x 0 (write_prev x 0 (write_prev n p (write_next p n s)))))

pub Chain-frame :
    (s t : Links) (a : ℕ) (xs : List ℕ) (b : ℕ)
    → ((p : ℕ) → has p (a ∷ xs) ≡ true → t.next p ≡ s.next p)
    → ((p : ℕ) → has p (xs ++ b ∷ []) ≡ true → t.prev p ≡ s.prev p)
    → Chain s a xs b
    → Chain t a xs b
Chain-frame s t a [] b hn hp c = ground (arith, hn a, hp b)
Chain-frame s t a (x ∷ xs) b hn hp (e, f, c) = (
  hn a (ground arith) ∙ e,
  hp x (ground arith) ∙ f,
  Chain-frame s t x xs b (λ p h. hn p (ground arith)) (λ p h. hp p (ground arith)) c,
)

pub Chain-next :
    (s : Links) (a : ℕ) (xs : List ℕ) (b x : ℕ)
    → Chain s a xs b
    → has x (a ∷ xs) ≡ true
    → has (s.next x) (xs ++ b ∷ []) ≡ true
Chain-next s a [] b x c h = ground arith
Chain-next s a (y ∷ ys) b x (e, f, c) h = elim (Bool-cases (x == a)) [
  | inl k ↦ ground arith
  | inr k ↦ ground (arith, Chain-next s y ys b x c)
]

pub Chain-prev :
    (s : Links) (a : ℕ) (xs : List ℕ) (b x : ℕ)
    → Chain s a xs b
    → has x (xs ++ b ∷ []) ≡ true
    → has (s.prev x) (a ∷ xs) ≡ true
Chain-prev s a [] b x c h = ground arith
Chain-prev s a (y ∷ ys) b x (e, f, c) h = elim (Bool-cases (x == y)) [
  | inl k ↦ ground arith
  | inr k ↦ ground (arith, Chain-prev s y ys b x c)
]

-- The link at which a write is made is not one that lies elsewhere.
pub elsewhere : (p q : ℕ) (xs : List ℕ) → has p xs ≡ true → has q xs ≡ false → (q == p) ≡ false
elsewhere p q [] h k = absurd (ground arith)
elsewhere p q (x ∷ xs) h k = elim (Bool-cases (p == x)) [
  | inl e ↦ ground arith
  | inr e ↦ elsewhere p q xs (ground arith) (ground arith)
]

added_first :
    (s : Links) (a : ℕ) (xs : List ℕ) (b item : ℕ)
    → Chain s a xs b
    → Distinct (a ∷ xs)
    → Distinct (xs ++ b ∷ [])
    → has item (a ∷ xs) ≡ false
    → has item (xs ++ b ∷ []) ≡ false
    → Chain (added item a (s.next a) s) a (item ∷ xs) b
added_first s a [] b item c d d' u v = ground arith
added_first s a (x ∷ xs) b item (e, f, c) d d' u v = (
  ground arith,
  ground arith,
  (
    ground arith,
    ground arith,
    Chain-frame s (added item a (s.next a) s) x xs b
        (λ p h. ground (arith, elsewhere p a (x ∷ xs), elsewhere p item (x ∷ xs)))
        (λ p h. ground (arith, elsewhere p x (xs ++ b ∷ []), elsewhere p item (xs ++ b ∷ []))) c,
  ),
)

-- A link that is nowhere in the chain is added behind one of its links.
pub Chain-added :
    (s : Links) (a : ℕ) (xs : List ℕ) (b iter item : ℕ)
    → Chain s a xs b
    → Distinct (a ∷ xs)
    → Distinct (xs ++ b ∷ [])
    → has iter (a ∷ xs) ≡ true
    → has item (a ∷ xs) ≡ false
    → has item (xs ++ b ∷ []) ≡ false
    → Chain (added item iter (s.next iter) s) a (put_behind iter item a xs) b
Chain-added s a [] b iter item c d d' h u v = ground arith
Chain-added s a (x ∷ xs) b iter item (e, f, c) d d' h u v = elim (Bool-cases (a == iter)) [
  | inl k ↦
      subst (λ i. Chain (added item i (s.next i) s) a (put_behind i item a (x ∷ xs)) b)
        (same a iter k) (rw (==_refl a) (added_first s a (x ∷ xs) b item (e, f, c) d d' u v))
  | inr k ↦ rw k (
    ground (arith),
    ground (arith, elsewhere (s.next iter) x (xs ++ b ∷ []), Chain-next s x xs b iter c),
    Chain-added s x xs b iter item c (ground arith) (ground arith) (ground arith) (ground arith)
        (ground arith),
  )
]

pub removed_first :
    (s : Links) (a : ℕ) (xs : List ℕ) (b x : ℕ)
    → Chain s a (x ∷ xs) b
    → Distinct (a ∷ x ∷ xs)
    → Distinct (x ∷ xs ++ b ∷ [])
    → Chain (removed x a (s.next x) s) a xs b
removed_first s a [] b x c d d' = ground arith
removed_first s a (y ∷ ys) b x (e, f, (g, h, c)) d d' = (
  ground arith,
  ground arith,
  Chain-frame s (removed x a (s.next x) s) y ys b
      (λ p h. ground (arith, elsewhere p a (y ∷ ys), elsewhere p x (y ∷ ys)))
      (λ p h. ground (arith, elsewhere p x (ys ++ b ∷ []), elsewhere p y (ys ++ b ∷ []))) c,
)

pub Chain-removed :
    (s : Links) (a : ℕ) (xs : List ℕ) (b x : ℕ)
    → Chain s a xs b
    → Distinct (a ∷ xs)
    → Distinct (xs ++ b ∷ [])
    → has x xs ≡ true
    → Chain (removed x (s.prev x) (s.next x) s) a (without x xs) b
Chain-removed s a [] b x c d d' h = absurd (ground arith)
Chain-removed s a (y ∷ ys) b x (e, f, c) d d' h = elim (Bool-cases (y == x)) [
  | inl k ↦ rw k (
      subst (λ i. Chain (removed i (s.prev i) (s.next i) s) a ys b) (same y x k)
        (rw f (removed_first s a ys b y (e, f, c) d d')))
  | inr k ↦ rw k (
    ground
        (arith, elsewhere (s.prev x) a (y ∷ ys), Chain-prev s y ys b x c, has-append x ys (b ∷ [])),
    ground (arith, elsewhere (s.next x) y (ys ++ b ∷ []), Chain-next s y ys b x c),
    Chain-removed s y ys b x c (ground arith) (ground arith) (ground arith),
  )
]
