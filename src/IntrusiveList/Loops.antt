-- ===== src/IntrusiveList/Loops.antt =====
-- The loops over the links: counting them and clearing the list.
use project_dionysus.Base.{
  ℕ, zero, suc, ◌+◌, ◌^◌, ◌%◌, ◌<◌, ◌≡◌, refl, ap, ◌∙◌, false, List, [], ◌∷◌, ◌++◌, arith, ◌==◌,
  has, Distinct, length, ok, some, ==_refl,
}
use project_dionysus.IntrusiveList.{
  Links, IntrusiveList, list_empty, list_remove, util_list_remove, util_list_remove_entry, do_clear,
  clear_links, do_size_slow, count_links, write_next, write_prev,
}
use project_dionysus.IntrusiveList.Ring.{Chain, removed, Chain-frame, removed_first, elsewhere}
use project_dionysus.IntrusiveList.Ends.{list_empty-cons}
use project_dionysus.IntrusiveList.Steps.{IsRing, rotated}

elsewhere_head : (x b : ℕ) (xs : List ℕ) → has b (x ∷ xs) ≡ false → (x == b) ≡ false
elsewhere_head x b xs d = ground arith

count_links-length :
    (s : Links) (a : ℕ) (xs : List ℕ) (b sz fuel : ℕ)
    → Chain s a xs b
    → has b xs ≡ false
    → length xs < fuel
    → count_links fuel b (s.next a) (sz % 2 ^ 64) s ≡ some ((sz + length xs) % 2 ^ 64)
unfolding count_links
count_links-length s a xs b sz zero c d h = absurd (omega arith)
count_links-length s a [] b sz (suc fuel) c d h =
    rw (c.0, ==_refl b) (ap (λ n. some (n % 2 ^ 64)) (omega arith))
count_links-length s a (x ∷ xs) b sz (suc fuel) (e, f, c) d h =
    rw (e, elsewhere_head x b xs d)
      (ap (λ n. count_links fuel b (s.next x) n s) (omega arith)
        ∙ count_links-length s x xs b (sz + 1) fuel c (ground arith) (omega arith)
        ∙ ap (λ n. some (n % 2 ^ 64)) (omega arith))

-- On a well-formed list, counting the links one by one, with more rounds than links, ends with
-- the size that the list keeps.
pub do_size_slow-size :
    (l : IntrusiveList) (s : Links) (xs : List ℕ) (fuel : ℕ)
    → IsRing l s xs
    → length xs < fuel
    → do_size_slow fuel l s ≡ some l.size
unfolding do_size_slow
do_size_slow-size l s xs fuel ring h =
    count_links-length s l.head xs l.head 0 fuel ring.chain ring.distinct.0 h
    ∙ rw ring.count (ap (λ n. some (n % 2 ^ 64)) (omega arith))

-- The links after list_remove.
abbrev dropped : ℕ → ℕ → ℕ → Links → Links
dropped x p n s = write_next x 0 (write_prev x 0 (write_prev n p (write_next p n s)))

dropped_first :
    (s : Links) (a : ℕ) (xs : List ℕ) (b x : ℕ)
    → Chain s a (x ∷ xs) b
    → Distinct (a ∷ x ∷ xs)
    → Distinct (x ∷ xs ++ b ∷ [])
    → Chain (dropped x a (s.next x) s) a xs b
dropped_first s a xs b x c d d' =
    Chain-frame (removed x a (s.next x) s) (dropped x a (s.next x) s) a xs b
      (λ p h. ground (arith, elsewhere p x (a ∷ xs)))
      (λ p h. ground (arith, elsewhere p x (xs ++ b ∷ []))) (removed_first s a xs b x c d d')

clear_step :
    (fuel a x : ℕ) (s : Links)
    → (x == a) ≡ false
    → has 0 (x ∷ s.prev x ∷ s.next x ∷ []) ≡ false
    → clear_links (suc fuel) a x s
      ≡ clear_links fuel a (s.next x) (dropped x (s.prev x) (s.next x) s)
unfolding clear_links list_remove util_list_remove_entry util_list_remove
clear_step fuel a x s h z =
    rw
      (
        h,
        not_null x (ground arith),
        not_null (s.prev x) (ground arith),
        not_null (s.next x) (ground arith),
      )
      refl
  where
    not_null : (p : ℕ) → (0 == p) ≡ false → (p == 0) ≡ false
    not_null p k = ground arith

next_nonzero :
    (s : Links) (a x : ℕ) (xs : List ℕ)
    → Chain s x xs a
    → has 0 (a ∷ xs) ≡ false
    → (0 == s.next x) ≡ false
next_nonzero s a x [] c z = ground arith
next_nonzero s a x (y ∷ ys) c z = ground (arith, c.0)

clear_links-Chain :
    (s : Links) (a : ℕ) (xs : List ℕ) (fuel : ℕ)
    → Chain s a xs a
    → Distinct (a ∷ xs)
    → has 0 (a ∷ xs) ≡ false
    → length xs < fuel
    → (t : Links) × (clear_links fuel a (s.next a) s ≡ ok t) × Chain t a [] a
unfolding clear_links
clear_links-Chain s a xs zero c d z h = absurd (omega arith)
clear_links-Chain s a [] (suc fuel) c d z h = (s, rw (c.0, ==_refl a) refl, c)
clear_links-Chain s a (x ∷ xs) (suc fuel) (e, f, c) d z h =
    let (t, done, left) =
      clear_links-Chain (dropped x a (s.next x) s) a xs fuel
        (dropped_first s a xs a x (e, f, c) d (rotated a (x ∷ xs) d)) (ground arith) (ground arith)
        (omega arith) in
    (
      t,
      ap (λ p. clear_links (suc fuel) a p s) e
          ∙ clear_step fuel a x s (ground arith) (ground (arith, next_nonzero s a x xs))
          ∙ ap (λ p. clear_links fuel a (s.next x) (dropped x p (s.next x) s)) f
          ∙ ap (λ p. clear_links fuel a p (dropped x a (s.next x) s)) (ground arith)
          ∙ done,
      left,
    )

-- Clearing a well-formed list, with more rounds than links, ends, without a fault, and leaves a
-- well-formed empty list.
pub do_clear-IsRing :
    (l : IntrusiveList) (s : Links) (xs : List ℕ) (fuel : ℕ)
    → IsRing l s xs
    → length xs < fuel
    → (t : Links) × (do_clear fuel l s ≡ ok (record l { size = 0 }, t))
      × IsRing (record l { size = 0 }) t []
unfolding do_clear list_empty
do_clear-IsRing l s [] fuel ring h = (
  s,
  rw (ring.chain.0, ==_refl l.head) refl,
  record { chain = ring.chain; distinct = ring.distinct; nonzero = ring.nonzero; count = refl },
)
do_clear-IsRing l s (x ∷ xs) fuel ring h =
    let (t, done, left) =
      clear_links-Chain s l.head (x ∷ xs) fuel ring.chain ring.distinct ring.nonzero h in
    (
      t,
      rw (list_empty-cons l s x xs ring, done) refl,
      record {
        chain = left;
        distinct = (refl, tt);
        nonzero = ground (arith, ring.nonzero);
        count = refl;
      },
    )
