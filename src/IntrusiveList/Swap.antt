-- ===== src/IntrusiveList/Swap.antt =====
-- list_swap on two empty lists or with an empty second one, and so swap and do_merge.
use project_dionysus.Base.{
  ℕ, suc, ◌+◌, ◌^◌, ◌%◌, ◌≡◌, refl, ap, ◌∙◌, Bool, false, List, [], ◌∷◌, inl, inr, arith, ◌==◌,
  Bool-cases, bind_ok, has, has-append, ok, Option, ==_refl, ==-ne,
}
use project_dionysus.IntrusiveList.{
  Links, IntrusiveList, list_remove, list_remove_init, list_replace, list_add, util_list_init,
  util_list_add, util_list_remove, util_list_remove_entry, write_next, write_prev, begin, rbegin,
  swap, list_swap, do_merge, equal_links, merge_links, move_rest,
}
use project_dionysus.IntrusiveList.Ring.{added, removed, elsewhere, Chain-prev}
use project_dionysus.IntrusiveList.Steps.{IsRing}

-- The links after list_replace.
abbrev replaced : ℕ → ℕ → Links → Links
replaced old newnode s0 =
    let s1 = write_next newnode (s0.next old) s0 in
    let s2 = write_prev (s1.next newnode) newnode s1 in
    let s3 = write_prev newnode (s2.prev old) s2 in write_next (s3.prev newnode) newnode s3

not_null : (p : ℕ) (ps : List ℕ) → has 0 (p ∷ ps) ≡ false → ((p == 0) ≡ false) × (has 0 ps ≡ false)
not_null p ps h = ground arith

list_replace_lem :
    (s : Links) (old newnode : ℕ)
    → has 0 (old ∷ newnode ∷ s.next old ∷ s.prev old ∷ []) ≡ false
    → list_replace old newnode s ≡ ok (replaced old newnode s)
unfolding list_replace
list_replace_lem s old newnode z =
    let (z1, r1) = not_null old (newnode ∷ s.next old ∷ s.prev old ∷ []) z in
    let (z2, r2) = not_null newnode (s.next old ∷ s.prev old ∷ []) r1 in
    let (z3, r3) = not_null (s.next old) (s.prev old ∷ []) r2 in
    let (z4, r4) = not_null (s.prev old) [] r3 in
    elim (Bool-cases (s.next old == old)) [
      | inl k ↦ rw (==_refl newnode, z1, z2, z3, k, z2) refl
      | inr k ↦ rw (==_refl newnode, z1, z2, z3, k, z4) refl
    ]

list_add_lem :
    (s : Links) (newnode p : ℕ)
    → has 0 (newnode ∷ p ∷ s.next p ∷ []) ≡ false
    → list_add newnode p s ≡ ok (added newnode p (s.next p) s)
unfolding list_add util_list_add
list_add_lem s newnode p z =
    let (z1, r1) = not_null newnode (p ∷ s.next p ∷ []) z in
    let (z2, r2) = not_null p (s.next p ∷ []) r1 in
    let (z3, r3) = not_null (s.next p) [] r2 in rw (z1, z2, z3) refl

remove_alone :
    (s : Links) (p : ℕ)
    → s.next p ≡ p
    → s.prev p ≡ p
    → has 0 (p ∷ []) ≡ false
    → list_remove_init p s ≡ ok (removed p p p s)
unfolding list_remove_init list_remove util_list_remove_entry util_list_remove util_list_init
remove_alone s p hn hp z = rw (util_list_init, hn, hp, (not_null p [] z).0) refl

-- list_swap where the second head is alone: both heads end up in one ring.
list_swap_alone :
    (s : Links) (e1 e2 : ℕ)
    → s.next e2 ≡ e2
    → s.prev e2 ≡ e2
    → has 0 (e1 ∷ e2 ∷ s.next e1 ∷ s.prev e1 ∷ []) ≡ false
    → (e1 == e2) ≡ false
    → (t : Links) × (list_swap e1 e2 s ≡ ok t) × (t.next e2 ≡ e1) × (t.prev e1 ≡ e2)
unfolding list_swap
list_swap_alone s e1 e2 hn hp z h =
    let s1 = removed e2 e2 e2 s in
    let s2 = replaced e1 e2 s1 in
    (
      added e1 e2 (s2.next e2) s2,
      bind_ok _ (remove_alone s e2 hn hp (ground arith)) (
          bind_ok _ (list_replace_lem s1 e1 e2 (ground arith)) (
            ap (λ p. list_add e1 p s2) (rw (hp, ==-ne e2 e1 (ground arith)) refl)
            ∙ list_add_lem s2 e1 e2 (ground arith))),
      ground arith,
      ground arith,
    )

ends_nonzero :
    (l another : IntrusiveList) (s : Links) (xs : List ℕ)
    → IsRing l s xs
    → IsRing another s []
    → has 0 (l.head ∷ another.head ∷ s.next l.head ∷ s.prev l.head ∷ []) ≡ false
ends_nonzero l another s [] r q = ground (arith, r.nonzero, q.nonzero, r.chain)
ends_nonzero l another s (x ∷ xs) r q = ground (
  arith,
  r.nonzero,
  q.nonzero,
  elsewhere (s.prev l.head) 0 (l.head ∷ x ∷ xs),
  Chain-prev s l.head (x ∷ xs) l.head l.head r.chain,
  has-append l.head (x ∷ xs) (l.head ∷ []),
)

-- Swapping a well-formed list with another, empty one succeeds, and leaves the other list
-- starting with the head of the first list.
pub swap_alone :
    (l another : IntrusiveList) (s : Links) (xs : List ℕ)
    → IsRing l s xs
    → IsRing another s []
    → (l.head == another.head) ≡ false
    → (t : Links) × (swap l another s
        ≡ ok (record l { size = another.size }, record another { size = l.size }, t))
      × (begin another t ≡ l.head)
unfolding swap begin
swap_alone l another s xs r q h =
    let (t, done, first, _) =
      list_swap_alone s l.head another.head q.chain.0 q.chain.1 (ends_nonzero l another s xs r q)
        h in
    (t, bind_ok _ done refl, first)

apart_links :
    (l another : IntrusiveList) (s : Links)
    → IsRing l s []
    → IsRing another s []
    → (l.head == another.head) ≡ false
    → equal_links l.head another.head s ≡ false
unfolding equal_links
apart_links l another s r q k = rw (r.chain.0, q.chain.0, k) refl

-- Merging two well-formed empty lists succeeds, and leaves the local head of the merge as the
-- last link of the list.
pub do_merge_alone :
    (fuel : ℕ) (cmp : Option ℕ → Option ℕ → Bool) (h : ℕ) (l another : IntrusiveList) (s : Links)
    → IsRing l s []
    → IsRing another s []
    → has h (0 ∷ l.head ∷ another.head ∷ []) ≡ false
    → (l.head == another.head) ≡ false
    → (l' another' : IntrusiveList) × (t : Links) × (do_merge (suc fuel) cmp h l another s
        ≡ ok (l', another', t))
      × (l'.head ≡ l.head)
      × (rbegin l' t ≡ h)
unfolding do_merge merge_links move_rest util_list_init rbegin
do_merge_alone fuel cmp h l another s r q u k =
    let s1 = write_prev h h (write_next h h s) in
    let h1 = apart l.head another.head h u in
    let h2 = apart another.head l.head h (ground arith) in
    let (t, done, _, last) =
      list_swap_alone s1 l.head h (rw (==_refl h) refl) (rw (==_refl h) refl)
        (rw (h1, r.chain.0, r.chain.1) (ground (arith, r.nonzero))) (ground arith) in
    (
      record l { size = (l.size + another.size) % 2 ^ 64 },
      record another { size = 0 },
      t,
      rw
          (
            apart_links l another s r q k,
            ==-ne h 0 (ground arith),
            h1,
            h2,
            r.chain.0,
            q.chain.0,
            ==_refl l.head,
            ==_refl another.head,
            done,
          )
          refl,
      refl,
      last,
    )
  where
    apart : (p q h : ℕ) → has h (0 ∷ p ∷ q ∷ []) ≡ false → (h == p) ≡ false
    apart p q h u = ground arith
