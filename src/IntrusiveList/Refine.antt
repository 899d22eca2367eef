-- ===== src/IntrusiveList/Refine.antt =====
-- The intrusive list as a plain sequence: what each operation means, and any run of them.
use project_dionysus.Base.{
  ℕ, ◌≡◌, refl, Bool, true, false, not, ◌&&◌, ◌||◌, List, [], ◌∷◌, ◌++◌, arith, ◌==◌, has,
  has-append, subst, length, Run, ok, ◌>>=◌, ==_refl,
}
use project_dionysus.IntrusiveList.{
  util_list_add, Links, IntrusiveList, increase, decrease, list_add, list_add_tail, list_empty,
  insert, erase, remove, pop_back, push_back, pop_front, push_front,
}
use project_dionysus.IntrusiveList.Ring.{put_behind, without, added, removed, Chain-prev}
use project_dionysus.IntrusiveList.Steps.{IsRing, add-IsRing, remove-IsRing, link_nonzero}
use project_dionysus.IntrusiveList.Ends.{
  drop_first, drop_last, put_behind_head, next_last, put_behind_last, without_last, last_member,
  first_member, without_first, list_empty-cons,
}

pub data ListOp : Type 0 where
  op_push_back op_push_front : ℕ → ListOp
  op_insert : ℕ → ℕ → ListOp
  op_erase op_remove : ℕ → ListOp
  op_pop_back op_pop_front : ListOp

unfoldable pub execute : ListOp → IntrusiveList → Links → Run (IntrusiveList × Links)
execute (op_push_back x) l s = push_back x l s
execute (op_push_front x) l s = push_front x l s
execute (op_insert it x) l s = insert it x l s
execute (op_erase it) l s = erase it l s
execute (op_remove x) l s = remove x l s
execute op_pop_back l s = pop_back l s
execute op_pop_front l s = pop_front l s

-- The meaning of an operation on the sequence behind the head `h`.
unfoldable pub meaning : ListOp → ℕ → List ℕ → List ℕ
meaning (op_push_back x) h xs = xs ++ x ∷ []
meaning (op_push_front x) h xs = x ∷ xs
meaning (op_insert it x) h xs = put_behind it x h xs
meaning (op_erase it) h xs = without it xs
meaning (op_remove x) h xs = without x xs
meaning op_pop_back h xs = drop_last xs
meaning op_pop_front h xs = drop_first xs

-- A new link is not null and not yet in the list; a link that goes is in the list, or the list is
-- empty.
unfoldable pub allowed : ListOp → ℕ → List ℕ → Bool
allowed (op_push_back x) h xs = not (has x (0 ∷ h ∷ xs))
allowed (op_push_front x) h xs = not (has x (0 ∷ h ∷ xs))
allowed (op_insert it x) h xs = not (has x (0 ∷ h ∷ xs)) && has it (h ∷ xs)
allowed (op_erase it) h xs = (length xs == 0) || has it xs
allowed (op_remove x) h xs = (length xs == 0) || has x xs
allowed op_pop_back h xs = true
allowed op_pop_front h xs = true

-- The code succeeds, keeps its head, and leaves the sequence `ys`.
abbrev pub Leaves : Run (IntrusiveList × Links) → ℕ → List ℕ → Type 0
Leaves m h ys = (l : IntrusiveList) × (s : Links) × (m ≡ ok (l, s)) × (l.head ≡ h) × IsRing l s ys

module _ (l : IntrusiveList) (s : Links) (xs : List ℕ) (ring : IsRing l s xs) where
  adds :
      (iter item : ℕ) (ys : List ℕ)
      → has iter (l.head ∷ xs) ≡ true
      → has item (0 ∷ l.head ∷ xs) ≡ false
      → put_behind iter item l.head xs ≡ ys
      → Leaves (insert iter item l s) l.head ys
  unfolding insert list_add
  adds iter item ys h u e =
      let (done, kept) = add-IsRing l s xs ring iter item h (ground arith) (ground arith) in
      (
        increase l,
        added item iter (s.next iter) s,
        rw (link_nonzero l s xs ring iter h, done) refl,
        refl,
        subst (IsRing (increase l) (added item iter (s.next iter) s)) e kept,
      )

removes :
    (l : IntrusiveList) (s : Links) (xs : List ℕ) (x : ℕ) (ys : List ℕ)
    → IsRing l s xs
    → ((length xs == 0) || has x xs) ≡ true
    → without x xs ≡ ys
    → Leaves (remove x l s) l.head ys
unfolding remove list_empty
removes l s [] x ys ring h e =
    (l, s, rw (ring.chain.0, ==_refl l.head) refl, refl, subst (IsRing l s) e ring)
removes l s (y ∷ xs) x ys ring h e =
    let (done, kept) = remove-IsRing l s (y ∷ xs) ring x (ground arith) in
    (
      decrease l,
      removed x (s.prev x) (s.next x) s,
      rw (list_empty-cons l s y xs ring, done) refl,
      refl,
      subst (IsRing (decrease l) (removed x (s.prev x) (s.next x) s)) e kept,
    )

pushes_back :
    (l : IntrusiveList) (s : Links) (xs : List ℕ) (x : ℕ)
    → IsRing l s xs
    → has x (0 ∷ l.head ∷ xs) ≡ false
    → Leaves (push_back x l s) l.head (xs ++ x ∷ [])
unfolding push_back list_add_tail
pushes_back l s xs x ring u =
    let last = s.prev l.head in
    let member =
      Chain-prev s l.head xs l.head l.head ring.chain
        (ground (arith, has-append l.head xs (l.head ∷ []))) in
    let (done, kept) = add-IsRing l s xs ring last x member (ground arith) (ground arith) in
    let around = next_last s l.head xs l.head ring.chain in
    (
      increase l,
      added x last (s.next last) s,
      rw
          (
            link_nonzero l s xs ring l.head (ground arith),
            subst (λ n. util_list_add x last n s ≡ ok (added x last (s.next last) s)) around done,
          )
          refl,
      refl,
      subst (IsRing (increase l) (added x last (s.next last) s))
          (put_behind_last s l.head xs l.head x ring.chain ring.distinct) kept,
    )

-- Every allowed operation succeeds and does to the links what it means on the sequence.
pub execute-meaning :
    (op : ListOp) (l : IntrusiveList) (s : Links) (xs : List ℕ)
    → IsRing l s xs
    → allowed op l.head xs ≡ true
    → Leaves (execute op l s) l.head (meaning op l.head xs)
unfolding execute allowed meaning push_front insert erase remove pop_back pop_front
execute-meaning (op_push_back x) l s xs ring h = pushes_back l s xs x ring (ground arith)
execute-meaning (op_push_front x) l s xs ring h =
    adds l s xs ring l.head x (x ∷ xs) (ground arith) (ground arith) (put_behind_head l.head x xs)
execute-meaning (op_insert it x) l s xs ring h =
    adds l s xs ring it x (put_behind it x l.head xs) (ground arith) (ground arith) refl
execute-meaning (op_erase x) l s xs ring h = removes l s xs x (without x xs) ring h refl
execute-meaning (op_remove x) l s xs ring h = removes l s xs x (without x xs) ring h refl
execute-meaning op_pop_back l s xs ring h =
    removes l s xs (s.prev l.head) (drop_last xs) ring
      (last_member s l.head xs l.head ring.chain ring.distinct)
      (without_last s l.head xs l.head ring.chain ring.distinct)
execute-meaning op_pop_front l s xs ring h =
    removes l s xs (s.next l.head) (drop_first xs) ring (first_member s l.head xs l.head ring.chain)
      (without_first s l.head xs l.head ring.chain)

unfoldable pub execute_all : List ListOp → IntrusiveList → Links → Run (IntrusiveList × Links)
execute_all [] l s = ok (l, s)
execute_all (op ∷ ops) l s = execute op l s >>= λ r. execute_all ops r.0 r.1

unfoldable pub meaning_all : List ListOp → ℕ → List ℕ → List ℕ
meaning_all [] h xs = xs
meaning_all (op ∷ ops) h xs = meaning_all ops h (meaning op h xs)

unfoldable pub allowed_all : List ListOp → ℕ → List ℕ → Bool
allowed_all [] h xs = true
allowed_all (op ∷ ops) h xs = allowed op h xs && allowed_all ops h (meaning op h xs)

-- On a well-formed list, any sequence of insertions of new links and removals of links of the
-- list, at either end or in the middle, succeeds, and leaves a well-formed list of the links
-- that the same steps on a plain sequence give.
pub execute_all-meaning :
    (ops : List ListOp) (l : IntrusiveList) (s : Links) (xs : List ℕ)
    → IsRing l s xs
    → allowed_all ops l.head xs ≡ true
    → Leaves (execute_all ops l s) l.head (meaning_all ops l.head xs)
unfolding execute_all meaning_all allowed_all
execute_all-meaning [] l s xs ring h = (l, s, refl, refl, ring)
execute_all-meaning (op ∷ ops) l s xs ring h =
    let (l', s', done, same, ring') = execute-meaning op l s xs ring (ground arith) in
    let rest =
      execute_all-meaning ops l' s' (meaning op l.head xs) ring' (rw same (ground arith)) in
    rw done (
      subst (λ i. Leaves (execute_all ops l' s') i (meaning_all ops i (meaning op l.head xs))) same
        rest)
