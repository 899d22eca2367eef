-- ===== src/Task/Timers/Early.antt =====
-- Adding a timer that expires before all others.
use project_dionysus.Base.{
  ℕ, suc, ◌≡◌, refl, ap, true, false, some, List, ◌∷◌, Run, ok, ◌==◌, ==_refl, ==-ne, if◌then◌else◌,
  arith, bind_ok, has, subst,
}
use project_dionysus.IntrusiveList.{Links, IntrusiveList, begin, insert, increase}
use project_dionysus.IntrusiveList.Ends.{insert-added, put_behind_head}
use project_dionysus.IntrusiveList.Ring.{put_behind, added}
use project_dionysus.IntrusiveList.Steps.{IsRing, add-IsRing}
use project_dionysus.Task.Timers.{
  Timers, lock_timers, set_expires, minus, less, find_slot, add_timer,
}

first_slot :
    (fuel timer x : ℕ) (xs : List ℕ) (s : Timers)
    → IsRing s.timer_list s.links (x ∷ xs)
    → s.links.parent x ≡ some x
    → less (s.expires timer) (s.expires x) ≡ true
    → find_slot (suc fuel) timer (begin s.timer_list s.links) s
      ≡ ok (x, set_expires x (minus (s.expires x) (s.expires timer)) s)
unfolding find_slot begin
first_slot fuel timer x xs s ring own early =
    rw
      (
        ring.chain.0,
        ==-ne x s.timer_list.head (ground (arith, ring.distinct)),
        ==-ne x 0 (ground (arith, ring.nonzero)),
        own,
        early,
      )
      refl

behind_first :
    (l : IntrusiveList) (s : Links) (timer x : ℕ) (xs : List ℕ) {r : Run (IntrusiveList × Links)}
    → IsRing l s (x ∷ xs)
    → insert x timer l s ≡ r
    → insert (if x == begin l s then x else s.prev x) timer l s ≡ r
unfolding begin
behind_first l s timer x xs ring e = rw (ring.chain.0, ==_refl x) e

second :
    (h x timer : ℕ) (xs : List ℕ)
    → (h == x) ≡ false
    → put_behind x timer h (x ∷ xs) ≡ x ∷ timer ∷ xs
second h x timer xs e = rw e (ap (λ zs. x ∷ zs) (put_behind_head x timer xs))

-- Adding a new timer that expires before the first timer of a well-formed list puts it behind
-- that one; the first timer is left with the difference of the two times, and the new one with
-- its own.
pub add_timer_early :
    (fuel timer x : ℕ) (xs : List ℕ) (s : Timers)
    → IsRing s.timer_list s.links (x ∷ xs)
    → s.links.parent x ≡ some x
    → s.timer_lock ≡ false
    → has timer (0 ∷ s.timer_list.head ∷ x ∷ xs) ≡ false
    → less (s.expires timer) (s.expires x) ≡ true
    → (s' : Timers) × (add_timer (suc fuel) timer s ≡ ok s')
      × IsRing s'.timer_list s'.links (x ∷ timer ∷ xs)
      × (s'.expires x ≡ minus (s.expires x) (s.expires timer))
      × (s'.expires timer ≡ s.expires timer)
      × (s'.timer_lock ≡ false)
unfolding add_timer lock_timers
add_timer_early fuel timer x xs s ring own free u early =
    let inside : has x (s.timer_list.head ∷ x ∷ xs) ≡ true = ground arith in
    let (done, ring') =
      add-IsRing s.timer_list s.links (x ∷ xs) ring x timer inside (ground arith) (ground arith) in
    let s1 = set_expires x (minus (s.expires x) (s.expires timer)) s in
    (
      record s1 {
        timer_list = increase s.timer_list;
        links = added timer x (s.links.next x) s.links;
        timer_lock = false;
      },
      rw free (
          bind_ok _ (first_slot fuel timer x xs (record s { timer_lock = true }) ring own early) (
            bind_ok _
              (behind_first s.timer_list s.links timer x xs ring
                (insert-added s.timer_list s.links (x ∷ xs) ring x timer inside done))
              refl)),
      subst (IsRing (increase s.timer_list) (added timer x (s.links.next x) s.links))
          (second s.timer_list.head x timer xs (ground (arith, ring.distinct))) ring',
      rw (==_refl x) refl,
      rw (==-ne x timer (ground arith)) refl,
      refl,
    )
