-- ===== src/Task/Timers/Expiry.antt =====
-- A tick that lets a timer expire.
use project_dionysus.Base.{
  ℕ, suc, ◌≡◌, refl, true, some, List, ◌∷◌, Run, ok, fault, ==_refl, bind_fault, Bool-cases, inl,
  inr, ◌⊎◌,
}
use project_dionysus.IntrusiveList.{Links, IntrusiveList, front_ptr}
use project_dionysus.IntrusiveList.Steps.{IsRing}
use project_dionysus.IntrusiveList.Ends.{list_empty-cons}
use project_dionysus.Task.Timers.{
  Timers, lock_timers, set_expires, minus, remove_timer, timeout_handle, expire,
  check_timers_locked, timer_tick_handle,
}

-- A callback that is called with timer_lock held panics, or comes back with it still held.
abbrev pub KeepsLock : (ℕ → Timers → Run Timers) → Type 0
KeepsLock callback =
    (t : ℕ) (s : Timers)
    → s.timer_lock ≡ true
    → (callback t s ≡ fault) ⊎ ((s' : Timers) × (callback t s ≡ ok s') × (s'.timer_lock ≡ true))

-- The callback of a wait takes the lock itself.
pub timeout_handle-KeepsLock :
    (unblock : ℕ → Timers → Run Timers) → KeepsLock (timeout_handle unblock)
unfolding timeout_handle remove_timer lock_timers
timeout_handle-KeepsLock unblock t s held = inl (rw held refl)

first_ptr :
    (l : IntrusiveList) (s : Links) (x : ℕ) (xs : List ℕ)
    → IsRing l s (x ∷ xs)
    → s.parent x ≡ some x
    → front_ptr l s ≡ some x
unfolding front_ptr
first_ptr l s x xs ring own = rw (front_ptr, ring.chain.0, own) refl

module _ (callback : ℕ → Timers → Run Timers) (keeps : KeepsLock callback) where
  expire_now :
      (fuel t : ℕ) (s : Timers)
      → s.timer_lock ≡ true
      → s.expires t ≡ 0
      → expire callback (suc fuel) t s ≡ fault
  unfolding expire remove_timer lock_timers
  expire_now fuel t s held due = elim (keeps t s held) [
    | inl panic ↦ rw (due, panic) refl
    | inr (s', done, still) ↦ rw (due, done, still) refl
  ]

  -- When the callbacks of timers, called with timer_lock held, panic or come back with it still
  -- held, a tick with one tick left for the first timer of a well-formed list is a fault.
  pub timer_tick_handle_faults :
      (fuel x : ℕ) (xs : List ℕ) (s : Timers)
      → IsRing s.timer_list s.links (x ∷ xs)
      → s.links.parent x ≡ some x
      → s.expires x ≡ 1
      → timer_tick_handle callback (suc fuel) s ≡ fault
  unfolding timer_tick_handle check_timers_locked lock_timers
  timer_tick_handle_faults fuel x xs s ring own due = elim (Bool-cases s.timer_lock) [
    | inl k ↦ rw k refl
    | inr k ↦
        let s0 = record s { timer_lock = true } in
        let front : front_ptr s.timer_list s.links ≡ some x =
          first_ptr s.timer_list s.links x xs ring own in
        rw (k, list_empty-cons s.timer_list s.links x xs ring, front)
          (bind_fault _ (
            expire_now fuel x (set_expires x (minus (s.expires x) 1) s0) refl
              (rw (==_refl x, due) refl)))
  ]
