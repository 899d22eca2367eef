-- ===== src/Task/Timers.antt =====
-- The timers of a scheduler, in kern/task/scheduler/scheduler.cc: a list in which each timer counts
-- from the one before it. A timer is an address, which is also its link's; `expires` holds signed
-- 64-bit numbers in two's complement; timer_lock is whether this CPU holds it. What a callback does
-- is a parameter, and the loops run on fuel.
pub mod Expiry
pub mod Early
mod Tests
use project_dionysus.Base.{
  ℕ, zero, suc, ◌+◌, ◌-◌, ◌%◌, ◌^◌, ◌≡◌, Bool, true, false, not, Option, none, some, Run, ok, fault,
  assert, deref, ◌>>=◌, ◌>>◌, ◌==◌, ltb, if◌then◌else◌,
}
use project_dionysus.IntrusiveList.{
  Links, IntrusiveList, update, check, list_empty, front_ptr, begin, insert, remove,
}

pub record Timers : Type 0 where
  pub timer_list : IntrusiveList
  pub links : Links
  pub expires : ℕ → ℕ
  pub timer_lock : Bool

-- Signed comparison and subtraction of 64-bit numbers.
abbrev pub less : ℕ → ℕ → Bool
less a b = ltb ((a + 2 ^ 63) % 2 ^ 64) ((b + 2 ^ 63) % 2 ^ 64)

abbrev pub minus : ℕ → ℕ → ℕ
minus a b = (a + (2 ^ 64 - b)) % 2 ^ 64

abbrev pub set_expires : ℕ → ℕ → Timers → Timers
set_expires t v s = record s { expires = update s.expires t v }

-- `lock_guard g{ timer_lock }`
unfoldable pub lock_timers : Timers → Run Timers
lock_timers s = if s.timer_lock then fault else ok (record s { timer_lock = true })

abbrev pub unlock_timers : Timers → Timers
unlock_timers s = record s { timer_lock = false }

-- The loop of add_timer, from the link `iter` on: where it stops.
unfoldable pub find_slot : ℕ → ℕ → ℕ → Timers → Run (ℕ × Timers)
find_slot zero timer iter s = fault
find_slot (suc fuel) timer iter s =
    let rest = check iter >> deref (s.links.parent iter) >>= λ t.
    (if less (s.expires timer) (s.expires t)
      then ok (iter, set_expires t (minus (s.expires t) (s.expires timer)) s)
      else find_slot fuel timer (s.links.next iter)
          (set_expires timer (minus (s.expires timer) (s.expires t)) s)) in
    if iter == s.timer_list.head then ok (iter, s) else rest

unfoldable pub add_timer : ℕ → ℕ → Timers → Run Timers
add_timer fuel timer s = lock_timers s >>= λ s0.
    find_slot fuel timer (begin s0.timer_list s0.links) s0 >>= λ f.
    (let s1 = f.1 in
      let iter = if f.0 == begin s1.timer_list s1.links then f.0 else s1.links.prev f.0 in
      insert iter timer s1.timer_list s1.links >>= λ r.
      ok (unlock_timers (record s1 { timer_list = r.0; links = r.1 })))

unfoldable pub remove_timer : ℕ → Timers → Run Timers
remove_timer timer s = lock_timers s >>= λ s0.
    (if list_empty s0.timer_list.head s0.links
      then ok (unlock_timers s0)
      else (let next = s0.links.parent (s0.links.next timer) in
          let s1 = if s0.expires timer == 0 then s0 else (elim next [
            | none ↦ s0
            | some n ↦ set_expires n ((s0.expires n + s0.expires timer) % 2 ^ 64) s0
          ]) in
          remove timer s1.timer_list s1.links >>= λ r.
          ok (unlock_timers (record s1 { timer_list = r.0; links = r.1 }))))

-- wait_queue::timeout_handle, the callback of a wait with a deadline; `unblock` is what it does
-- behind removing the timer.
unfoldable pub timeout_handle : (ℕ → Timers → Run Timers) → ℕ → Timers → Run Timers
timeout_handle unblock timer s = remove_timer timer s >>= unblock timer

-- `callback` is the callback of a timer, with its argument and the time.
module _ (callback : ℕ → Timers → Run Timers) where
  -- The loop of check_timers_locked.
  unfoldable pub expire : ℕ → ℕ → Timers → Run Timers
  expire zero timer s = fault
  expire (suc fuel) timer s =
      let next = s.links.parent (s.links.next timer) in
      let fired = callback timer s >>= remove_timer timer >>= λ s1. elim next [
        | none ↦ ok s1
        | some n ↦ expire fuel n s1
      ] in
      if s.expires timer == 0 then fired else ok s

  unfoldable pub check_timers_locked : ℕ → Timers → Run Timers
  check_timers_locked fuel s =
      if list_empty s.timer_list.head s.links
      then ok s
      else (deref (front_ptr s.timer_list s.links) >>= λ t.
          expire fuel t (set_expires t (minus (s.expires t) 1) s))

  -- timer_tick_handle, up to the tick of the scheduler class.
  unfoldable pub timer_tick_handle : ℕ → Timers → Run Timers
  timer_tick_handle fuel s =
      assert (not s.timer_lock) >> lock_timers s >>= check_timers_locked fuel >>= λ s1.
      ok (unlock_timers s1)
