-- ===== src/Task/Timers/Tests.antt =====
-- Timers on a concrete list: the theorems at inputs that meet their hypotheses.
use project_dionysus.Base.{
  ℕ, ◌+◌, ◌≡◌, refl, false, none, some, [], ◌∷◌, ok, fault, ◌==◌, if◌then◌else◌,
}
use project_dionysus.IntrusiveList.Steps.{IsRing}
use project_dionysus.Task.Timers.{Timers, timeout_handle, timer_tick_handle}
use project_dionysus.Task.Timers.Expiry.{timeout_handle-KeepsLock, timer_tick_handle_faults}

-- The head 1 with the timers 2 and 3, which have the time `first` and 5 left; timer 4 has 4.
abbrev timers : ℕ → Timers
timers first = record {
  timer_list = record { head = 1; size = 2 };
  links = record {
    next = λ p. if p == 1 then 2 else (if p == 2 then 3 else (if p == 3 then 1 else p));
    prev = λ p. if p == 1 then 3 else (if p == 2 then 1 else (if p == 3 then 2 else p));
    parent = λ p. if p == 1 then none else some p;
  };
  expires = λ p. if p == 2 then first else p + (if p == 3 then 2 else 0);
  timer_lock = false;
}

timers-IsRing : (first : ℕ) → IsRing (timers first).timer_list (timers first).links (2 ∷ 3 ∷ [])
timers-IsRing first = record {
  chain = (refl, refl, (refl, refl, (refl, refl)));
  distinct = (refl, (refl, (refl, tt)));
  nonzero = refl;
  count = refl;
}

-- The callback of a wait with a deadline.
timer_tick_handle_faults_example :
    timer_tick_handle (timeout_handle (λ t s. ok s)) 1 (timers 1) ≡ fault
timer_tick_handle_faults_example =
    timer_tick_handle_faults (timeout_handle (λ t s. ok s)) (timeout_handle-KeepsLock (λ t s. ok s))
      0 2 (3 ∷ []) (timers 1) (timers-IsRing 1) refl refl
