-- ===== src/Task/Scheduler/RoundRobin/Leave.antt =====
-- Rescheduling when the current thread is alone, or has left the processor by its state.
use project_dionysus.Base.{
  ℕ, ◌≡◌, refl, ◌∙◌, ap, true, false, List, [], ◌∷◌, some, ok, ◌>>=◌, ◌==◌, if◌then◌else◌, ==_refl,
}
use project_dionysus.Task.{
  System, ThreadState, ready, running, update, set_state, set_thread, is_state, has,
}
use project_dionysus.Task.Fcfs
use project_dionysus.Task.Scheduler.{enqueue, reschedule_locked, schedule, dispatch}
use project_dionysus.Task.Scheduler.RoundRobin.{
  enqueue_ready, fetch_head, dequeue_absent, with_queue, with_queue_at, dispatch_next, mark,
  mark_ready, reschedule_locked_rest, rest_of_schedule,
}

dispatch_same :
    (here c : ℕ) (s : System)
    → s.run_queue here ≡ []
    → dispatch here c (some c, s) ≡ ok (with_queue here [] s)
unfolding dispatch
dispatch_same here c s e = rw (dequeue_absent here c [] s e refl, ==_refl c) refl

rest_of_schedule_same :
    (here c : ℕ) (s : System)
    → is_state c ready s ≡ true
    → s.run_queue here ≡ []
    → rest_of_schedule here c s
      ≡ ok (with_queue here [] (with_queue here [] (with_queue here (c ∷ []) s)))
unfolding rest_of_schedule
rest_of_schedule_same here c s r e =
    ap (λ m. m >>= λ s2. Fcfs.fetch here here s2 >>= dispatch here c) first
    ∙ ap (λ m. m >>= dispatch here c)
        (fetch_head here c [] (with_queue here (c ∷ []) s) (with_queue_at here (c ∷ []) s))
    ∙ dispatch_same here c (with_queue here [] (with_queue here (c ∷ []) s))
        (with_queue_at here [] (with_queue here (c ∷ []) s))
  where
    first :
        (if is_state c ready s then enqueue here here c s else ok s)
        ≡ ok (with_queue here (c ∷ []) s)
    first = rw (r, enqueue_ready here c s r, e) refl

-- When the run queue is empty, a reschedule leaves the running thread on the processor, but
-- marked as ready.
pub reschedule_locked_alone :
    (here : ℕ) (s : System)
    → (s.threads (s.current here)).state ≡ ThreadState.running
    → s.run_queue here ≡ []
    → (s' : System) × (reschedule_locked here s ≡ ok s')
      × (s'.current here ≡ s.current here)
      × ((s'.threads (s.current here)).state ≡ ThreadState.ready)
reschedule_locked_alone here s r e =
    let c = s.current here in
    let m = mark c s in
    let fine : is_state c ready m ≡ true = rw (==_refl c) refl in
    (
      with_queue here [] (with_queue here [] (with_queue here (c ∷ []) m)),
      reschedule_locked_rest here s r ∙ rest_of_schedule_same here c m fine e,
      refl,
      mark_ready c s,
    )

abbrev calm : ℕ → System → System
calm c s = set_thread c (record (s.threads c) { need_reschedule = false }) s

reschedule_locked_left :
    (here : ℕ) (s : System)
    → is_state (s.current here) running s ≡ false
    → reschedule_locked here s ≡ rest_of_schedule here (s.current here) (calm (s.current here) s)
unfolding reschedule_locked schedule rest_of_schedule
reschedule_locked_left here s r =
    ap (λ b. if b then schedule here (set_state (s.current here) ready s) else schedule here s) r

rest_of_schedule_left :
    (here c t : ℕ) (q : List ℕ) (s : System)
    → is_state c ready s ≡ false
    → is_state t ready s ≡ true
    → (t == c) ≡ false
    → has t q ≡ false
    → s.run_queue here ≡ t ∷ q
    → rest_of_schedule here c s
      ≡ ok (record (set_state t running (with_queue here q (with_queue here q s))) {
        current = update s.current here t;
      })
unfolding rest_of_schedule
rest_of_schedule_left here c t q s rc rt d a e =
    ap
      (λ b. (if b then enqueue here here c s else ok s) >>= λ s2.
        Fcfs.fetch here here s2 >>= dispatch here c)
      rc
    ∙ ap (λ m. m >>= dispatch here c) (fetch_head here t q s e)
    ∙ dispatch_next here t c q (with_queue here q s) d (with_queue_at here q s) a rt

-- A current thread that has a state other than running and ready gives way to the head of the
-- run queue and enters no queue.
pub reschedule_locked_leaves :
    (here t : ℕ) (q : List ℕ) (s : System)
    → is_state (s.current here) running s ≡ false
    → is_state (s.current here) ready s ≡ false
    → (s.current here == t) ≡ false
    → (t == s.current here) ≡ false
    → has t q ≡ false
    → s.run_queue here ≡ t ∷ q
    → (s.threads t).state ≡ ThreadState.ready
    → (s' : System) × (reschedule_locked here s ≡ ok s')
      × (s'.current here ≡ t)
      × (s'.run_queue here ≡ q)
      × (s'.waiters ≡ s.waiters)
      × ((s'.threads (s.current here)).state ≡ (s.threads (s.current here)).state)
      × ((s'.threads t).state ≡ ThreadState.running)
reschedule_locked_leaves here t q s r nr d d' a e rt =
    let c = s.current here in
    let m = calm c s in
    let mt : is_state t ready m ≡ true = rw (d, rt) refl in
    let mc : is_state c ready m ≡ false = rw (==_refl c) nr in
    (
      record (set_state t running (with_queue here q (with_queue here q m))) {
        current = update m.current here t;
      },
      reschedule_locked_left here s r ∙ rest_of_schedule_left here c t q m mc mt d' a e,
      rw (==_refl here) refl,
      rw (==_refl here) refl,
      refl,
      rw (d', ==_refl c) refl,
      rw (==_refl t) refl,
    )
