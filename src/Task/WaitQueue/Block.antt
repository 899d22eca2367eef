-- ===== src/Task/WaitQueue/Block.antt =====
-- Blocking: the current thread joins the wait queue and another takes the processor.
use project_dionysus.Base.{
  ℕ, ◌≡◌, refl, ◌∙◌, ap, subst, All, Bool, false, List, [], ◌∷◌, ◌++◌, Option, none, ok, fault,
  arith, ==_refl,
}
use project_dionysus.Task.{
  System, ThreadState, ready, running, blocked, blocked_read_lock, is_state, state_eq, has,
  Distinct,
}
use project_dionysus.Task.Scheduler.{reschedule_locked}
use project_dionysus.Task.Scheduler.RoundRobin.{IsRunnable, apart_facts}
use project_dionysus.Task.Scheduler.RoundRobin.Leave.{
  reschedule_locked_leaves, reschedule_locked_alone,
}
use project_dionysus.Task.WaitQueue.{
  ResourceOwnership, normal, reader, waiting, block_etc, block_now, enlist,
}

abbrev pub blocked_for : ResourceOwnership → ThreadState
blocked_for normal = blocked
blocked_for reader = blocked_read_lock

blocked_for_left :
    (reason : ResourceOwnership)
    → (state_eq (blocked_for reason) running ≡ false)
      × (state_eq (blocked_for reason) ready ≡ false)
blocked_for_left normal = (refl, refl)
blocked_for_left reader = (refl, refl)

module _ (here t w : ℕ) (q : List ℕ) (s : System) (v : IsRunnable here s)
    (e : s.run_queue here ≡ t ∷ q) where
  abbrev c : ℕ
  c = s.current here

  block_now_waits :
      (now : ℕ) (reason : ResourceOwnership)
      → (s' : System) × (block_now here w none now reason false s ≡ ok (waiting none s'))
        × (s'.waiters w ≡ s.waiters w ++ c ∷ [])
        × (s'.current here ≡ t)
        × (s'.run_queue here ≡ q)
        × ((s'.threads c).state ≡ blocked_for reason)
        × ((s'.threads t).state ≡ ThreadState.running)
  unfolding block_now enlist
  block_now_waits now reason =
      let f =
        apart_facts c t q (subst (λ x. has c x ≡ false) e v.apart) (subst Distinct e v.distinct) in
      let s1 = enlist c w reason false s in
      let (rt, rest) = subst (All (λ x. (s.threads x).state ≡ ThreadState.ready)) e v.ready in
      let own : (s1.threads c).state ≡ blocked_for reason = rw (==_refl c) refl in
      let idle : is_state c running s1 ≡ false =
        ap (λ x. state_eq x running) own ∙ (blocked_for_left reason).0 in
      let busy : is_state c ready s1 ≡ false =
        ap (λ x. state_eq x ready) own ∙ (blocked_for_left reason).1 in
      let at : (s1.threads t).state ≡ ThreadState.ready = rw (f.0) rt in
      let (s', run, next, queue, same, mine, other) =
        reschedule_locked_leaves here t q s1 idle busy f.0 f.1 (subst Distinct e v.distinct).0 e
          at in
      (s', rw run refl, ap (λ g. g w) same ∙ rw (==_refl w) refl, next, queue, mine ∙ own, other)

  -- On a processor whose current thread runs and whose run queue holds other ready threads,
  -- each once, blocking without a deadline and without interruption puts the current thread at
  -- the end of the wait queue, in the blocked state for its reason, and the head of the run
  -- queue runs.
  pub block_etc_waits :
      (now mask : ℕ) (reason : ResourceOwnership)
      → (s' : System) × (block_etc here w none now mask reason false s ≡ ok (waiting none s'))
        × (s'.waiters w ≡ s.waiters w ++ s.current here ∷ [])
        × (s'.current here ≡ t)
        × (s'.run_queue here ≡ q)
        × ((s'.threads (s.current here)).state ≡ blocked_for reason)
        × ((s'.threads t).state ≡ ThreadState.running)
  unfolding block_etc
  block_etc_waits now mask reason =
      let (s', run, a, b, d, f, g) = block_now_waits now reason in
      (s', rw v.running run, a, b, d, f, g)

-- A thread that was rescheduled while its run queue was empty still has the processor, but a call
-- by which it would block fails its assertion.
pub block_etc_alone :
    (here w : ℕ) (ddl : Option ℕ) (now mask : ℕ) (reason : ResourceOwnership) (intr : Bool)
    (s : System)
    → (s.threads (s.current here)).state ≡ ThreadState.running
    → s.run_queue here ≡ []
    → (s' : System) × (reschedule_locked here s ≡ ok s')
      × (s'.current here ≡ s.current here)
      × (block_etc here w ddl now mask reason intr s' ≡ fault)
unfolding block_etc
block_etc_alone here w ddl now mask reason intr s r e =
    let (s', run, same, state) = reschedule_locked_alone here s r e in
    let st : (s'.threads (s'.current here)).state ≡ ThreadState.ready =
      ap (λ c. (s'.threads c).state) same ∙ state in
    (s', run, same, ground (arith, st))
