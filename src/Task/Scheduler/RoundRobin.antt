-- ===== src/Task/Scheduler/RoundRobin.antt =====
-- Rescheduling takes the threads of a processor in turn.
pub mod Leave
use project_dionysus.Base.{
  has-append, Distinct-append, ℕ, zero, suc, ◌≡◌, refl, ◌∙◌, ap, subst, Bool, true, false, ◌||◌,
  List, [], ◌∷◌, ◌++◌, some, Run, ok, ◌>>=◌, ◌==◌, if◌then◌else◌, All, All-append, get_elem?, arith,
  ==_refl,
}
use project_dionysus.Task.{
  has, Distinct, Thread, System, ThreadState, ready, running, update, set_state, set_thread,
  is_state, state_eq, remove,
}
use project_dionysus.Task.Fcfs
use project_dionysus.Task.Fcfs.{popped}
use project_dionysus.Task.Scheduler.{enqueue, switch_to, dispatch, schedule, reschedule_locked}

-- The current thread of the processor runs and waits in no run queue; the threads of the run
-- queue are ready, and each is there once.
pub record IsRunnable (here : ℕ) (s : System) : Type 0 where
  pub running : (s.threads (s.current here)).state ≡ ThreadState.running
  pub apart : has (s.current here) (s.run_queue here) ≡ false
  pub distinct : Distinct (s.run_queue here)
  pub ready : All (λ t. (s.threads t).state ≡ ThreadState.ready) (s.run_queue here)

remove_absent : (x : ℕ) (xs : List ℕ) → has x xs ≡ false → remove x xs ≡ xs
unfolding remove
remove_absent x [] h = refl
remove_absent x (y ∷ ys) h = ground (arith, remove_absent x ys)

pub enqueue_ready :
    (here x : ℕ) (s : System)
    → is_state x ready s ≡ true
    → enqueue here here x s
      ≡ ok (record s { run_queue = update s.run_queue here (s.run_queue here ++ x ∷ []) })
unfolding enqueue Fcfs.enqueue
enqueue_ready here x s h = ground (arith, ==_refl here)

pub fetch_head :
    (here t : ℕ) (q : List ℕ) (s : System)
    → s.run_queue here ≡ t ∷ q
    → Fcfs.fetch here here s ≡ ok (some t, record s { run_queue = update s.run_queue here q })
unfolding Fcfs.fetch
fetch_head here t q s h = rw (==_refl here, h) refl

pub dequeue_absent :
    (here t : ℕ) (q : List ℕ) (s : System)
    → s.run_queue here ≡ q
    → has t q ≡ false
    → Fcfs.dequeue here here t s ≡ ok (record s { run_queue = update s.run_queue here q })
unfolding Fcfs.dequeue
dequeue_absent here t q s h a = rw (==_refl here, h, remove_absent t q a) refl

switch_to-ready :
    (here t : ℕ) (s : System)
    → is_state t ready s ≡ true
    → switch_to here t s ≡ ok (record (set_state t running s) { current = update s.current here t })
unfolding switch_to
switch_to-ready here t s h = rw h refl

abbrev pub with_queue : ℕ → List ℕ → System → System
with_queue here q s = record s { run_queue = update s.run_queue here q }

pub with_queue_at : (here : ℕ) (q : List ℕ) (s : System) → (with_queue here q s).run_queue here ≡ q
with_queue_at here q s = rw (==_refl here) refl

pub dispatch_next :
    (here t c : ℕ) (q : List ℕ) (s : System)
    → (t == c) ≡ false
    → s.run_queue here ≡ q
    → has t q ≡ false
    → is_state t ready s ≡ true
    → dispatch here c (some t, s)
      ≡ ok
          (record (set_state t running (with_queue here q s)) { current = update s.current here t })
unfolding dispatch
dispatch_next here t c q s d e a r =
    rw (dequeue_absent here t q s e a, d) (switch_to-ready here t (with_queue here q s) r)

-- The state after a round of `schedule` from the state `s` in which `c` is marked.
abbrev pub handed : ℕ → ℕ → ℕ → List ℕ → System → System
handed here c t q s =
    record (set_state t running
      (with_queue here q (with_queue here q (with_queue here (t ∷ q) s)))) {
        current = update s.current here t;
      }

pub rest_of_schedule : ℕ → ℕ → System → Run System
rest_of_schedule here c s1 = do
  s2 ← (if is_state c ready s1 then enqueue here here c s1 else ok s1)
  fetched ← Fcfs.fetch here here s2
  dispatch here c fetched

rest_of_schedule-handed :
    (here c t : ℕ) (q : List ℕ) (s : System)
    → is_state c ready s ≡ true
    → is_state t ready s ≡ true
    → (t == c) ≡ false
    → has t (q ++ c ∷ []) ≡ false
    → s.run_queue here ≡ t ∷ q
    → rest_of_schedule here c s ≡ ok (handed here c t (q ++ c ∷ []) s)
unfolding rest_of_schedule
rest_of_schedule-handed here c t q s rc rt d a e =
    ap (λ m. m >>= λ s2. Fcfs.fetch here here s2 >>= dispatch here c) first
    ∙ ap (λ m. m >>= dispatch here c) second
    ∙ dispatch_next here t c q' (with_queue here q' (with_queue here (t ∷ q') s)) d
        (with_queue_at here q' (with_queue here (t ∷ q') s)) a rt
  where
    q' : List ℕ
    q' = q ++ c ∷ []

    first :
        (if is_state c ready s then enqueue here here c s else ok s)
        ≡ ok (with_queue here (t ∷ q') s)
    first = rw (rc, enqueue_ready here c s rc, e) refl

    second :
        Fcfs.fetch here here (with_queue here (t ∷ q') s)
        ≡ ok (some t, with_queue here q' (with_queue here (t ∷ q') s))
    second = fetch_head here t q' (with_queue here (t ∷ q') s) (with_queue_at here (t ∷ q') s)

abbrev pub AllReady : (ℕ → Thread) → List ℕ → Type 0
AllReady threads q = All (λ t. (threads t).state ≡ ThreadState.ready) q

AllReady-update :
    (threads : ℕ → Thread) (t : ℕ) (v : Thread) (q : List ℕ)
    → has t q ≡ false
    → AllReady threads q
    → AllReady (update threads t v) q
AllReady-update threads t v [] a h = tt
AllReady-update threads t v (x ∷ q) a h = ground (arith, AllReady-update threads t v q)

handed-IsRunnable :
    (here c t : ℕ) (q : List ℕ) (s : System)
    → has t q ≡ false
    → Distinct q
    → AllReady s.threads q
    → IsRunnable here (handed here c t q s)
handed-IsRunnable here c t q s a d r = record {
  running = rw (==_refl here, ==_refl t) refl;
  apart = rw (==_refl here) a;
  distinct = rw (==_refl here) d;
  ready =
      rw (==_refl here)
        (AllReady-update s.threads t (record (s.threads t) { state = ThreadState.running }) q a r);
}

-- The mark: the thread is ready and its request to be rescheduled is gone.
abbrev pub mark : ℕ → System → System
mark c s =
    set_thread c (record ((set_state c ready s).threads c) { need_reschedule = false })
      (set_state c ready s)

pub mark_ready : (c : ℕ) (s : System) → ((mark c s).threads c).state ≡ ThreadState.ready
mark_ready c s = rw (==_refl c) refl

pub mark_other : (c t : ℕ) (s : System) → (c == t) ≡ false → ((mark c s).threads t) ≡ s.threads t
mark_other c t s d = rw d refl

mark-AllReady :
    (c : ℕ) (q : List ℕ) (s : System)
    → has c q ≡ false
    → AllReady s.threads q
    → AllReady (mark c s).threads q
mark-AllReady c [] s a h = tt
mark-AllReady c (x ∷ q) s a h =
    let d : (c == x) ≡ false = ground arith in
    let a' : has c q ≡ false = ground arith in
    (ap (λ v. v.state) (mark_other c x s d) ∙ h.0, mark-AllReady c q s a' h.1)

pub reschedule_locked_rest :
    (here : ℕ) (s : System)
    → (s.threads (s.current here)).state ≡ ThreadState.running
    → reschedule_locked here s ≡ rest_of_schedule here (s.current here) (mark (s.current here) s)
unfolding reschedule_locked schedule rest_of_schedule
reschedule_locked_rest here s r =
    ap
      (λ b.
        if state_eq b running
        then schedule here (set_state (s.current here) ready s)
        else schedule here s)
      r

pub apart_facts :
    (c t : ℕ) (q : List ℕ)
    → has c (t ∷ q) ≡ false
    → Distinct (t ∷ q)
    → ((c == t) ≡ false)
      × ((t == c) ≡ false)
      × (has c q ≡ false)
      × (has t (q ++ c ∷ []) ≡ false)
      × Distinct (q ++ c ∷ [])
apart_facts c t q h d =
    let a : (c == t) ≡ false = ground arith in
    let b : has c q ≡ false = ground arith in
    let e : (t == c) ≡ false = ground arith in
    (a, e, b, rw (has-append t q (c ∷ []), d.0, e) refl, Distinct-append q c d.1 b)

-- One reschedule hands the processor to the head of the run queue, and puts the thread that ran
-- at its end.
reschedule_locked_rotates :
    (here : ℕ) (s : System) (t : ℕ) (q : List ℕ)
    → IsRunnable here s
    → s.run_queue here ≡ t ∷ q
    → (s' : System) × (reschedule_locked here s ≡ ok s')
      × (s'.current here ≡ t)
      × (s'.run_queue here ≡ q ++ s.current here ∷ [])
      × IsRunnable here s'
reschedule_locked_rotates here s t q v e =
    let c = s.current here in
    let f =
      apart_facts c t q (subst (λ x. has c x ≡ false) e v.apart) (subst Distinct e v.distinct) in
    let m = mark c s in
    let q' = q ++ c ∷ [] in
    let r : AllReady s.threads (t ∷ q) = subst (AllReady s.threads) e v.ready in
    let rq : AllReady m.threads q' =
      All-append (λ x. (m.threads x).state ≡ ThreadState.ready) q (c ∷ [])
        (mark-AllReady c q s f.2 r.1) (mark_ready c s, tt) in
    let rt : is_state t ready m ≡ true = rw (f.0, r.0) refl in
    let rc : is_state c ready m ≡ true = rw (==_refl c) refl in
    (
      handed here c t q' m,
      reschedule_locked_rest here s v.running
          ∙ rest_of_schedule-handed here c t q m rc rt f.1 f.3 e,
      rw (==_refl here) refl,
      rw (==_refl here) refl,
      handed-IsRunnable here c t q' m f.3 f.4 rq,
    )

get_elem?-append : (q r : List ℕ) (k t : ℕ) → get_elem? q k ≡ some t → get_elem? (q ++ r) k ≡ some t
get_elem?-append [] r k t h = absurd (ground arith)
get_elem?-append (x ∷ q) r zero t h = h
get_elem?-append (x ∷ q) r (suc k) t h = get_elem?-append q r k t h

-- `reschedule_locked`, n times in a row.
unfoldable pub reschedule_times : ℕ → ℕ → System → Run System
reschedule_times zero here s = ok s
reschedule_times (suc n) here s = reschedule_locked here s >>= reschedule_times n here

fair_from :
    (k here : ℕ) (queue : List ℕ) (s : System) (t : ℕ)
    → IsRunnable here s
    → s.run_queue here ≡ queue
    → get_elem? queue k ≡ some t
    → (s' : System) × (reschedule_times (suc k) here s ≡ ok s')
      × (s'.current here ≡ t)
      × IsRunnable here s'
unfolding reschedule_times
fair_from k here [] s t v e h = absurd (ground arith)
fair_from zero here (u ∷ q) s t v e h =
    let (s1, run, c, r, v1) = reschedule_locked_rotates here s u q v e in
    (s1, rw run refl, c ∙ ground arith, v1)
fair_from (suc k) here (u ∷ q) s t v e h =
    let (s1, run, c, r, v1) = reschedule_locked_rotates here s u q v e in
    let (s2, runs, c2, v2) =
      fair_from k here (q ++ s.current here ∷ []) s1 t v1 r
        (get_elem?-append q (s.current here ∷ []) k t h) in
    (s2, rw (run, runs) refl, c2, v2)

-- From a state in which the current thread runs and the threads of the run queue are ready and
-- distinct, after k + 1 reschedules with nothing in between, none of which faults, the thread
-- that was at index k of the run queue runs.
pub reschedule_times_fair :
    (k here : ℕ) (s : System) (t : ℕ)
    → IsRunnable here s
    → get_elem? (s.run_queue here) k ≡ some t
    → (s' : System) × (reschedule_times (suc k) here s ≡ ok s')
      × (s'.current here ≡ t)
      × IsRunnable here s'
reschedule_times_fair k here s t v h = fair_from k here (s.run_queue here) s t v refl h
