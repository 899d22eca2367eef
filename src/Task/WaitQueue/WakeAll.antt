-- ===== src/Task/WaitQueue/WakeAll.antt =====
-- Waking all threads of a wait queue keeps their order.
use project_dionysus.Base.{
  ℕ, ◌≡◌, refl, ◌∙◌, ap, sym, subst, false, not, List, [], ◌∷◌, ◌++◌, Option, none, ErrorCode, ok,
  assert, ◌>>=◌, ◌>>◌, All, arith, ==_refl,
}
use mathlib.Core.List.{append_assoc, append-nil}
use project_dionysus.Task.{Thread, System, ThreadState, ready, set_state, has, Distinct}
use project_dionysus.Task.Threads.{All-update}
use project_dionysus.Task.Scheduler.{unblock, unblock_all}
use project_dionysus.Task.WaitQueue.{dequeue_all, wake_all}
use project_dionysus.Task.WaitQueue.Wake.{
  IsWaiting, taken, dequeued, dequeue_first, unblocked, unblock_here,
}

-- A thread that has left its queue with a code.
pub record IsFreed (code : Option ErrorCode) (t : Thread) : Type 0 where
  pub anywhere : t.affinity ≡ none
  pub busy : t.flag_idle ≡ false
  pub told : t.block_code ≡ code
  pub detached : t.blocking_on ≡ none

IsFreed-taken :
    (w : ℕ) (code : Option ErrorCode) (t : Thread) → IsWaiting w t → IsFreed code (taken w code t)
IsFreed-taken w code t v = record {
  anywhere = v.anywhere;
  busy = v.busy;
  told = refl;
  detached = refl;
}

dequeue_all-lem :
    (w : ℕ) (q : List ℕ) (code : Option ErrorCode) (s : System)
    → s.waiters w ≡ q
    → Distinct q
    → All (λ x. IsWaiting w (s.threads x)) q
    → (s' : System) × (dequeue_all w q code s ≡ ok s')
      × (s'.waiters w ≡ [])
      × (s'.run_queue ≡ s.run_queue)
      × All (λ x. IsFreed code (s'.threads x)) q
      × ((x : ℕ) → has x q ≡ false → s'.threads x ≡ s.threads x)
unfolding dequeue_all
dequeue_all-lem w [] code s e d v = (s, refl, e, refl, tt, λ x h. refl)
dequeue_all-lem w (t ∷ q) code s e d v =
    let s1 = dequeued w t q code s in
    let rest = All-update (IsWaiting w) s.threads t (taken w code (s.threads t)) q d.0 v.1 in
    let (s', run, gone, same, freed, old) =
      dequeue_all-lem w q code s1 (rw (==_refl w) refl) d.1 rest in
    let first : s'.threads t ≡ taken w code (s.threads t) = old t d.0 ∙ rw (==_refl t) refl in
    (
      s',
      rw (dequeue_first w t q code s e v.0) run,
      gone,
      same,
      (subst (IsFreed code) (sym first) (IsFreed-taken w code (s.threads t) v.0), freed),
      λ x h. old x (ground arith) ∙ ground arith,
    )

pub IsReady : Option ErrorCode → Thread → Type 0
IsReady code t = (t.state ≡ ThreadState.ready) × (t.block_code ≡ code) × (t.blocking_on ≡ none)

unblock_all-lem :
    (cpus here : ℕ) (q : List ℕ) (code : Option ErrorCode) (s : System)
    → Distinct q
    → All (λ x. IsFreed code (s.threads x)) q
    → (s' : System) × (unblock_all cpus here q s ≡ ok s')
      × (s'.run_queue here ≡ s.run_queue here ++ q)
      × (s'.waiters ≡ s.waiters)
      × All (λ x. IsReady code (s'.threads x)) q
      × ((x : ℕ) → has x q ≡ false → s'.threads x ≡ s.threads x)
unfolding unblock_all IsReady
unblock_all-lem cpus here [] code s d v = (s, refl, sym (append-nil _), refl, tt, λ x h. refl)
unblock_all-lem cpus here (t ∷ q) code s d v =
    let s0 = set_state t ready s in
    let s1 = unblocked here t s0 in
    let p = IsFreed code in
    let once = All-update p s.threads t (record (s.threads t) { state = ready }) q d.0 v.1 in
    let twice = All-update p s0.threads t (record (s0.threads t) { state = ready }) q d.0 once in
    let (s', run, order, same, fine, old) = unblock_all-lem cpus here q code s1 d.1 twice in
    let head = v.0 in
    let now : IsReady code (s1.threads t) = rw (==_refl t) (refl, head.told, head.detached) in
    let anywhere : (s0.threads t).affinity ≡ none = rw (==_refl t) head.anywhere in
    (
      s',
      ap (λ b. assert (not b) >> (unblock cpus here t s0 >>= λ r. unblock_all cpus here q r.1))
            head.busy
          ∙ ap (λ m. m >>= λ r. unblock_all cpus here q r.1) (unblock_here cpus here t s0 anywhere)
          ∙ run,
      order ∙ rw (==_refl here) (append_assoc (s.run_queue here) (t ∷ []) q),
      same,
      (subst (IsReady code) (sym (old t d.0)) now, fine),
      λ x h. old x (ground arith) ∙ ground arith,
    )

-- Waking all threads of a wait queue without rescheduling, when each is there once and may run
-- on any processor, empties the queue, puts its threads in the same order at the end of the run
-- queue of this processor, and makes each of them ready and told the code.
pub wake_all_order :
    (cpus here w : ℕ) (q : List ℕ) (code : Option ErrorCode) (s : System)
    → s.waiters w ≡ q
    → Distinct q
    → All (λ x. IsWaiting w (s.threads x)) q
    → (s' : System) × (wake_all cpus here w false code s ≡ ok s')
      × (s'.waiters w ≡ [])
      × (s'.run_queue here ≡ s.run_queue here ++ q)
      × All (λ x. IsReady code (s'.threads x)) q
unfolding wake_all
wake_all_order cpus here w [] code s e d v = (s, rw e refl, e, sym (append-nil _), tt)
wake_all_order cpus here w (t ∷ q) code s e d v =
    let (s1, run1, gone, same1, freed, old1) = dequeue_all-lem w (t ∷ q) code s e d v in
    let (s2, run2, order, same2, fine, old2) = unblock_all-lem cpus here (t ∷ q) code s1 d freed in
    (
      s2,
      ground (arith, e, run1, run2),
      ap (λ f. f w) same2 ∙ gone,
      order ∙ ap (λ f. f here ++ (t ∷ q)) same1,
      fine,
    )
