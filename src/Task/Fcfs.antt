-- ===== src/Task/Fcfs.antt =====
-- The scheduler class of kern/task/scheduler/fcfs/fcfs.cc, one run queue for each processor.
use project_dionysus.Base.{
  ℕ, Bool, true, false, not, ◌&&◌, List, [], ◌∷◌, ◌++◌, Option, none, some, Run, ok, assert, ◌>>◌,
  ◌==◌, if◌then◌else◌, length,
}
use mathlib.Core.List.{reverse}
use project_dionysus.Task.{
  System, ready, dying, dead, soft, hard, update, remove, set_state, set_thread, is_state,
}

-- `here` is the processor that runs the code, `owner` the one whose queue it is.
unfoldable pub enqueue : ℕ → ℕ → ℕ → System → Run System
enqueue here owner t s =
    assert (here == owner)
    >> ok (
        if is_state t dying s
        then record s {
          zombie_queue = update s.zombie_queue owner (s.zombie_queue owner ++ t ∷ []);
        }
        else record s { run_queue = update s.run_queue owner (s.run_queue owner ++ t ∷ []) })

-- A thread that is in no queue is left alone.
unfoldable pub dequeue : ℕ → ℕ → ℕ → System → Run System
dequeue here owner t s =
    assert (here == owner)
    >> ok (record s { run_queue = update s.run_queue owner (remove t (s.run_queue owner)) })

abbrev pub popped : ℕ → List ℕ → System → Option ℕ × System
popped owner [] s = (none, s)
popped owner (t ∷ q) s = (some t, record s { run_queue = update s.run_queue owner q })

unfoldable pub fetch : ℕ → ℕ → System → Run (Option ℕ × System)
fetch here owner s = assert (here == owner) >> ok (popped owner (s.run_queue owner) s)

-- finish_dead_transition of the zombies; their memory and their critical flag are left out.
pub bury : List ℕ → System → System
bury [] s = s
bury (t ∷ ts) s = bury ts (set_state t dead s)

unfoldable pub tick : ℕ → ℕ → System → Run System
unfolding bury
tick here owner s = do
  assert (here == owner)
  let buried =
      bury (s.zombie_queue owner) (record s { zombie_queue = update s.zombie_queue owner [] })
  let cur = s.current here
  ok (set_thread cur (record (buried.threads cur) { need_reschedule = true }) buried)

unfoldable pub workload_size : ℕ → System → ℕ
workload_size owner s = length (s.run_queue owner)

-- The conditions of the three searches of `steal`.
unfoldable pub stealable : ℕ → System → ℕ → Bool
stealable here s t =
    not (s.current here == t)
    && is_state t ready s
    && not (s.threads t).flag_idle
    && not (s.threads t).flag_init

unfoldable pub prefers : ℕ → System → ℕ → Bool
prefers stealer s t = elim (s.threads t).affinity [ none ↦ false | some c ↦ c == stealer ]

unfoldable pub is_soft : System → ℕ → Bool
is_soft s t = elim (s.threads t).affinity_type [ soft ↦ true | hard ↦ false ]

unfoldable pub is_hard : System → ℕ → Bool
is_hard s t = elim (s.threads t).affinity_type [ soft ↦ false | hard ↦ true ]

unfoldable pub first_that : (ℕ → Bool) → List ℕ → Option ℕ
first_that p [] = none
first_that p (t ∷ ts) = if p t then some t else first_that p ts

-- The victim: the last of the queue that prefers the stealer, then the last with soft affinity,
-- then the last with hard affinity.
unfoldable pub victim : ℕ → ℕ → ℕ → System → Option ℕ
unfolding stealable prefers is_soft is_hard first_that
victim here owner stealer s =
    let q = reverse (s.run_queue owner) in
    elim (first_that (λ t. stealable here s t && prefers stealer s t) q) [
      | some t ↦ some t
      | none ↦ elim (first_that (λ t. stealable here s t && is_soft s t) q) [
        | some t ↦ some t
        | none ↦ first_that (λ t. stealable here s t && is_hard s t) q
      ]
    ]

unfoldable pub steal : ℕ → ℕ → ℕ → System → Option ℕ × System
steal here owner stealer s = elim (victim here owner stealer s) [
  | none ↦ (none, s)
  | some t ↦
      (some t, record s { run_queue = update s.run_queue owner (remove t (s.run_queue owner)) })
]
