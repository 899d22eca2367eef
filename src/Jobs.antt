-- ===== src/Jobs.antt =====
-- Jobs and their processes: kern/task/job/job.cc and the killing of kern/task/process/process.cc.
-- The lists of children are sequences of addresses; locks are whether this CPU holds them. The
-- threads are a state `T`, and killing one is a parameter. The loops run on fuel.
pub mod Kill
pub mod Leaf
pub mod Height
mod Tests
use project_dionysus.Base.{
  ℕ, zero, suc, ◌+◌, ◌-◌, ◌%◌, ◌^◌, ◌≡◌, Bool, true, false, not, ◌&&◌, ◌||◌, Option, none, some,
  List, [], ◌∷◌, ◌++◌, Run, ok, fault, assert, deref, ◌>>=◌, ◌>>◌, Result, value, error, ErrorCode,
  error_out_of_bound, error_memory_alloc, ◌==◌, if◌then◌else◌, has,
}

pub data JobStatus : Type 0 where
  job_ready job_killing job_dead : JobStatus

-- The fields of a job. A policy is a number.
pub record Job : Type 0 where
  pub policy : ℕ
  pub parent : Option ℕ
  pub ret_code : ℕ
  pub job_status : JobStatus
  pub child_jobs : List ℕ
  pub child_processes : List ℕ
  pub max_height : ℕ
  pub locked : Bool

pub data Status : Type 0 where
  initial running dying dead : Status

-- The fields of a process, as far as killing goes.
pub record Process : Type 0 where
  pub job : ℕ
  pub status : Status
  pub exit_code : ℕ
  pub threads : List ℕ
  pub critical_to : Option ℕ
  pub kill_critical_when_nonzero_code : Bool
  pub held : Bool

-- All jobs, processes and threads.
pub record Tree (T : Type 0) : Type 0 where
  pub jobs : ℕ → Job
  pub processes : ℕ → Process
  pub all_threads : T

abbrev pub job_max_height : ℕ
job_max_height = 16

abbrev pub is_ready : JobStatus → Bool
is_ready job_ready = true
is_ready _ = false

abbrev pub is_killing : JobStatus → Bool
is_killing job_killing = true
is_killing _ = false

abbrev pub is_dead : Status → Bool
is_dead dead = true
is_dead _ = false

abbrev pub is_dying : Status → Bool
is_dying dying = true
is_dying _ = false

abbrev pub is_empty {ℓ} : {A : Type ℓ} → List A → Bool
is_empty [] = true
is_empty (x ∷ xs) = false

-- Taking a link out of its list.
abbrev pub unlink : ℕ → List ℕ → List ℕ
unlink x [] = []
unlink x (y ∷ ys) = if x == y then ys else y ∷ unlink x ys

-- The constructor of a job, and create and create_root; `alloc` says whether there is memory.
unfoldable pub new_job : Option Job → Option ℕ → ℕ → Job
new_job parent at policy = record {
  policy = policy;
  parent = at;
  ret_code = 0;
  job_status = job_ready;
  child_jobs = [];
  child_processes = [];
  max_height = elim parent [
    | none ↦ job_max_height
    | some p ↦ (p.max_height + 2 ^ 64 - 1) % 2 ^ 64
  ];
  locked = false;
}

unfoldable pub is_ready_for_dead_transition_locked : Job → Bool
is_ready_for_dead_transition_locked v =
    is_killing v.job_status && is_empty v.child_jobs && is_empty v.child_processes

module _ {T : Type 0} where
  abbrev pub set_job : ℕ → Job → Tree T → Tree T
  set_job j v t = record t { jobs = λ i. if j == i then v else t.jobs i }

  abbrev pub set_process : ℕ → Process → Tree T → Tree T
  set_process p v t = record t { processes = λ i. if p == i then v else t.processes i }

  unfoldable pub create : Bool → Option ℕ → Tree T → Run (Result Job)
  create alloc none t = fault
  create alloc (some p) t =
      let parent = t.jobs p in
      if parent.max_height == 0
      then ok (error error_out_of_bound)
      else (if alloc
          then (assert (not parent.locked)
              >> ok (value (new_job (some parent) (some p) parent.policy)))
          else ok (error error_memory_alloc))

  unfoldable pub lock_job : ℕ → Tree T → Run (Tree T)
  lock_job j t =
      if (t.jobs j).locked then fault else ok (set_job j (record (t.jobs j) { locked = true }) t)

  abbrev pub unlock_job : ℕ → Tree T → Tree T
  unlock_job j t = set_job j (record (t.jobs j) { locked = false }) t

  -- `detached` is what is_empty_or_detached says of the child's link.
  unfoldable pub add_child_job : Bool → ℕ → ℕ → Tree T → Run (Bool × Tree T)
  add_child_job detached child j t = lock_job j t >>= λ t1.
      (let v = t1.jobs j in
        if is_ready v.job_status
        then (assert detached
            >> ok (
              true,
              unlock_job j (set_job j (record v { child_jobs = v.child_jobs ++ child ∷ [] }) t1),
            ))
        else ok (false, unlock_job j t1))

  unfoldable pub add_child_process : ℕ → ℕ → Tree T → Run (Tree T)
  add_child_process proc j t = do
    t1 ← lock_job j t
    let v = t1.jobs j
    ok (unlock_job j (set_job j (record v { child_processes = proc ∷ v.child_processes }) t1))

  -- remove_child_job and remove_child_process up to the end of the lock's scope; the flag is
  -- `suicide` and `should_die`.
  unfoldable pub drop_child_job : ℕ → ℕ → Tree T → Run (Bool × Tree T)
  drop_child_job child j t = do
    t1 ← lock_job j t
    let v = t1.jobs j
    let v1 = record v { child_jobs = unlink child v.child_jobs }
    ok (
        if has child v.child_jobs
        then (is_ready_for_dead_transition_locked v1, unlock_job j (set_job j v1 t1))
        else (false, unlock_job j t1))

  unfoldable pub drop_child_process : ℕ → ℕ → Tree T → Run (Bool × Tree T)
  drop_child_process child j t = do
    t1 ← lock_job j t
    let v = t1.jobs j
    let v1 = record v { child_processes = unlink child v.child_processes }
    ok (
        if has child v.child_processes
        then (is_ready_for_dead_transition_locked v1, unlock_job j (set_job j v1 t1))
        else (false, unlock_job j t1))

  -- The first scope of finish_dead_transition_unlocked.
  unfoldable pub assert_parent_alive : ℕ → Tree T → Run (Unit {0})
  assert_parent_alive j t = elim (t.jobs j).parent [
    | none ↦ ok tt
    | some p ↦
        assert (not (t.jobs p).locked)
        >> assert (elim (t.jobs p).job_status [ job_dead ↦ false | _ ↦ true ])
  ]

  -- finish_dead_transition_unlocked, with remove_from_job_trees and remove_child_job of the parent.
  unfoldable pub finish_dead_transition_unlocked : ℕ → ℕ → Tree T → Run (Tree T)
  finish_dead_transition_unlocked zero j t = fault
  finish_dead_transition_unlocked (suc fuel) j t = do
    assert_parent_alive j t
    t1 ← lock_job j t
    let t2 = unlock_job j (set_job j (record (t1.jobs j) { job_status = job_dead }) t1)
    p ← deref (t2.jobs j).parent
    (suicide, t3) ← drop_child_job j p t2
    let rest = finish_dead_transition_unlocked fuel p t3
    if suicide then rest else ok t3

  unfoldable pub remove_child_job : ℕ → ℕ → ℕ → Tree T → Run (Tree T)
  remove_child_job fuel child j t = drop_child_job child j t >>= λ r.
      (if r.0 then finish_dead_transition_unlocked fuel j r.1 else ok r.1)

  unfoldable pub remove_child_process : ℕ → ℕ → ℕ → Tree T → Run (Tree T)
  remove_child_process fuel child j t = drop_child_process child j t >>= λ r.
      (if r.0 then finish_dead_transition_unlocked fuel j r.1 else ok r.1)

-- TASK_RETCODE_CRITICAL_PROCESS_KILL is a parameter, as is killing one thread.
module _ {T : Type 0} (critical_process_kill : ℕ) (kill_thread : ℕ → T → Run T) where
  unfoldable pub kill_all_threads_locked : List ℕ → T → Run T
  kill_all_threads_locked [] s = ok s
  kill_all_threads_locked (x ∷ xs) s = kill_thread x s >>= kill_all_threads_locked xs

  -- process::set_status_locked, with lock_ held by the caller.
  unfoldable pub set_status_locked : ℕ → Status → Tree T → Run (Tree T)
  set_status_locked p st t =
      let v = t.processes p in
      let t1 = set_process p (record v { status = st }) t in
      let killed = kill_all_threads_locked v.threads t1.all_threads >>= λ s.
      ok (record t1 { all_threads = s }) in
      if is_dead v.status && not (is_dead st)
      then fault
      else (if is_dead v.status
          then ok t
          else (if is_dying st then (if is_dying v.status then ok t else killed) else ok t1))

  -- `kill_job` is the job's kill.
  unfoldable pub finish_dead_transition :
      ℕ → (ℕ → ℕ → Tree T → Run (Bool × Tree T)) → ℕ → Tree T → Run (Tree T)
  finish_dead_transition fuel kill_job p t = do
    t1 ← remove_child_process fuel p (t.processes p).job t
    assert (not (t1.processes p).held)
    t2 ← set_status_locked p dead t1
    let v = t2.processes p
    elim v.critical_to [
      | none ↦ ok t2
      | some j ↦
          if not v.kill_critical_when_nonzero_code || not (v.exit_code == 0)
          then (kill_job critical_process_kill j t2 >>= λ r. ok r.1)
          else ok t2
    ]

  unfoldable pub process_kill :
      ℕ → (ℕ → ℕ → Tree T → Run (Bool × Tree T)) → ℕ → ℕ → Tree T → Run (Tree T)
  process_kill fuel kill_job code p t =
      let v = t.processes p in
      let t1 = if is_dying v.status then t else set_process p (record v { exit_code = code }) t in
      if v.held
      then fault
      else (if is_dead v.status
          then ok t
          else (if is_empty v.threads
              then (set_status_locked p dead t1 >>= finish_dead_transition fuel kill_job p)
              else set_status_locked p dying t1))

  -- The two loops of kill.
  unfoldable pub kill_child_jobs :
      ℕ → (ℕ → ℕ → Tree T → Run (Bool × Tree T)) → ℕ → ℕ → Tree T → Run (Tree T)
  kill_child_jobs zero kill_job code j t = fault
  kill_child_jobs (suc fuel) kill_job code j t =
      let v = t.jobs j in
      elim v.child_jobs [
        | [] ↦ ok t
        | top ∷ (rest → _) ↦
            kill_job code top (set_job j (record v { child_jobs = rest }) t) >>= λ r.
            kill_child_jobs fuel kill_job code j r.1
      ]

  unfoldable pub kill_child_processes :
      ℕ → (ℕ → ℕ → Tree T → Run (Bool × Tree T)) → ℕ → ℕ → Tree T → Run (Tree T)
  kill_child_processes zero kill_job code j t = fault
  kill_child_processes (suc fuel) kill_job code j t =
      let v = t.jobs j in
      elim v.child_processes [
        | [] ↦ ok t
        | top ∷ (rest → _) ↦
            process_kill fuel kill_job code top (set_job j (record v { child_processes = rest }) t)
            >>= kill_child_processes fuel kill_job code j
      ]

  unfoldable pub kill : ℕ → ℕ → ℕ → Tree T → Run (Bool × Tree T)
  kill zero code j t = fault
  kill (suc fuel) code j t =
      let go = (λ (t1 : Tree T). do
        let v = t1.jobs j
        t2 ←
            kill_child_jobs fuel (kill fuel) code j
              (set_job j (record v { ret_code = code; job_status = job_killing }) t1)
        t3 ← kill_child_processes fuel (kill fuel) code j t2
        let t4 = unlock_job j t3
        (if is_ready_for_dead_transition_locked (t3.jobs j)
            then (finish_dead_transition_unlocked fuel j t4 >>= λ t5. ok (true, t5))
            else ok (true, t4))) in
      lock_job j t >>= λ t1.
      (if is_ready (t1.jobs j).job_status then go t1 else ok (false, unlock_job j t1))
