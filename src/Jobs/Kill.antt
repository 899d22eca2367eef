-- ===== src/Jobs/Kill.antt =====
-- Killing a job: one without children, the root, and one with a child.
use project_dionysus.Base.{
  ℕ, zero, suc, ◌≡◌, refl, ◌∙◌, Bool, true, false, Option, none, some, List, [], ◌∷◌, Run, ok,
  fault, ◌==◌, if◌then◌else◌, arith, ==_refl, bind_ok, bind_fault, ◌>>=◌,
}
use project_dionysus.Jobs.{
  Job, Process, Tree, job_ready, job_killing, dead, is_ready, is_dead, assert_parent_alive, set_job,
  set_process, is_dying, kill, kill_child_jobs, kill_child_processes,
  finish_dead_transition_unlocked, lock_job, is_ready_for_dead_transition_locked, process_kill,
  set_status_locked, finish_dead_transition, remove_child_process, drop_child_process, unlock_job,
}

pub if_true {ℓ} :
    {A : Type ℓ} (b : Bool) {x r : A} (y : A) → b ≡ true → x ≡ r → (if b then x else y) ≡ r
if_true b y e k = rw e k

-- A job that is ready, not locked, and has no children.
pub record IsLeaf (v : Job) (parent : Option ℕ) : Type 0 where
  pub status : v.job_status ≡ job_ready
  pub free : v.locked ≡ false
  pub jobs : v.child_jobs ≡ []
  pub processes : v.child_processes ≡ []
  pub above : v.parent ≡ parent

module _ {T : Type 0} where
  pub lock_job_free :
      (j : ℕ) (t : Tree T)
      → (t.jobs j).locked ≡ false
      → lock_job j t ≡ ok (set_job j (record (t.jobs j) { locked = true }) t)
  unfolding lock_job
  lock_job_free j t h = rw h refl

  parent_locked :
      (j p : ℕ) (t : Tree T)
      → (t.jobs j).parent ≡ some p
      → (t.jobs p).locked ≡ true
      → assert_parent_alive j t ≡ fault
  unfolding assert_parent_alive
  parent_locked j p t a b = rw (assert_parent_alive, a, b) refl

  no_parent : (j : ℕ) (t : Tree T) → (t.jobs j).parent ≡ none → assert_parent_alive j t ≡ ok tt
  unfolding assert_parent_alive
  no_parent j t a = rw (assert_parent_alive, a) refl

  finish_under_lock :
      (fuel j p : ℕ) (t : Tree T)
      → (t.jobs j).parent ≡ some p
      → (t.jobs p).locked ≡ true
      → finish_dead_transition_unlocked fuel j t ≡ fault
  unfolding finish_dead_transition_unlocked
  finish_under_lock zero j p t a b = refl
  finish_under_lock (suc fuel) j p t a b = bind_fault _ (parent_locked j p t a b)

  finish_root :
      (fuel j : ℕ) (t : Tree T)
      → (t.jobs j).parent ≡ none
      → (t.jobs j).locked ≡ false
      → finish_dead_transition_unlocked fuel j t ≡ fault
  unfolding finish_dead_transition_unlocked
  finish_root zero j t a b = refl
  finish_root (suc fuel) j t a b =
      bind_ok _ (no_parent j t a) (bind_ok _ (lock_job_free j t b) (rw (==_refl j, a) refl))

module _ {T : Type 0} (critical_process_kill : ℕ) (kill_thread : ℕ → T → Run T) where
  -- The tree when the scope of the lock in kill ends, for a job without children.
  abbrev pub killing : ℕ → ℕ → Tree T → Tree T
  killing code j t =
      let t1 = set_job j (record (t.jobs j) { locked = true }) t in
      set_job j (record (t1.jobs j) { ret_code = code; job_status = job_killing }) t1

  no_child_jobs :
      (fuel : ℕ) (k : ℕ → ℕ → Tree T → Run (Bool × Tree T)) (code j : ℕ) (t : Tree T)
      → (t.jobs j).child_jobs ≡ []
      → kill_child_jobs critical_process_kill kill_thread (suc fuel) k code j t ≡ ok t
  unfolding kill_child_jobs
  no_child_jobs fuel k code j t h = rw (kill_child_jobs, h) refl

  no_child_processes :
      (fuel : ℕ) (k : ℕ → ℕ → Tree T → Run (Bool × Tree T)) (code j : ℕ) (t : Tree T)
      → (t.jobs j).child_processes ≡ []
      → kill_child_processes critical_process_kill kill_thread (suc fuel) k code j t ≡ ok t
  unfolding kill_child_processes
  no_child_processes fuel k code j t h = rw (kill_child_processes, h) refl

  pub kill_leaf :
      (code j fuel : ℕ) (t : Tree T) (parent : Option ℕ)
      → IsLeaf (t.jobs j) parent
      → kill critical_process_kill kill_thread (suc (suc fuel)) code j t ≡ (
          finish_dead_transition_unlocked (suc fuel) j (unlock_job j (killing code j t)) >>= λ t'.
          ok (true, t'))
  unfolding kill is_ready_for_dead_transition_locked
  kill_leaf code j fuel t parent leaf = bind_ok _ (lock_job_free j t leaf.free) (
      if_true (is_ready ((set_job j (record (t.jobs j) { locked = true }) t).jobs j).job_status) _
        (rw (==_refl j, leaf.status) refl)
        (bind_ok _ (no_child_jobs fuel _ code j (killing code j t) (rw (==_refl j, leaf.jobs) refl))
          (bind_ok _
            (no_child_processes fuel _ code j (killing code j t)
              (rw (==_refl j, leaf.processes) refl))
            (if_true (is_ready_for_dead_transition_locked ((killing code j t).jobs j)) _
              (rw (==_refl j, leaf.jobs, leaf.processes) refl) refl))))

  -- Killing a ready, unlocked job that has no parent and no children is a fault.
  pub kill_root :
      (code j fuel : ℕ) (t : Tree T)
      → IsLeaf (t.jobs j) none
      → kill critical_process_kill kill_thread (suc (suc fuel)) code j t ≡ fault
  kill_root code j fuel t leaf =
      kill_leaf code j fuel t none leaf
      ∙ bind_fault _ (
          finish_root (suc fuel) j (unlock_job j (killing code j t))
            (rw (==_refl j, leaf.above) refl) (rw (==_refl j) refl))

  kill_leaf_under_lock :
      (code c j fuel : ℕ) (t : Tree T)
      → IsLeaf (t.jobs c) (some j)
      → (c == j) ≡ false
      → (t.jobs j).locked ≡ true
      → kill critical_process_kill kill_thread (suc (suc fuel)) code c t ≡ fault
  kill_leaf_under_lock code c j fuel t leaf apart held =
      kill_leaf code c fuel t (some j) leaf
      ∙ bind_fault _ (
          finish_under_lock (suc fuel) c j (unlock_job c (killing code c t))
            (rw (==_refl c, leaf.above) refl) (rw (apart, held) refl))

  -- The tree when the loops of kill start.
  first_child_job :
      (n fuel code j c : ℕ) (cs : List ℕ) (t : Tree T)
      → (t.jobs j).child_jobs ≡ c ∷ cs
      → (t.jobs j).locked ≡ true
      → IsLeaf (t.jobs c) (some j)
      → (j == c) ≡ false
      → (c == j) ≡ false
      → kill_child_jobs critical_process_kill kill_thread
          (suc n)
          (kill critical_process_kill kill_thread (suc (suc fuel)))
          code
          j
          t
        ≡ fault
  unfolding kill_child_jobs
  first_child_job n fuel code j c cs t h held leaf apart apart' =
      rw (kill_child_jobs, h)
        (bind_fault _ (
          kill_leaf_under_lock code c j fuel (set_job j (record (t.jobs j) { child_jobs = cs }) t)
            (rw apart leaf) apart' (rw (==_refl j, held) refl)))

  -- Killing a ready, unlocked job whose first child job is ready, unlocked and without children
  -- is a fault.
  pub kill_child_job :
      (code j c fuel : ℕ) (cs : List ℕ) (t : Tree T)
      → (t.jobs j).job_status ≡ job_ready
      → (t.jobs j).locked ≡ false
      → (t.jobs j).child_jobs ≡ c ∷ cs
      → IsLeaf (t.jobs c) (some j)
      → (j == c) ≡ false
      → kill critical_process_kill kill_thread (suc (suc (suc fuel))) code j t ≡ fault
  unfolding kill
  kill_child_job code j c fuel cs t status free h leaf apart = bind_ok _ (lock_job_free j t free) (
      if_true (is_ready ((set_job j (record (t.jobs j) { locked = true }) t).jobs j).job_status) _
        (rw (==_refl j, status) refl)
        (bind_fault _ (
          first_child_job (suc fuel) fuel code j c cs (killing code j t) (rw (==_refl j, h) refl)
            (rw (==_refl j) refl) (rw apart leaf) apart (turned j c apart))))
    where
      turned : (j c : ℕ) → (j == c) ≡ false → (c == j) ≡ false
      turned j c h = ground arith

  -- set_status_locked, of a process without threads.
  set_dead :
      (q : ℕ) (t : Tree T)
      → is_dead (t.processes q).status ≡ false
      → set_status_locked critical_process_kill kill_thread q dead t
        ≡ ok (set_process q (record (t.processes q) { status = dead }) t)
  unfolding set_status_locked
  set_dead q t h = rw h refl

  drop_under_lock :
      (j q : ℕ) (t : Tree T) → (t.jobs j).locked ≡ true → drop_child_process q j t ≡ fault
  unfolding drop_child_process lock_job
  drop_under_lock j q t h = rw h refl

  -- A process that is neither dead nor dying, not locked, and has no threads.
  pub record IsIdle (v : Process) (j : ℕ) : Type 0 where
    pub alive : is_dead v.status ≡ false
    pub going : is_dying v.status ≡ false
    pub free : v.held ≡ false
    pub threads : v.threads ≡ []
    pub above : v.job ≡ j

  finish_process_under_lock :
      (fuel j q : ℕ) (k : ℕ → ℕ → Tree T → Run (Bool × Tree T)) (t : Tree T)
      → (t.processes q).job ≡ j
      → (t.jobs j).locked ≡ true
      → finish_dead_transition critical_process_kill kill_thread fuel k q t ≡ fault
  unfolding finish_dead_transition remove_child_process
  finish_process_under_lock fuel j q k t a b = rw (a, drop_under_lock j q t b) refl

  process_kill_under_lock :
      (fuel code j q : ℕ) (k : ℕ → ℕ → Tree T → Run (Bool × Tree T)) (t : Tree T)
      → IsIdle (t.processes q) j
      → (t.jobs j).locked ≡ true
      → process_kill critical_process_kill kill_thread fuel k code q t ≡ fault
  unfolding process_kill
  process_kill_under_lock fuel code j q k t idle held =
      let t1 =
        set_process q (record (t.processes q) { exit_code = code; threads = []; held = false }) t in
      rw (idle.free, idle.alive, idle.threads, idle.going)
        (bind_ok _ (set_dead q t1 (rw (==_refl q, idle.alive) refl)) (
          finish_process_under_lock fuel j q k
            (set_process q (record (t1.processes q) { status = dead }) t1)
            (rw (==_refl q, idle.above) refl) held))

  first_process :
      (fuel : ℕ) (k : ℕ → ℕ → Tree T → Run (Bool × Tree T)) (code j q : ℕ) (qs : List ℕ)
      (t : Tree T)
      → (t.jobs j).child_processes ≡ q ∷ qs
      → (t.jobs j).locked ≡ true
      → IsIdle (t.processes q) j
      → kill_child_processes critical_process_kill kill_thread (suc fuel) k code j t ≡ fault
  unfolding kill_child_processes
  first_process fuel k code j q qs t h held idle =
      rw (kill_child_processes, h)
        (bind_fault _ (
          process_kill_under_lock fuel code j q k
            (set_job j (record (t.jobs j) { child_processes = qs }) t) idle
            (rw (==_refl j, held) refl)))

  -- Killing a job without child jobs, whose first process is idle, faults in the same way.
  pub kill_child_process :
      (code j q fuel : ℕ) (qs : List ℕ) (t : Tree T)
      → (t.jobs j).job_status ≡ job_ready
      → (t.jobs j).locked ≡ false
      → (t.jobs j).child_jobs ≡ []
      → (t.jobs j).child_processes ≡ q ∷ qs
      → IsIdle (t.processes q) j
      → kill critical_process_kill kill_thread (suc (suc fuel)) code j t ≡ fault
  unfolding kill
  kill_child_process code j q fuel qs t status free empty h idle =
      bind_ok _ (lock_job_free j t free) (
        if_true (is_ready ((set_job j (record (t.jobs j) { locked = true }) t).jobs j).job_status) _
          (rw (==_refl j, status) refl)
          (bind_ok _ (no_child_jobs fuel _ code j (killing code j t) (rw (==_refl j, empty) refl)) (
            bind_fault _ (
              first_process fuel _ code j q qs (killing code j t) (rw (==_refl j, h) refl)
                (rw (==_refl j) refl) idle))))
