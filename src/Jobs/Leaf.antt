-- ===== src/Jobs/Leaf.antt =====
-- Killing a job without children, below a job that is ready.
use project_dionysus.Base.{
  ℕ, suc, ◌≡◌, refl, sym, ap, ◌∙◌, Bool, true, false, some, List, [], ◌∷◌, Run, ok, deref, ◌==◌,
  if◌then◌else◌, arith, ==_refl, bind_ok, has, Bool-cases, inl, inr,
}
use project_dionysus.Jobs.{
  Job, Tree, job_ready, job_dead, unlink, assert_parent_alive, set_job, unlock_job, kill,
  finish_dead_transition_unlocked, drop_child_job, is_ready_for_dead_transition_locked,
}
use project_dionysus.Jobs.Kill.{if_true, IsLeaf, kill_leaf, killing, lock_job_free}

unlink_absent : (x : ℕ) (xs : List ℕ) → has x xs ≡ false → unlink x xs ≡ xs
unlink_absent x [] h = refl
unlink_absent x (y ∷ ys) h =
    rw (not_first x y ys h) (ap (λ zs. y ∷ zs) (unlink_absent x ys (ground arith)))
  where
    not_first : (x y : ℕ) (ys : List ℕ) → has x (y ∷ ys) ≡ false → (x == y) ≡ false
    not_first x y ys h = ground arith

turned : (j c : ℕ) → (j == c) ≡ false → (c == j) ≡ false
turned j c h = ground arith

if_false {ℓ} :
    {A : Type ℓ} (b : Bool) {y r : A} (x : A) → b ≡ false → y ≡ r → (if b then x else y) ≡ r
if_false b x e k = rw e k

module _ {T : Type 0} where
  at_job : (j : ℕ) (v : Job) (t : Tree T) → (set_job j v t).jobs j ≡ v
  at_job j v t = rw (==_refl j) refl

  -- A job that is ready loses a child and goes on.
  pub record Loses (child p : ℕ) (t t' : Tree T) : Type 0 where
    pub children : (t'.jobs p).child_jobs ≡ unlink child (t.jobs p).child_jobs
    pub status : (t'.jobs p).job_status ≡ job_ready
    pub free : (t'.jobs p).locked ≡ false

  drop_ready :
      (child p : ℕ) (t : Tree T)
      → (t.jobs p).locked ≡ false
      → (t.jobs p).job_status ≡ job_ready
      → (t' : Tree T) × (drop_child_job child p t ≡ ok (false, t'))
        × ((x : ℕ) → (p == x) ≡ false → t'.jobs x ≡ t.jobs x)
        × Loses child p t t'
  unfolding drop_child_job is_ready_for_dead_transition_locked
  drop_ready child p t free ready =
      let t1 = set_job p (record (t.jobs p) { locked = true }) t in
      let v1 = record (t1.jobs p) { child_jobs = unlink child (t1.jobs p).child_jobs } in
      elim (Bool-cases (has child (t1.jobs p).child_jobs)) [
        | inl k ↦ (
          unlock_job p (set_job p v1 t1),
          bind_ok _ (lock_job_free p t free) (
              ap ok (
                if_true (has child (t1.jobs p).child_jobs) _ k
                  (ap (λ b. (b, unlock_job p (set_job p v1 t1))) (rw (==_refl p, ready) refl)))),
          λ x h. rw h refl,
          record {
            children = rw (==_refl p) refl;
            status = rw (==_refl p, ready) refl;
            free = rw (==_refl p) refl;
          },
        )
        | inr k ↦ (
          unlock_job p t1,
          bind_ok _ (lock_job_free p t free)
              (ap ok (if_false (has child (t1.jobs p).child_jobs) _ k refl)),
          λ x h. rw h refl,
          record {
            children = rw (==_refl p) (
                sym (
                  unlink_absent child (t.jobs p).child_jobs (
                    ap (λ (v : Job). has child v.child_jobs)
                      (sym (at_job p (record (t.jobs p) { locked = true }) t))
                    ∙ k)));
            status = rw (==_refl p, ready) refl;
            free = rw (==_refl p) refl;
          },
        )
      ]

  parent_alive :
      (j p : ℕ) (t : Tree T)
      → (t.jobs j).parent ≡ some p
      → (t.jobs p).locked ≡ false
      → (t.jobs p).job_status ≡ job_ready
      → assert_parent_alive j t ≡ ok tt
  unfolding assert_parent_alive
  parent_alive j p t above free ready = rw (assert_parent_alive, above, free, ready) refl

  -- Behind a parent that is ready, the transition of a job ends with it.
  finish_ready :
      (fuel j p : ℕ) (t : Tree T)
      → (t.jobs j).parent ≡ some p
      → (t.jobs j).locked ≡ false
      → (j == p) ≡ false
      → (t.jobs p).locked ≡ false
      → (t.jobs p).job_status ≡ job_ready
      → (t' : Tree T) × (finish_dead_transition_unlocked (suc fuel) j t ≡ ok t')
        × (t'.jobs j ≡ record (t.jobs j) { job_status = job_dead; locked = false })
        × Loses j p t t'
  unfolding finish_dead_transition_unlocked
  finish_ready fuel j p t above free apart free' ready =
      let t1 = set_job j (record (t.jobs j) { locked = true }) t in
      let t2 = unlock_job j (set_job j (record (t1.jobs j) { job_status = job_dead }) t1) in
      let (t3, done, others, lost) =
        drop_ready j p t2 (rw (apart, free') refl) (rw (apart, ready) refl) in
      let kept : t2.jobs p ≡ t.jobs p = rw apart refl in
      let above2 : (t2.jobs j).parent ≡ some p = rw (==_refl j) above in
      (
        t3,
        bind_ok _ (parent_alive j p t above free' ready) (
            bind_ok _ (lock_job_free j t free) (bind_ok _ (ap deref above2) (bind_ok _ done refl))),
        others j (turned j p apart) ∙ rw (==_refl j) refl,
        record {
          children = lost.children ∙ ap (λ (v : Job). unlink j v.child_jobs) kept;
          status = lost.status;
          free = lost.free;
        },
      )

  -- Killing a job that is ready, unlocked and without children, below an unlocked job that is
  -- ready, ends; the job is dead with the code given, the parent has lost it from its children
  -- and is still ready, and neither lock stays held.
  pub kill_leaf_dies :
      (critical_process_kill : ℕ) (kill_thread : ℕ → T → Run T) (code j p fuel : ℕ) (t : Tree T)
      → IsLeaf (t.jobs j) (some p)
      → (j == p) ≡ false
      → (t.jobs p).locked ≡ false
      → (t.jobs p).job_status ≡ job_ready
      → (t' : Tree T) × (kill critical_process_kill kill_thread (suc (suc fuel)) code j t
          ≡ ok (true, t'))
        × ((t'.jobs j).job_status ≡ job_dead)
        × ((t'.jobs j).ret_code ≡ code)
        × ((t'.jobs j).locked ≡ false)
        × Loses j p t t'
  kill_leaf_dies critical_process_kill kill_thread code j p fuel t leaf apart free ready =
      let t1 = unlock_job j (killing critical_process_kill kill_thread code j t) in
      let kept : t1.jobs p ≡ t.jobs p = rw apart refl in
      let (t2, done, died, lost) =
        finish_ready fuel j p t1 (rw (==_refl j, leaf.above) refl) (rw (==_refl j) refl) apart
          (rw (apart, free) refl) (rw (apart, ready) refl) in
      (
        t2,
        kill_leaf critical_process_kill kill_thread code j fuel t (some p) leaf
            ∙ bind_ok _ done refl,
        ap (λ (v : Job). v.job_status) died,
        ap (λ (v : Job). v.ret_code) died ∙ rw (==_refl j) refl,
        ap (λ (v : Job). v.locked) died,
        record {
          children = lost.children ∙ ap (λ (v : Job). unlink j v.child_jobs) kept;
          status = lost.status;
          free = lost.free;
        },
      )
