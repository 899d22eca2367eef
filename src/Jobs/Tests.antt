-- ===== src/Jobs/Tests.antt =====
-- Jobs on concrete trees: tests, and the theorems at inputs that meet their hypotheses.
use project_dionysus.Base.{
  ℕ, ◌+◌, ◌≡◌, refl, true, false, Option, none, some, List, [], ◌∷◌, Run, ok, fault, ◌==◌,
  if◌then◌else◌, value,
}
use project_dionysus.Jobs.{Job, Tree, job_ready, job_dead, running, kill, create, new_job}
use project_dionysus.Jobs.Kill.{IsLeaf, kill_child_job}
use project_dionysus.Jobs.Leaf.{Loses, kill_leaf_dies}
use project_dionysus.Jobs.Height.{root, child, IsCreated-height}

abbrev job : Option ℕ → List ℕ → List ℕ → Job
job parent jobs processes = record {
  policy = 0;
  parent = parent;
  ret_code = 0;
  job_status = job_ready;
  child_jobs = jobs;
  child_processes = processes;
  max_height = 16;
  locked = false;
}

-- Job 1 is the root, with the job 2 and, without child jobs, the job 3, which has a process.
abbrev three : Tree ℕ
three = record {
  jobs = λ j.
      if j == 1
      then job none (2 ∷ []) []
      else (if j == 2
          then job (some 1) [] []
          else (if j == 3 then job (some 1) [] (5 ∷ []) else job none [] []));
  processes = λ p. record {
    job = 3;
    status = running;
    exit_code = 0;
    threads = [];
    critical_to = none;
    kill_critical_when_nonzero_code = false;
    held = false;
  };
  all_threads = 0;
}

abbrev kill_thread : ℕ → ℕ → Run ℕ
kill_thread x s = ok (s + 1)

leaf : IsLeaf (three.jobs 2) (some 1)
leaf = record { status = refl; free = refl; jobs = refl; processes = refl; above = refl }

create_test : create true (some 1) three ≡ ok (value (new_job (some (three.jobs 1)) (some 1) 0))
unfolding create
create_test = refl

kill_leaf_dies_example :
    (t' : Tree ℕ) × (kill 7 kill_thread 2 9 2 three ≡ ok (true, t'))
    × ((t'.jobs 2).job_status ≡ job_dead)
    × ((t'.jobs 2).ret_code ≡ 9)
    × ((t'.jobs 2).locked ≡ false)
    × Loses 2 1 three t'
kill_leaf_dies_example = kill_leaf_dies 7 kill_thread 9 2 1 0 three leaf refl refl refl

kill_child_job_example : kill 7 kill_thread 3 9 1 three ≡ fault
kill_child_job_example = kill_child_job 7 kill_thread 9 1 2 0 [] three refl refl refl leaf refl

abbrev first_root : Tree ℕ
first_root = record three { jobs = λ _. new_job none none 0 }

IsCreated-height_example : 15 + 1 ≡ 16
unfolding create new_job
IsCreated-height_example =
    IsCreated-height 1 (record (new_job (some (three.jobs 1)) (some 1) 0) { child_jobs = 9 ∷ [] })
      (child true 1 first_root _ (root 0 _ refl) refl refl)
