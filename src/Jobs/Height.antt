-- ===== src/Jobs/Height.antt =====
-- How deep jobs are nested: every creation takes one off the height that is left.
use project_dionysus.Base.{ℕ, suc, ◌+◌, ◌≤◌, ◌≡◌, Bool, none, some, ok, arith, value}
use project_dionysus.Jobs.{Job, Tree, create, new_job}

-- A job that create_root or create made, whatever has happened to its policy, status, children and
-- lock since, with the number of jobs above it. max_height_ is constant.
pub data IsCreated (T : Type 0) : ℕ → Job → Type 0 where
  root :
      (policy : ℕ) (v : Job)
      → v.max_height ≡ (new_job none none policy).max_height
      → IsCreated T 0 v
  child :
      {k : ℕ} {made : Job} (alloc : Bool) (p : ℕ) (t : Tree T) (v : Job)
      → IsCreated T k (t.jobs p)
      → create alloc (some p) t ≡ ok (value made)
      → v.max_height ≡ made.max_height
      → IsCreated T (suc k) v

module _ {T : Type 0} where
  create-height :
      (alloc : Bool) (p : ℕ) (t : Tree T) (v : Job)
      → (t.jobs p).max_height ≤ 16
      → create alloc (some p) t ≡ ok (value v)
      → suc v.max_height ≡ (t.jobs p).max_height
  unfolding create new_job
  create-height alloc p t v h e = ground arith

  -- A job that create made below k jobs, the first of which create_root made, has the height 16
  -- - k, so that k is at most 16, whatever else of these jobs has changed since they were made.
  pub IsCreated-height : (k : ℕ) (v : Job) → IsCreated T k v → v.max_height + k ≡ 16
  unfolding new_job
  IsCreated-height k v (root policy _ same) = omega (arith, same)
  IsCreated-height (suc k) v (child {made = made} alloc p t _ above e same) =
      let height = IsCreated-height k (t.jobs p) above in
      omega (arith, same, height, create-height alloc p t made (omega (arith, height)) e)
