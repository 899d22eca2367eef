-- ===== src/Task/Threads.antt =====
-- Writing one thread leaves what is known of the others.
use project_dionysus.Base.{ℕ, ◌≡◌, refl, true, false, List, [], ◌∷◌, ◌==◌, All, arith, ==_refl}
use project_dionysus.Task.{Thread, update, remove, has}

pub All-update {κ} :
    (P : Thread → Type κ) (threads : ℕ → Thread) (t : ℕ) (v : Thread) (q : List ℕ)
    → has t q ≡ false
    → All (λ x. P (threads x)) q
    → All (λ x. P (update threads t v x)) q
All-update P threads t v [] a h = tt
All-update P threads t v (x ∷ q) a h =
    let d : (t == x) ≡ false = ground arith in
    let a' : has t q ≡ false = ground arith in (rw d h.0, All-update P threads t v q a' h.1)

pub remove_first : (t : ℕ) (q : List ℕ) → remove t (t ∷ q) ≡ q
unfolding remove
remove_first t q = rw (==_refl t) refl

pub has_first : (t : ℕ) (q : List ℕ) → has t (t ∷ q) ≡ true
has_first t q = rw (==_refl t) refl
