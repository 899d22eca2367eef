-- ===== src/Base/Outcome.antt =====
-- The outcome of kernel code: a value, an error code, or a fault. A fault stands for a null
-- dereference, an access out of bounds, a failed KDEBUG_ASSERT and a kernel panic.
use Prim.Native.Nat.{ℕ, zero, suc, ◌+◌, ◌≤◌, ◌<◌}
use mathlib.Core.Path.{◌≡◌, refl, ap, ◌∙◌, subst}
use mathlib.Core.Logic.{◌≢◌, ◌⊎◌, inl, inr}
use mathlib.Core.Bool.{Bool, true, false}
use mathlib.Core.Option.{Option, none, some}
use project_dionysus.Base.Tests.{if◌then◌else◌}
use native.Mathlib.Omega.{arith}

-- include/system/error.hpp: the codes that the modelled functions return.
pub data ErrorCode : Type 0 where
  error_invalid error_not_impl error_memory_alloc error_io error_out_of_bound error_no_entry
        error_invalid_access error_timeout error_internal_intr_killed error_internal_intr_retry
        error_ipc_not_the_sender error_too_many_handles error_already_exist error_internal error_eof
        error_not_dir error_not_file error_is_dir error_too_many_calls error_access error_unknown :
      ErrorCode

pub data Run {ℓ} (A : Type ℓ) : Type ℓ where
  ok : A → Run A
  err : ErrorCode → Run A
  fault : Run A

infixl 5 ◌>>=◌ ◌>>◌
abbrev pub ◌>>=◌ {ℓ κ} : {A : Type ℓ} {B : Type κ} → Run A → (A → Run B) → Run B
ok a >>= f = f a
err e >>= f = err e
fault >>= f = fault

abbrev pub ◌>>◌ {ℓ} : {B : Type ℓ} → Run (Unit {0}) → Run B → Run B
m >> k = m >>= λ _. k

pub bind_ok {ℓ κ} :
    {A : Type ℓ} {B : Type κ} {m : Run A} {a : A} (f : A → Run B) {r : Run B}
    → m ≡ ok a
    → f a ≡ r
    → (m >>= f) ≡ r
bind_ok f e k = ap (λ n. n >>= f) e ∙ k

pub bind_fault {ℓ κ} :
    {A : Type ℓ} {B : Type κ} {m : Run A} (f : A → Run B) → m ≡ fault → (m >>= f) ≡ fault
bind_fault f e = ap (λ n. n >>= f) e

-- KDEBUG_ASSERT.
abbrev pub assert : Bool → Run (Unit {0})
assert true = ok tt
assert false = fault

-- A dereference: null faults.
abbrev pub deref {ℓ} : {A : Type ℓ} → Option A → Run A
deref none = fault
deref (some a) = ok a

-- error_code_with_result of include/system/error.hpp: a value, or the code of an error.
pub data Result {ℓ} (A : Type ℓ) : Type ℓ where
  value : A → Result A
  error : ErrorCode → Result A

pub Result-cases {ℓ} :
    {A : Type ℓ} (r : Result A) → ((a : A) × (r ≡ value a)) ⊎ ((e : ErrorCode) × (r ≡ error e))
Result-cases (value a) = inl (a, refl)
Result-cases (error e) = inr (e, refl)

-- `for (i = from; i < from + rounds; i++)` with a body that may return from the function.
unfoldable pub for_each {ℓ} : {A : Type ℓ} → ℕ → ℕ → (ℕ → Run (Option A)) → Run (Option A)
for_each zero i body = ok none
for_each (suc n) i body =
    let rest = for_each n (i + 1) body in
    body i >>= λ r. elim r [ none ↦ rest | some a ↦ ok (some a) ]

-- The same loop over a state, with no early return.
unfoldable pub for_update {ℓ} : {S : Type ℓ} → ℕ → ℕ → (ℕ → S → Run S) → S → Run S
for_update zero i body s = ok s
for_update (suc n) i body s = body i s >>= λ t. for_update n (i + 1) body t

-- The first index from `i` on, among `n`, that passes a test.
unfoldable pub first_index : ℕ → ℕ → (ℕ → Bool) → Option ℕ
first_index zero i p = none
first_index (suc n) i p = let rest = first_index n (i + 1) p in if p i then some i else rest

pub first_index-some :
    (n i : ℕ) (p : ℕ → Bool) (k : ℕ)
    → first_index n i p ≡ some k
    → (i ≤ k) × (k < i + n) × (p k ≡ true)
unfolding first_index
first_index-some zero i p k h = absurd (ground arith)
first_index-some (suc n) i p k h = ground (arith, first_index-some n (i + 1) p k)

pub first_index-before :
    (n i : ℕ) (p : ℕ → Bool) (k j : ℕ) → first_index n i p ≡ some k → i ≤ j → j < k → p j ≡ false
unfolding first_index
first_index-before zero i p k j h a b = absurd (ground arith)
first_index-before (suc n) i p k j h a b = elim (nat_cases i j) [
  | inl e ↦ ground (arith, e)
  | inr d ↦ ground (arith, d, first_index-before n (i + 1) p k j)
]
  where
    nat_cases : (x y : ℕ) → (x ≡ y) ⊎ (x ≢ y)
    nat_cases x y = omega arith

pub first_index-none :
    (n i : ℕ) (p : ℕ → Bool) (k : ℕ) → first_index n i p ≡ none → i ≤ k → k < i + n → p k ≡ false
unfolding first_index
first_index-none zero i p k h a b = absurd (omega arith)
first_index-none (suc n) i p k h a b = ground (arith, first_index-none n (i + 1) p k)

pub first_index-eq_none :
    (n i : ℕ) (p : ℕ → Bool)
    → ((k : ℕ) → i ≤ k → k < i + n → p k ≡ false)
    → first_index n i p ≡ none
unfolding first_index
first_index-eq_none zero i p h = refl
first_index-eq_none (suc n) i p h =
    ground (arith, h i, first_index-eq_none n (i + 1) p (λ k a b. h k (omega arith) (omega arith)))

-- A loop whose body never fails, and returns the mark of the first index that passes a test.
pub for_each-first_index {ℓ} :
    {A : Type ℓ} (n i : ℕ) (body : ℕ → Run (Option A)) (p : ℕ → Bool) (mark : ℕ → A)
    → ((k : ℕ) → i ≤ k → k < i + n → body k ≡ ok (if p k then some (mark k) else none))
    → for_each n i body ≡ ok (elim (first_index n i p) [ none ↦ none | some k ↦ some (mark k) ])
unfolding for_each first_index
for_each-first_index zero i body p mark h = refl
for_each-first_index (suc n) i body p mark h = ground (
  arith,
  h i,
  for_each-first_index n (i + 1) body p mark (λ k a b. h k (omega arith) (omega arith)),
)

-- An invariant of such a loop.
pub for_update-inv {ℓ κ} :
    {S : Type ℓ} (P : ℕ → S → Type κ) (n i : ℕ) (body : ℕ → S → Run S)
    → ((k : ℕ) (s : S) → i ≤ k → k < i + n → P k s → (t : S) × (body k s ≡ ok t) × P (k + 1) t)
    → (s : S) → P i s
    → (t : S) × (for_update n i body s ≡ ok t) × P (i + n) t
unfolding for_update
for_update-inv P zero i body keep s h = (s, refl, subst (λ k. P k s) (omega arith) h)
for_update-inv P (suc n) i body keep s h =
    let (t, e, h') = keep i s (omega arith) (omega arith) h in
    let (u, e', h'') =
      for_update-inv P n (i + 1) body (λ k v a b. keep k v (omega arith) (omega arith)) t h' in
    (u, rw (e, for_update) e', subst (λ k. P k u) (omega arith) h'')

-- A loop of one round is its body.
pub for_each_once {ℓ} :
    {A : Type ℓ} (n : ℕ) (body : ℕ → Run (Option A)) → n ≡ 1 → for_each n 0 body ≡ body 0
unfolding for_each
for_each_once n body e = rw e (go (body 0))
  where
    go :
        {A : Type ℓ} (m : Run (Option A))
        → (m >>= λ r. elim r [ none ↦ ok none | some a ↦ ok (some a) ]) ≡ m
    go (ok none) = refl
    go (ok (some a)) = refl
    go (err e) = refl
    go fault = refl

pub for_update_once {ℓ} :
    {S : Type ℓ} (n : ℕ) (body : ℕ → S → Run S) (s : S) → n ≡ 1 → for_update n 0 body s ≡ body 0 s
unfolding for_update
for_update_once {S} n body s e = rw e (go (body 0 s))
  where
    go : (m : Run S) → (m >>= ok) ≡ m
    go (ok a) = refl
    go (err e) = refl
    go fault = refl

pub for_each-none {ℓ} :
    {A : Type ℓ} (n i : ℕ) (body : ℕ → Run (Option A))
    → ((k : ℕ) → body k ≡ ok none)
    → for_each n i body ≡ ok none
unfolding for_each
for_each-none zero i body h = refl
for_each-none (suc n) i body h = rw (h i) (for_each-none n (i + 1) body h)

pub for_each_zero {ℓ} :
    {A : Type ℓ} (n i : ℕ) (body : ℕ → Run (Option A)) → n ≡ 0 → for_each n i body ≡ ok none
unfolding for_each
for_each_zero n i body e = rw e
