-- ===== src/Base/Bits.antt =====
-- Laws of the bit operations at every width: each works on the two halves of a number alone.
use Prim.Native.Nat.{
  ℕ, zero, suc, ◌+◌, ◌-◌, ◌*◌, ◌/◌, ◌%◌, ◌^◌, ◌<◌, ◌≤◌, min, max, bit_and, bit_or, bit_xor, digits,
  bitwise, differ, bit_and-bitwise, bit_or-bitwise, bit_xor-bitwise,
}
use native.Mathlib.Nat.{pow-suc, one-le-pow}
use mathlib.Core.Logic.{◌≢◌}
use mathlib.Core.Path.{◌≡◌, refl, ap, sym, ◌∙◌}
use native.Mathlib.Omega.{arith}

module _ (z : ℕ → ℕ) (f : ℕ → ℕ → ℕ) where
  digits_null : (k y : ℕ) → digits z f k 0 y ≡ z y
  digits_null zero y = refl
  digits_null (suc k) y = refl

  -- Any fuel from the first number on gives the same digits.
  enough_digits : (x y k l : ℕ) → x ≤ k → x ≤ l → digits z f k x y ≡ digits z f l x y
  enough_digits zero y k l hk hl = digits_null k y ∙ sym (digits_null l y)
  enough_digits (suc x) y zero l hk hl = absurd (omega arith)
  enough_digits (suc x) y (suc k) zero hk hl = absurd (omega arith)
  enough_digits (suc x) y (suc k) (suc l) hk hl =
      let rest = enough_digits (suc x / 2) (y / 2) k l (omega arith) (omega arith) in
      omega (arith, rest)

  next_digit :
      (x y : ℕ)
      → bitwise z f (suc x) y ≡ bitwise z f (suc x / 2) (y / 2) * 2 + f (suc x % 2) (y % 2)
  next_digit x y =
      let rest = enough_digits (suc x / 2) (y / 2) x (suc x / 2) (omega arith) (omega arith) in
      omega (arith, rest)

-- What an operation is at its lowest digit.
abbrev Steps : (ℕ → ℕ → ℕ) → (ℕ → ℕ → ℕ) → Type 0
Steps op f = (x y : ℕ) → op x y ≡ op (x / 2) (y / 2) * 2 + f (x % 2) (y % 2)

bit_xor-Steps : Steps bit_xor differ
bit_xor-Steps zero y = simp bit_xor-bitwise (ground (arith, differ_zero (y % 2)))
  where
    differ_zero : (b : ℕ) → differ 0 b ≡ b
    differ_zero b = refl
bit_xor-Steps (suc x) y = simp bit_xor-bitwise (next_digit (λ b. b) differ x y)

bit_and-Steps : Steps bit_and min
bit_and-Steps zero y = simp bit_and-bitwise (omega arith)
bit_and-Steps (suc x) y = simp bit_and-bitwise (next_digit (λ _. 0) min x y)

bit_or-Steps : Steps bit_or max
bit_or-Steps zero y = simp bit_or-bitwise (omega arith)
bit_or-Steps (suc x) y = simp bit_or-bitwise (next_digit (λ b. b) max x y)

double_width : (q k : ℕ) → q * 2 ^ suc k ≡ 2 * (q * 2 ^ k)
double_width q k = omega (arith, ap (λ (t : ℕ). q * t) (pow-suc 2 k))

module _ (op f : ℕ → ℕ → ℕ) (step : Steps op f) where
  -- At a cut of `k` bits such an operation is made on the high parts and on the low parts.
  split :
      (k a b c d : ℕ)
      → b < 2 ^ k
      → d < 2 ^ k
      → op (a * 2 ^ k + b) (c * 2 ^ k + d) ≡ op a c * 2 ^ k + op b d
  split zero a b c d hb hd = ground (arith, step 0 0)
  split (suc k) a b c d hb hd = ground (
    arith,
    pow-suc 2 k,
    double_width a k,
    double_width c k,
    double_width (op a c) k,
    step (a * 2 ^ suc k + b) (c * 2 ^ suc k + d),
    step b d,
    split k a (b / 2) c (d / 2),
  )

pub bit_or_split :
    (k a b c d : ℕ)
    → b < 2 ^ k
    → d < 2 ^ k
    → bit_or (a * 2 ^ k + b) (c * 2 ^ k + d) ≡ bit_or a c * 2 ^ k + bit_or b d
bit_or_split = split bit_or max bit_or-Steps

pub bit_and_split :
    (k a b c d : ℕ)
    → b < 2 ^ k
    → d < 2 ^ k
    → bit_and (a * 2 ^ k + b) (c * 2 ^ k + d) ≡ bit_and a c * 2 ^ k + bit_and b d
bit_and_split = split bit_and min bit_and-Steps

pub bit_xor_split :
    (k a b c d : ℕ)
    → b < 2 ^ k
    → d < 2 ^ k
    → bit_xor (a * 2 ^ k + b) (c * 2 ^ k + d) ≡ bit_xor a c * 2 ^ k + bit_xor b d
bit_xor_split = split bit_xor differ bit_xor-Steps

beside_zero : (x k : ℕ) → x ≤ k → (bit_or x 0 ≡ x) × (bit_and x 0 ≡ 0)
beside_zero zero k h = (refl, refl)
beside_zero (suc x) zero h = absurd (omega arith)
beside_zero (suc x) (suc k) h =
    let (kept, gone) = beside_zero (suc x / 2) k (omega arith) in
    (omega (arith, bit_or-Steps (suc x) 0, kept), omega (arith, bit_and-Steps (suc x) 0, gone))

pub bit_or-zero : (a : ℕ) → bit_or a 0 ≡ a
bit_or-zero a = (beside_zero a a (omega arith)).0

pub bit_and-zero : (a : ℕ) → bit_and a 0 ≡ 0
bit_and-zero a = (beside_zero a a (omega arith)).1

-- `(q << k) | r` is a sum when `r` has at most `k` bits.
pub bit_or-shifted : (k q r : ℕ) → r < 2 ^ k → bit_or (q * 2 ^ k) r ≡ q * 2 ^ k + r
bit_or-shifted k q r h =
    ground (arith, bit_or_split k q 0 0 r, bit_or-zero q, one-le-pow k 2, or_zero r)
  where
    or_zero : (x : ℕ) → bit_or 0 x ≡ x
    or_zero x = bit_or-bitwise 0 x

-- A mask of `k` ones is the remainder by `2 ^ k`.
bit_and-ones : (k r : ℕ) → r < 2 ^ k → bit_and r (2 ^ k - 1) ≡ r
bit_and-ones zero r h = ground (arith, bit_and-zero 0)
bit_and-ones (suc k) r h =
    ground
      (arith, pow-suc 2 k, one-le-pow k 2, bit_and-Steps r (2 ^ suc k - 1), bit_and-ones k (r / 2))

pub bit_and-mask : (k a : ℕ) → bit_and a (2 ^ k - 1) ≡ a % 2 ^ k
bit_and-mask k a = ground (
  arith,
  one-le-pow k 2,
  bit_and_split k (a / 2 ^ k) (a % 2 ^ k) 0 (2 ^ k - 1),
  bit_and-zero (a / 2 ^ k),
  bit_and-ones k (a % 2 ^ k),
)

-- `x | (1 << m)` has bit m.
pub bit_or-has : (m x : ℕ) → 0 < bit_and (bit_or x (2 ^ m)) (2 ^ m)
bit_or-has zero x = ground (arith, bit_or-Steps x 1, bit_and-Steps (bit_or x 1) 1)
bit_or-has (suc m) x = ground (
  arith,
  pow-suc 2 m,
  bit_or-Steps x (2 ^ suc m),
  bit_and-Steps (bit_or x (2 ^ suc m)) (2 ^ suc m),
  bit_or-has m (x / 2),
)

-- Its other bits are those of x.
pub bit_or-others : (m i x : ℕ) → i ≢ m → bit_and (bit_or x (2 ^ m)) (2 ^ i) ≡ bit_and x (2 ^ i)
bit_or-others zero zero x h = absurd (h refl)
bit_or-others zero (suc i) x h = ground (
  arith,
  pow-suc 2 i,
  bit_or-Steps x 1,
  bit_or-zero (x / 2),
  bit_and-Steps (bit_or x 1) (2 ^ suc i),
  bit_and-Steps x (2 ^ suc i),
)
bit_or-others (suc m) zero x h = ground (
  arith,
  pow-suc 2 m,
  bit_or-Steps x (2 ^ suc m),
  bit_and-Steps (bit_or x (2 ^ suc m)) 1,
  bit_and-zero (bit_or x (2 ^ suc m) / 2),
  bit_and-zero (x / 2),
  bit_and-Steps x 1,
)
bit_or-others (suc m) (suc i) x h = ground (
  arith,
  pow-suc 2 m,
  pow-suc 2 i,
  bit_or-Steps x (2 ^ suc m),
  bit_and-Steps (bit_or x (2 ^ suc m)) (2 ^ suc i),
  bit_and-Steps x (2 ^ suc i),
  bit_or-others m i (x / 2) (λ e. h (ap suc e)),
)
