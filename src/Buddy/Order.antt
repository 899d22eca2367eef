-- ===== src/Buddy/Order.antt =====
-- The order of a request is at least two more than the number of times it can be halved.
use project_dionysus.Base.{
  ℕ, zero, suc, ◌+◌, ◌/◌, ◌%◌, ◌^◌, ◌≤◌, ◌<◌, ◌≡◌, refl, ◌∙◌, ap, fault, arith,
}
use native.Mathlib.Nat.{pow-suc, one-le-pow, pow-le-pow_right}
use project_dionysus.Buddy.{
  Provider, log2, bit_length, powerof2_roundup, get_order, do_allocate, allocate,
}

log2-pow : (k fuel : ℕ) → k < fuel → log2 fuel (2 ^ k) ≡ k + 1
unfolding log2
log2-pow k zero h = absurd (omega arith)
log2-pow zero (suc fuel) h = refl
log2-pow (suc k) (suc fuel) h =
    let half : 2 ^ suc k / 2 ≡ 2 ^ k = omega (arith, pow-suc 2 k) in
    ground (arith, pow-suc 2 k, one-le-pow k 2, half, log2-pow k fuel)

bit_length-zero : (fuel : ℕ) → bit_length fuel 0 ≡ 0
unfolding bit_length
bit_length-zero zero = refl
bit_length-zero (suc fuel) = refl

bit_length-bounds :
    (k fuel n : ℕ) → 2 ^ k ≤ n → n < 2 ^ suc k → k < fuel → bit_length fuel n ≡ suc k
unfolding bit_length
bit_length-bounds k zero n lo hi h = absurd (omega arith)
bit_length-bounds zero (suc fuel) n lo hi h = ground (arith, bit_length-zero fuel)
bit_length-bounds (suc k) (suc fuel) n lo hi h =
    ground (arith, pow-suc 2 k, pow-suc 2 (suc k), one-le-pow k 2, bit_length-bounds k fuel (n / 2))

-- A request of n pages with 2 ^ k ≤ n < 2 ^ (k + 1) is served from blocks of order k + 2, of more
-- than 2 n pages.
pub get_order-lem : (k n : ℕ) → 2 ^ k ≤ n → n < 2 ^ suc k → k < 63 → get_order n ≡ k + 2
unfolding get_order powerof2_roundup
get_order-lem k n lo hi h =
    let bits = bit_length-bounds k 64 n lo hi (omega arith) in
    let fits : 2 ^ suc k ≤ 2 ^ 63 = pow-le-pow_right (omega arith) {j = 63} (omega arith) in
    let whole : 2 ^ suc k % 2 ^ 64 ≡ 2 ^ suc k = omega (arith, fits) in
    ap (λ b. log2 64 (2 ^ b % 2 ^ 64)) bits
    ∙ ap (log2 64) whole
    ∙ log2-pow (suc k) 64 (omega arith)
    ∙ omega arith

-- A request of 2048 pages or more, up to 2 ^ 63, fails the assertion on the order, although a
-- block has up to 4096 pages.
pub allocate_large :
    (k n : ℕ) (s : Provider) → 2 ^ k ≤ n → n < 2 ^ suc k → k < 63 → 10 < k → allocate n s ≡ fault
unfolding allocate do_allocate
allocate_large k n s lo hi h large = ground (arith, get_order-lem k n lo hi h, one-le-pow k 2)
