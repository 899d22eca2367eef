-- ===== src/Ext2/Bytes.antt =====
-- Buffers of bytes: memmove, and the bytes of a file laid out block by block.
use project_dionysus.Base.{
  ℕ, ◌+◌, ◌-◌, ◌*◌, ◌/◌, ◌%◌, ◌≤◌, ◌<◌, ◌≡◌, ◌≢◌, ap, sym, fun_ext, ◌⊎◌, inl, inr, ◌==◌, Bool-cases,
  same, ltb, if◌then◌else◌, arith,
}
use native.Mathlib.Decide.{dec_lt}
use native.Mathlib.Nat.{div-add-mod', mod-lt, div-eq_of_lt-le}

abbrev pub Bytes : Type 0
Bytes = ℕ → ℕ

-- memmove(dst + to, src + from, n).
unfoldable pub memmove : ℕ → Bytes → ℕ → Bytes → ℕ → Bytes
memmove n dst to src from i =
    if ltb i to then dst i else (if ltb i (to + n) then src (from + (i - to)) else dst i)

-- The byte at a position of a file, whose blocks have the size `block_size`.
unfoldable pub byte_at : ℕ → (ℕ → Bytes) → Bytes
byte_at block_size content p = content (p / block_size) (p % block_size)

pub memmove_zero : (dst : Bytes) (to : ℕ) (src : Bytes) (from : ℕ) → memmove 0 dst to src from ≡ dst
unfolding memmove
memmove_zero dst to src from = fun_ext λ i. ground arith

-- Two moves of adjacent bytes are one.
pub memmove_join :
    (a b : ℕ) (dst : Bytes) (to : ℕ) (src : Bytes) (from : ℕ)
    → memmove b (memmove a dst to src from) (to + a) src (from + a)
      ≡ memmove (a + b) dst to src from
unfolding memmove
memmove_join a b dst to src from = fun_ext λ i. ground arith

pub memmove-inside :
    (n : ℕ) (dst : Bytes) (to : ℕ) (src : Bytes) (from i : ℕ)
    → i < n
    → memmove n dst to src from (to + i) ≡ src (from + i)
unfolding memmove
memmove-inside n dst to src from i h = let e : to + i - to ≡ i = omega arith in ground (arith, e)

-- A move whose source agrees, where it is read.
pub memmove_agree :
    (n : ℕ) (dst : Bytes) (to : ℕ) (src : Bytes) (from : ℕ) (src' : Bytes) (from' : ℕ)
    → ((j : ℕ) → j < n → src (from + j) ≡ src' (from' + j))
    → memmove n dst to src from ≡ memmove n dst to src' from'
unfolding memmove
memmove_agree n dst to src from src' from' h = fun_ext λ i. ground (arith, h (i - to))

pub div_within :
    (s p j : ℕ) → 0 < s → p % s + j < s → ((p + j) / s ≡ p / s) × ((p + j) % s ≡ p % s + j)
div_within s p j pos h =
    let e = div-add-mod' p s in
    let q : (p + j) / s ≡ p / s = div-eq_of_lt-le s (grind (arith, e)) (grind (arith, e)) in
    (q, grind (arith, e, div-add-mod' (p + j) s, q))

-- A block of a file is put in the place of another.
unfoldable pub put_block : (ℕ → Bytes) → ℕ → Bytes → ℕ → Bytes
put_block content k b j = if k == j then b else content j

below_or_above : (s p k : ℕ) → 0 < s → p / s ≢ k → (p < k * s) ⊎ (k * s + s ≤ p)
below_or_above s p k pos h =
    let e = div-add-mod' p s in
    let l = mod-lt p pos in
    elim (dec_lt (p / s) k) [ yes lt ↦ inl (grind arith) | no ge ↦ inr (grind arith) ]

shifted :
    (k x y p q n offset : ℕ) (c : Bytes) (j : ℕ) (buf : Bytes)
    → p ≡ k + x
    → q ≡ k + y
    → (if ltb y x then c j else (if ltb y (x + n) then buf (offset + (y - x)) else c j))
      ≡ (if ltb q p then c j else (if ltb q (p + n) then buf (offset + (q - p)) else c j))
shifted k x y p q n offset c j buf e f =
    let same_distance : q - p ≡ y - x = omega arith in ground (arith, same_distance)

-- Changing `n` bytes within one block changes the same bytes of the file.
pub put_block-part :
    (s : ℕ) (content : ℕ → Bytes) (p n : ℕ) (b : Bytes) (buf : Bytes) (offset : ℕ)
    → 0 < s
    → p % s + n ≤ s
    → ((j : ℕ) → j < s → b j ≡ memmove n (content (p / s)) (p % s) buf offset j)
    → byte_at s (put_block content (p / s) b) ≡ memmove n (byte_at s content) p buf offset
unfolding put_block byte_at memmove
put_block-part s content p n b buf offset pos within agree = fun_ext λ q.
    let e = div-add-mod' p s in
    let f = div-add-mod' q s in
    elim (Bool-cases (p / s == q / s)) [
      | inl k ↦
          let i : p / s ≡ q / s = same (p / s) (q / s) k in
          let row : p / s * s ≡ q / s * s = ap (λ t. t * s) i in
          rw (k, agree (q % s) (mod-lt q pos), sym i)
            (shifted (p / s * s) (p % s) (q % s) p q n offset (content (p / s)) (q % s) buf
              (omega (arith, e)) (omega (arith, f, row)))
      | inr k ↦ elim (below_or_above s q (p / s) pos (ground arith)) [
        | inl low ↦ ground arith
        | inr high ↦ ground arith
      ]
    ]
