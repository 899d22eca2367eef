-- ===== src/Handle/Code.antt =====
-- The encoding of handles: MAKE_HANDLE and DISASSEMBLE_HANDLE of include/object/handle_table.hpp,
-- and the attribute tests of include/object/public/handle_type.hpp.
use Prim.Native.Nat.{bit_and, bit_or}
use project_dionysus.Base.{ℕ, ◌+◌, ◌*◌, ◌/◌, ◌%◌, ◌^◌, ◌<◌, ◌≡◌, Bool, ◌==◌, arith}
use project_dionysus.Base.Bits.{bit_or_split, bit_or-shifted, bit_and-mask}

-- `handle_type` and `size_t` are 64 bits wide.
abbrev pub u64 : ℕ
u64 = 2 ^ 64

abbrev pub hattr_global : ℕ
hattr_global = 1

abbrev pub hattr_local_proc : ℕ
hattr_local_proc = 2

abbrev pub invalid_handle_value : ℕ
invalid_handle_value = 0

-- The slot that a handle stands for, one index for each level of the table.
pub record Position : Type 0 where
  pub l1 : ℕ
  pub l2 : ℕ
  pub l3 : ℕ
  pub l4 : ℕ

-- x << k in a 64-bit word.
abbrev pub shl64 : ℕ → ℕ → ℕ
shl64 x k = x * 2 ^ k % u64

unfoldable pub make_handle : ℕ → Position → ℕ
make_handle attr p =
    bit_or (bit_or (bit_or (bit_or (shl64 attr 32) (shl64 p.l1 24)) (shl64 p.l2 16)) (shl64 p.l3 8))
      p.l4

unfoldable pub disassemble_handle : ℕ → ℕ × Position
disassemble_handle h = (
  h / 2 ^ 32,
  record {
    l1 = bit_and (h / 2 ^ 24) 0xff;
    l2 = bit_and (h / 2 ^ 16) 0xff;
    l3 = bit_and (h / 2 ^ 8) 0xff;
    l4 = bit_and h 0xff;
  },
)

pub handle_attribute : ℕ → ℕ
handle_attribute h = h / 2 ^ 32

pub handle_has_attribute : ℕ → ℕ → Bool
unfolding handle_attribute
handle_has_attribute h attributes = bit_and (handle_attribute h) attributes == attributes

-- Each index of the position fits the eight bits that its field has.
abbrev pub FitsByte : Position → Type 0
FitsByte p = (p.l1 < 256) × (p.l2 < 256) × (p.l3 < 256) × (p.l4 < 256)

make_handle_high :
    (attr : ℕ) (p : Position)
    → attr < 2 ^ 16
    → p.l1 < 256
    → p.l2 < 256
    → p.l3 < 256
    → make_handle attr p
      ≡ bit_or (attr * 2 ^ 32 + p.l1 * 2 ^ 24 + p.l2 * 2 ^ 16 + p.l3 * 2 ^ 8) p.l4
unfolding make_handle
make_handle_high attr p ha h1 h2 h3 = ground (
  arith,
  bit_or-shifted 32 attr (p.l1 * 2 ^ 24),
  bit_or-shifted 24 (attr * 2 ^ 8 + p.l1) (p.l2 * 2 ^ 16),
  bit_or-shifted 16 (attr * 2 ^ 16 + p.l1 * 2 ^ 8 + p.l2) (p.l3 * 2 ^ 8),
)

-- With fields that fit, the handle is a number in base 256.
pub make_handle_sum :
    (attr : ℕ) (p : Position)
    → attr < 2 ^ 16
    → FitsByte p
    → make_handle attr p ≡ attr * 2 ^ 32 + p.l1 * 2 ^ 24 + p.l2 * 2 ^ 16 + p.l3 * 2 ^ 8 + p.l4
make_handle_sum attr p ha hp = ground (
  arith,
  make_handle_high attr p,
  bit_or-shifted 8 (attr * 2 ^ 24 + p.l1 * 2 ^ 16 + p.l2 * 2 ^ 8 + p.l3) p.l4,
)

disassemble-sum :
    (attr : ℕ) (p : Position)
    → FitsByte p
    → disassemble_handle (attr * 2 ^ 32 + p.l1 * 2 ^ 24 + p.l2 * 2 ^ 16 + p.l3 * 2 ^ 8 + p.l4)
      ≡ (attr, p)
unfolding disassemble_handle
disassemble-sum attr p hp = ground (
  arith,
  bit_and-mask 8 (h / 2 ^ 24),
  bit_and-mask 8 (h / 2 ^ 16),
  bit_and-mask 8 (h / 2 ^ 8),
  bit_and-mask 8 h,
)
  where
    h : ℕ
    h = attr * 2 ^ 32 + p.l1 * 2 ^ 24 + p.l2 * 2 ^ 16 + p.l3 * 2 ^ 8 + p.l4

-- A handle made of a 16-bit attribute and of four indices below 256 is taken apart into the
-- same attribute and indices.
pub disassemble-make_handle :
    (attr : ℕ) (p : Position)
    → attr < 2 ^ 16
    → FitsByte p
    → disassemble_handle (make_handle attr p) ≡ (attr, p)
disassemble-make_handle attr p ha hp = rw (make_handle_sum attr p ha hp) (disassemble-sum attr p hp)

-- The handle of a slot from 256 on, in a third-level table with an even index, is the handle of
-- another slot in the next table.
pub make_handle_collision :
    (attr l1 l2 m j : ℕ)
    → attr < 2 ^ 16
    → l1 < 256
    → l2 < 256
    → 2 * m < 256
    → j < 256
    → make_handle attr (record { l1 = l1; l2 = l2; l3 = 2 * m; l4 = 256 + j })
      ≡ make_handle attr (record { l1 = l1; l2 = l2; l3 = 2 * m + 1; l4 = j })
make_handle_collision attr l1 l2 m j ha h1 h2 h3 hj = ground (
  arith,
  make_handle_high attr (record { l1 = l1; l2 = l2; l3 = 2 * m; l4 = 256 + j }),
  make_handle_sum attr (record { l1 = l1; l2 = l2; l3 = 2 * m + 1; l4 = j }),
  bit_or_split 8 (attr * 2 ^ 24 + l1 * 2 ^ 16 + l2 * 2 ^ 8 + 2 * m) 0 1 j,
  bit_or-shifted 1 (attr * 2 ^ 23 + l1 * 2 ^ 15 + l2 * 2 ^ 7 + m) 1,
  bit_or-shifted 8 0 j,
)

-- The attribute test reads the attribute that the handle was made with.
pub handle_has_attribute-make_handle :
    (attr a : ℕ) (p : Position)
    → attr < 2 ^ 16
    → FitsByte p
    → handle_has_attribute (make_handle attr p) a ≡ (bit_and attr a == a)
unfolding handle_has_attribute
handle_has_attribute-make_handle attr a p ha hp =
    let top : make_handle attr p / 2 ^ 32 ≡ attr = omega (arith, make_handle_sum attr p ha hp) in
    rw top
