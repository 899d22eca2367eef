-- ===== src/Ext2/Blocks.antt =====
-- Which blocks are allocated, and how a block number is read back.
use project_dionysus.Base.{
  ℕ, zero, suc, ◌+◌, ◌-◌, ◌*◌, ◌/◌, ◌%◌, ◌≤◌, ◌<◌, ◌≡◌, ◌≢◌, refl, ◌∙◌, ap, ◌⊎◌, inl, inr, Bool,
  true, false, Option, some, ErrorCode, Result, value, ◌==◌, first_index, first_index-some,
  first_index-before, arith, Bool-cases, Option-cases, Result-cases, Run, ok, err, fault, none,
  same, ==_refl,
}
use Prim.Native.Nat.{min}
use project_dionysus.Base.Bits.{bit_or-has, bit_or-others}
use native.Mathlib.Nat.{mul-add-div_right, mul-add-mod_self_right, div-eq_of_lt, mod-eq_of_lt}
use project_dionysus.Ext2.{
  Ext2Data, Words, block_get_block_group, block_index_in_block_group, is_clear, set_bit,
  buffer_bits, find_clear, commit_block, alloc_groups, block_alloc,
}

-- The number of the block at index j of group i is read back as that group and that index.
pub block_number_fields :
    (i j per_group : ℕ)
    → j < per_group
    → (block_get_block_group (i * per_group + j + 1) per_group ≡ i)
      × (block_index_in_block_group (i * per_group + j + 1) per_group ≡ j)
unfolding block_get_block_group block_index_in_block_group
block_number_fields i j per_group h =
    let back : i * per_group + j + 1 - 1 ≡ i * per_group + j = omega arith in
    let none_left : j / per_group ≡ 0 = div-eq_of_lt h in
    let whole : j % per_group ≡ j = mod-eq_of_lt h in
    (
      ap (λ x. x / per_group) back ∙ mul-add-div_right (omega arith) i j ∙ omega (arith, none_left),
      ap (λ x. x % per_group) back ∙ mul-add-mod_self_right i per_group j ∙ whole,
    )

Run-cases :
    {A : Type 0} (m : Run A)
    → (m ≡ fault) ⊎ (((c : ErrorCode) × (m ≡ err c)) ⊎ ((a : A) × (m ≡ ok a)))
Run-cases fault = inl refl
Run-cases (err c) = inr (inl (c, refl))
Run-cases (ok a) = inr (inr (a, refl))

-- The bitmap with bit j set has that bit, and the others as they were.
set_bit-lem :
    (buf : Words) (j : ℕ)
    → (is_clear (set_bit buf j) j ≡ false)
      × ((k : ℕ) → k ≢ j → is_clear (set_bit buf j) k ≡ is_clear buf k)
unfolding is_clear set_bit
set_bit-lem buf j = (
  rw (==_refl (j / 64)) (nonzero _ (bit_or-has (j % 64) (buf (j / 64)))),
  λ k other. elim (Bool-cases (j / 64 == k / 64)) [
    | inr e ↦ rw e refl
    | inl e ↦
        let word = same (j / 64) (k / 64) e in
        let place : k % 64 ≢ j % 64 = λ p. other (omega (arith, word, p)) in
        rw e (ap (λ b. b == 0) (bit_or-others (j % 64) (k % 64) (buf (k / 64)) place))
  ],
)
  where
    nonzero : (x : ℕ) → 0 < x → (x == 0) ≡ false
    nonzero x h = ground arith

-- A clear bit that the search finds is the first, and in the group.
find_clear-first :
    (fs : Ext2Data) (buf : Words) (j : ℕ)
    → find_clear fs buf ≡ ok (some j)
    → (j < fs.block_group_block_count)
      × (is_clear buf j ≡ true)
      × ((k : ℕ) → k < j → is_clear buf k ≡ false)
unfolding find_clear
find_clear-first fs buf j h =
    let n = min (buffer_bits fs) fs.block_group_block_count in
    elim (Option-cases (first_index n 0 (is_clear buf))) [
      | inl e ↦ absurd (ground (arith, e))
      | inr (i, e) ↦
          let found : i ≡ j = ground (arith, e) in
          let first : first_index n 0 (is_clear buf) ≡ some j = rw e (ap some found) in
          let (low, high, clear) = first_index-some n 0 (is_clear buf) j first in
          (
            omega (arith, high),
            clear,
            λ k lt. first_index-before n 0 (is_clear buf) j k first (omega arith) lt,
          )
    ]

module _ {D : Type 0} (read : ℕ → D → Result Words) (write : ℕ → Words → D → Option ErrorCode × D)
    (write_table : Ext2Data → ℕ → ℕ → D → Option ErrorCode × D)
    (write_back : Ext2Data → D → Option ErrorCode × D) where
  -- The writes for bit j of group g, from device d to d': a bitmap that differs in the bit alone,
  -- which is set; the part of the table that holds the group; and the superblock.
  pub IsCommitted : Ext2Data → ℕ → ℕ → Words → D → D → Type 0
  IsCommitted fs g j buf d d' =
      (buf' : Words) × (d1 : D) × (d2 : D) × (is_clear buf' j ≡ false)
      × ((k : ℕ) → k ≢ j → is_clear buf' k ≡ is_clear buf k)
      × (write (fs.bgdt g).block_bitmap_no buf' d ≡ (none, d1))
      × (write_table fs (g * 32 / fs.block_size) (g * 32 / fs.block_size + 2) d1 ≡ (none, d2))
      × ((write_back fs d2).1 ≡ d')

  commit_block-IsCommitted :
      (fs : Ext2Data) (g j : ℕ) (buf : Words) (d d' : D)
      → commit_block read write write_table write_back fs g j buf d ≡ (true, d')
      → IsCommitted fs g j buf d d'
  unfolding commit_block IsCommitted
  commit_block-IsCommitted fs g j buf d d' h =
      let b = (fs.bgdt g).block_bitmap_no in
      let from = g * 32 / fs.block_size in
      let w = write b (set_bit buf j) d in
      let t = write_table fs from (from + 2) w.1 in
      elim (Option-cases w.0) [
        | inr (c, e) ↦ absurd (ground (arith, e))
        | inl e1 ↦ elim (Option-cases t.0) [
          | inr (c, e) ↦ absurd (ground (arith, e1, e))
          | inl e2 ↦ (
            set_bit buf j,
            w.1,
            t.1,
            (set_bit-lem buf j).0,
            (set_bit-lem buf j).1,
            ap (λ x. (x, w.1)) e1,
            ap (λ x. (x, t.1)) e2,
            ground (arith, e1, e2),
          )
        ]
      ]

  -- What an allocated block is: index `j` of group `g`, the first clear bit of the bitmap that
  -- was read for the group, with all writes done.
  pub IsAllocated : ℕ → ℕ → Ext2Data → ℕ → D → Type 0
  IsAllocated i n fs b d' =
      (g : ℕ) × (j : ℕ) × (buf : Words) × (d : D) × (i ≤ g)
      × (g < i + n)
      × (j < fs.block_group_block_count)
      × (b ≡ g * fs.block_group_block_count + j + 1)
      × (read (fs.bgdt g).block_bitmap_no d ≡ value buf)
      × (is_clear buf j ≡ true)
      × ((k : ℕ) → k < j → is_clear buf k ≡ false)
      × IsCommitted fs g j buf d d'

  widen :
      (n i : ℕ) (fs : Ext2Data) (b : ℕ) (d' : D)
      → IsAllocated (i + 1) n fs b d'
      → IsAllocated i (suc n) fs b d'
  unfolding IsAllocated
  widen n i fs b d' (g, j, buf, d, lo, hi, p1, p2, p3, p4, p5, p6) =
      (g, j, buf, d, omega (arith, lo), omega (arith, hi), p1, p2, p3, p4, p5, p6)

  alloc_groups-IsAllocated :
      (n i : ℕ) (fs : Ext2Data) (d : D) (b : ℕ) (d' : D)
      → alloc_groups read write write_table write_back n i fs d ≡ ok (value b, d')
      → IsAllocated i n fs b d'
  unfolding alloc_groups IsAllocated
  alloc_groups-IsAllocated zero i fs d b d' h = absurd (ground arith)
  alloc_groups-IsAllocated (suc n) i fs d b d' h =
      let later =
        λ (x : D)
            (e : alloc_groups read write write_table write_back n (i + 1) fs x ≡ ok (value b, d')).
          widen n i fs b d' (alloc_groups-IsAllocated n (i + 1) fs x b d' e) in
      elim (Bool-cases ((fs.bgdt i).free_block_count == 0)) [
        | inl full ↦ later d (rw full at h)
        | inr room ↦ elim (Result-cases (read (fs.bgdt i).block_bitmap_no d)) [
          | inr (e, r) ↦ absurd (ground (arith, room, r))
          | inl (buf, r) ↦ elim (Run-cases (find_clear fs buf)) [
            | inl bad ↦ absurd (ground (arith, room, r, bad))
            | inr (inl (c, bad)) ↦ absurd (ground (arith, room, r, bad))
            | inr (inr (none, found)) ↦ later d (rw (room, r, found) at h)
            | inr (inr (some j, found)) ↦
                let c = commit_block read write write_table write_back fs i j buf d in
                elim (Bool-cases c.0) [
                  | inr failed ↦ later c.1 (ground (arith, room, r, found, failed))
                  | inl fine ↦
                      let (inside, clear, before) = find_clear-first fs buf j found in
                      let number : b ≡ i * fs.block_group_block_count + j + 1 =
                        ground (arith, room, r, found, fine) in
                      let device : c.1 ≡ d' = ground (arith, room, r, found, fine) in
                      (
                        i,
                        j,
                        buf,
                        d,
                        omega arith,
                        omega arith,
                        inside,
                        number,
                        r,
                        clear,
                        before,
                        commit_block-IsCommitted fs i j buf d d'
                            (ap (λ x. (x, c.1)) fine ∙ ap (λ x. (true, x)) device),
                      )
                ]
          ]
        ]
      ]

  -- A block that is allocated, whatever the operations of the device do, belongs to a group of
  -- the table; its bit was the first clear one in the bitmap that was read for the group; a
  -- bitmap in which this bit is set and all others are as they were has been written in its
  -- place with success, and then the part of the table with the group, and the superblock was
  -- written back.
  pub block_alloc-IsAllocated :
      (memory : Bool) (fs : Ext2Data) (d : D) (b : ℕ) (d' : D)
      → block_alloc read write write_table write_back memory (some fs) d ≡ ok (value b, d')
      → IsAllocated 0 fs.bgdt_entry_count fs b d'
  unfolding block_alloc
  block_alloc-IsAllocated true fs d b d' h =
      alloc_groups-IsAllocated fs.bgdt_entry_count 0 fs d b d' h
  block_alloc-IsAllocated false fs d b d' h = absurd (ground arith)
