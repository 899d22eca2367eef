-- ===== src/Ext2.antt =====
-- Blocks of the ext2 file system: kern/fs/ext2/block/block.cc and the helpers of
-- include/fs/ext2/ext2.hpp. A bitmap block is its sequence of 64-bit words. The device, with what
-- is on it, is a state `D` and the operations on it are parameters.
pub mod Blocks
pub mod Index
pub mod Bytes
pub mod File
pub mod Inodes
pub mod Directory
mod Tests
use Prim.Native.Nat.{bit_and, bit_or, min}
use project_dionysus.Base.{
  ℕ, zero, suc, ◌+◌, ◌-◌, ◌*◌, ◌/◌, ◌%◌, ◌^◌, ◌≡◌, Bool, true, false, not, Option, none, some,
  ErrorCode, error_invalid, error_memory_alloc, error_no_entry, Result, value, error, ◌==◌,
  if◌then◌else◌, first_index, Run, ok, fault, ◌>>=◌, ltb,
}

-- EXT2_FIRST_INODE_NUMBER is 1.
unfoldable pub block_get_block_group : ℕ → ℕ → ℕ
block_get_block_group block per_group = (block - 1) / per_group

unfoldable pub block_index_in_block_group : ℕ → ℕ → ℕ
block_index_in_block_group block per_group = (block - 1) % per_group

-- ext2_block_group_desc, as far as blocks go.
pub record GroupDesc : Type 0 where
  pub block_bitmap_no : ℕ
  pub free_block_count : ℕ

-- ext2_data, as far as blocks go.
pub record Ext2Data : Type 0 where
  pub block_size : ℕ
  pub block_group_block_count : ℕ
  pub bgdt_entry_count : ℕ
  pub bgdt : ℕ → GroupDesc

abbrev pub Words : Type 0
Words = ℕ → ℕ

-- `!(bitmap_buf[j / 64] & (1 << j % 64))`, and the two writes of a bit.
unfoldable pub is_clear : Words → ℕ → Bool
is_clear buf j = bit_and (buf (j / 64)) (2 ^ (j % 64)) == 0

unfoldable pub set_bit : Words → ℕ → Words
set_bit buf j k = if j / 64 == k then bit_or (buf k) (2 ^ (j % 64)) else buf k

unfoldable pub clear_bit : Words → ℕ → Words
clear_bit buf j k = if j / 64 == k then bit_and (buf k) (2 ^ 64 - 1 - 2 ^ (j % 64)) else buf k

-- How many bits the buffer for a bitmap has: it is one block long, in words of eight bytes.
unfoldable pub buffer_bits : Ext2Data → ℕ
buffer_bits fs = fs.block_size / 8 * 64

-- The first clear bit of a bitmap. The loop goes on past the end of the buffer, which is a fault.
unfoldable pub find_clear : Ext2Data → Words → Run (Option ℕ)
find_clear fs buf =
    elim (first_index (min (buffer_bits fs) fs.block_group_block_count) 0 (is_clear buf)) [
      | some j ↦ ok (some j)
      | none ↦ if ltb (buffer_bits fs) fs.block_group_block_count then fault else ok none
    ]

-- sizeof(ext2_block_group_desc)
abbrev pub group_desc_size : ℕ
group_desc_size = 32

-- `read` and `write` are ext2_block_read and ext2_block_write; `write_table fs from to` writes
-- the part `from` of the group descriptor table to block `to`; `write_back` is
-- superblock_write_back. An error code is none for ERROR_SUCCESS.
module _ {D : Type 0} (read : ℕ → D → Result Words) (write : ℕ → Words → D → Option ErrorCode × D)
    (write_table : Ext2Data → ℕ → ℕ → D → Option ErrorCode × D)
    (write_back : Ext2Data → D → Option ErrorCode × D) where
  -- The writes behind a clear bit, in group `i`. The copies of the descriptor and of the
  -- superblock that are counted down are lost. The result says whether all writes succeeded.
  unfoldable pub commit_block : Ext2Data → ℕ → ℕ → Words → D → Bool × D
  commit_block fs i j buf d =
      let (e1, d1) = write (fs.bgdt i).block_bitmap_no (set_bit buf j) d in
      let from = i * group_desc_size / fs.block_size in
      let (e2, d2) = write_table fs from (from + 2) d1 in
      elim e1 [
        | some _ ↦ (false, d1)
        | none ↦ elim e2 [ some _ ↦ (false, d2) | none ↦ (true, (write_back fs d2).1) ]
      ]

  -- The loop over the groups, from group `i` on. A write that fails goes on to the next group.
  unfoldable pub alloc_groups : ℕ → ℕ → Ext2Data → D → Run (Result ℕ × D)
  alloc_groups zero i fs d = ok (error error_no_entry, d)
  alloc_groups (suc n) i fs d =
      let per_group = fs.block_group_block_count in
      let next = alloc_groups n (i + 1) fs in
      if (fs.bgdt i).free_block_count == 0
      then next d
      else elim (read (fs.bgdt i).block_bitmap_no d) [
        | error e ↦ ok (error e, d)
        | value buf ↦ find_clear fs buf >>= λ found. elim found [
          | none ↦ next d
          | some j ↦
              let c = commit_block fs i j buf d in
              elim c.0 [ true ↦ ok (value (i * per_group + j + 1), c.1) | false ↦ next c.1 ]
        ]
      ]

  -- `fs` is null when the file system has no private data; `memory` says whether the buffer
  -- was allocated.
  unfoldable pub block_alloc : Bool → Option Ext2Data → D → Run (Result ℕ × D)
  block_alloc memory none d = ok (error error_invalid, d)
  block_alloc memory (some fs) d =
      if memory then alloc_groups fs.bgdt_entry_count 0 fs d else ok (error error_memory_alloc, d)

  -- The part of ext2_block_free behind the bitmap that was read: the error code, the table in
  -- memory, and the device.
  unfoldable pub release_block : Ext2Data → ℕ → ℕ → Words → D → Option ErrorCode × Ext2Data × D
  release_block fs group index buf d =
      let no = (fs.bgdt group).block_bitmap_no in
      let (e1, d1) = write no (clear_bit buf index) d in
      let fs' = record fs {
        bgdt = λ g.
            if group == g
            then record (fs.bgdt g) {
              free_block_count = ((fs.bgdt g).free_block_count + 1) % 2 ^ 16;
            }
            else fs.bgdt g;
      } in
      let (e2, d2) = write_table fs' (group * group_desc_size / fs.block_size) (no + 2) d1 in
      let (e3, d3) = write_back fs' d2 in
      elim e1 [
        | some e ↦ (some e, fs, d1)
        | none ↦ elim e2 [ some e ↦ (some e, fs', d2) | none ↦ (e3, fs', d3) ]
      ]

  unfoldable pub block_free : ℕ → Ext2Data → D → Run (Option ErrorCode × Ext2Data × D)
  block_free block fs d =
      let group = block_get_block_group block fs.block_group_block_count in
      let index = block_index_in_block_group block fs.block_group_block_count in
      if block == 0
      then ok (some error_invalid, fs, d)
      else elim (read (fs.bgdt group).block_bitmap_no d) [
        | error e ↦ ok (some e, fs, d)
        | value buf ↦
            if ltb index (buffer_bits fs) then ok (release_block fs group index buf d) else fault
      ]
