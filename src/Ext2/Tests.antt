-- ===== src/Ext2/Tests.antt =====
-- Blocks on concrete data: the theorems at inputs that meet their hypotheses.
use project_dionysus.Base.{
  ℕ, refl, true, none, Option, ErrorCode, Result, value, first_index, ◌==◌, if◌then◌else◌,
}
use project_dionysus.Ext2.{
  Ext2Data, Words, is_clear, set_bit, buffer_bits, find_clear, commit_block, alloc_groups,
  block_alloc,
}
use project_dionysus.Ext2.Blocks.{IsAllocated, block_alloc-IsAllocated}

-- A disk is its blocks, and every operation on it succeeds. The table and the superblock are
-- written nowhere.
abbrev Disk : Type 0
Disk = ℕ → Words

abbrev read : ℕ → Disk → Result Words
read n d = value (d n)

abbrev write : ℕ → Words → Disk → Option ErrorCode × Disk
write n buf d = (none, λ k. if n == k then buf else d k)

abbrev write_table : Ext2Data → ℕ → ℕ → Disk → Option ErrorCode × Disk
write_table fs from to d = (none, d)

abbrev write_back : Ext2Data → Disk → Option ErrorCode × Disk
write_back fs d = (none, d)

-- One group, whose bitmap is block 3 with the first two bits set.
abbrev small : Ext2Data
small = record {
  block_size = 1024;
  block_group_block_count = 8;
  bgdt_entry_count = 1;
  bgdt = λ _. record { block_bitmap_no = 3; free_block_count = 6 };
}

abbrev disk : Disk
disk n k = if n == 3 then 3 else 0

abbrev disk_after : Disk
disk_after n = if 3 == n then set_bit (disk 3) 2 else disk n

block_alloc-IsAllocated_example :
    IsAllocated read write write_table write_back 0 1 small 3 disk_after
unfolding block_alloc alloc_groups commit_block is_clear first_index buffer_bits find_clear
block_alloc-IsAllocated_example =
    block_alloc-IsAllocated read write write_table write_back true small disk 3 disk_after refl
