-- ===== src/Ext2/Inodes.antt =====
-- Reading and writing inodes in their table: kern/fs/ext2/inode/inode.cc. An inode is the bytes
-- of its structure. The device is a state `D`, and reading and writing a block are parameters;
-- buffers are always allocated. An error code is none for ERROR_SUCCESS.
pub mod Table
mod Tests
use project_dionysus.Base.{
  ℕ, ◌+◌, ◌-◌, ◌*◌, ◌/◌, ◌%◌, ◌^◌, ◌||◌, Bool, Option, none, some, ErrorCode, error_invalid, Result,
  value, error, ltb, leb, if◌then◌else◌,
}
use project_dionysus.Ext2.Bytes.{Bytes, memmove}

-- ext2_data, as far as inodes go: `inode_table_no` is that of a group's descriptor.
pub record InodeData : Type 0 where
  pub block_size : ℕ
  pub inode_size : ℕ
  pub inodes_per_block : ℕ
  pub inode_count : ℕ
  pub block_group_inode_count : ℕ
  pub inode_table_no : ℕ → ℕ

unfoldable pub inode_get_block_group : ℕ → ℕ → ℕ
inode_get_block_group ino per_group = (ino - 1) / per_group

unfoldable pub inode_index_in_block_group : ℕ → ℕ → ℕ
inode_index_in_block_group ino per_group = (ino - 1) % per_group

unfoldable pub inode_block : InodeData → ℕ → ℕ
inode_block data_ inum =
    data_.inode_table_no (inode_get_block_group inum data_.block_group_inode_count)
    + inode_index_in_block_group inum data_.block_group_inode_count / data_.inodes_per_block

unfoldable pub offset_in_block : InodeData → ℕ → ℕ
offset_in_block data_ inum =
    inode_index_in_block_group inum data_.block_group_inode_count
    % data_.inodes_per_block
    * data_.inode_size

-- The check of the number: EXT2_FIRST_INODE_NUMBER is 1.
unfoldable pub out_of_range : InodeData → ℕ → Bool
out_of_range data_ inum = ltb inum 1 || leb data_.inode_count inum

-- The field atime: four bytes from byte 8 on, the lowest first.
unfoldable pub set_atime : ℕ → Bytes → Bytes
set_atime now inode i =
    if ltb i 8 then inode i else (if ltb i 12 then now / 256 ^ (i - 8) % 256 else inode i)

module _ {D : Type 0} (read : ℕ → D → Result Bytes)
    (write : ℕ → Bytes → D → Option ErrorCode × D) where
  -- The error code, and the inode.
  unfoldable pub inode_read : Option InodeData → ℕ → Bytes → D → Option ErrorCode × Bytes
  inode_read none inum inode d = (some error_invalid, inode)
  inode_read (some data_) inum inode d =
      if out_of_range data_ inum
      then (some error_invalid, inode)
      else (if leb data_.block_size (offset_in_block data_ inum)
          then (some error_invalid, inode)
          else elim (read (inode_block data_ inum) d) [
            | error e ↦ (some e, inode)
            | value buf ↦ (none, memmove data_.inode_size inode 0 buf (offset_in_block data_ inum))
          ])

  -- The write at the time `now`: the error code, the inode, and the device.
  unfoldable pub inode_write : Option InodeData → ℕ → Bytes → ℕ → D → Option ErrorCode × Bytes × D
  inode_write none inum inode now d = (some error_invalid, set_atime now inode, d)
  inode_write (some data_) inum inode now d =
      let inode' = set_atime now inode in
      if out_of_range data_ inum
      then (some error_invalid, inode', d)
      else (if leb data_.block_size (offset_in_block data_ inum)
          then (some error_invalid, inode', d)
          else elim (read (inode_block data_ inum) d) [
            | error e ↦ (some e, inode', d)
            | value buf ↦
                let done =
                  write (inode_block data_ inum)
                    (memmove data_.inode_size buf (offset_in_block data_ inum) inode' 0) d in
                (done.0, inode', done.1)
          ])
