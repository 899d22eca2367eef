-- ===== src/Ext2/File/Content.antt =====
-- The contents of a file whose blocks are direct ones, and the blocks that are read and written.
use project_dionysus.Base.{
  ℕ, ◌%◌, ◌^◌, ◌≤◌, ◌<◌, ◌≡◌, refl, true, false, ltb, Option, some, ok, ErrorCode, Result, value,
  arith,
}
use project_dionysus.Ext2.Bytes.{Bytes}
use project_dionysus.Ext2.Index.{Inode, Addresses, inode_get_index}
use project_dionysus.Ext2.File.{FileInode, fill, inode_read_block, inode_write_block}

pub get_index_direct :
    {D : Type 0} (read_addrs : ℕ → D → Result Addresses) (stale : Addresses → Addresses)
    (block_size : ℕ) (inode : Inode) (k : ℕ) (d : D)
    → k < 12
    → inode_get_index read_addrs stale (some block_size) inode (k % 2 ^ 32) d
      ≡ value (inode.direct_blocks k)
unfolding inode_get_index
get_index_direct read_addrs stale block_size inode k d h =
    let e : k % 2 ^ 32 ≡ k = omega arith in
    let near : ltb (k % 2 ^ 32) 12 ≡ true = ground arith in rw near (rw e refl)

module _ {D : Type 0} (read : ℕ → D → Result Bytes) (read_addrs : ℕ → D → Result Addresses)
    (stale : Addresses → Addresses) (write : ℕ → Bytes → D → Option ErrorCode × D)
    (write_addrs : ℕ → Addresses → D → Option ErrorCode × D) (alloc : D → Result ℕ × D)
    (free : ℕ → D → Option ErrorCode × D) (write_inode : FileInode → D → Option ErrorCode × D) where
  -- The first `count` direct blocks of the inode can be read, and hold `content`.
  abbrev pub IsContent : ℕ → Inode → (ℕ → Bytes) → D → Type 0
  IsContent count inode content d =
      (k : ℕ) → k < count → read (inode.direct_blocks k) d ≡ value (content k)

  pub inode_read_block-direct :
      (room block_size count : ℕ) (inode : Inode) (content : ℕ → Bytes) (k : ℕ) (d : D)
      → IsContent count inode content d
      → count ≤ 12
      → k < count
      → block_size ≤ room
      → inode_read_block read read_addrs stale write write_addrs alloc free write_inode room
          block_size inode k d
        ≡ ok (value (content k))
  unfolding fill inode_read_block
  inode_read_block-direct room block_size count inode content k d c few h r =
      let found = get_index_direct read_addrs stale block_size inode k d (omega arith) in
      let roomy : ltb room block_size ≡ false = ground arith in
      rw (inode_read_block, found, c k h, roomy) refl

  pub inode_write_block-direct :
      (block_size : ℕ) (inode : Inode) (buf : Bytes) (k : ℕ) (d : D)
      → k < 12
      → inode_write_block read read_addrs stale write write_addrs alloc free write_inode block_size
          inode buf k d
        ≡ ok (write (inode.direct_blocks k) buf d)
  unfolding inode_write_block
  inode_write_block-direct block_size inode buf k d h =
      let found = get_index_direct read_addrs stale block_size inode k d h in
      rw (inode_write_block, found) refl
