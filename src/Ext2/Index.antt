-- ===== src/Ext2/Index.antt =====
-- The block numbers of an inode: kern/fs/ext2/inode/index.cc. The device is a state `D`; reading
-- and writing a block of numbers and allocating a block are parameters. The buffer in memory is
-- always there. An error code is none for ERROR_SUCCESS.
pub mod Stored
mod Tests
use project_dionysus.Base.{
  ℕ, ◌+◌, ◌-◌, ◌*◌, ◌/◌, ◌≡◌, Option, none, some, ErrorCode, error_invalid, error_out_of_bound,
  error_not_impl, Result, value, error, ◌==◌, ltb, if◌then◌else◌,
}

-- ext2_inode, as far as its blocks go.
pub record Inode : Type 0 where
  pub direct_blocks : ℕ → ℕ
  pub indirect_block_l1 : ℕ

abbrev pub Addresses : Type 0
Addresses = ℕ → ℕ

abbrev pub direct_block_count : ℕ
direct_block_count = 12

unfoldable pub addr_count_per_block : ℕ → ℕ
addr_count_per_block block_size = block_size / 4

abbrev pub write_at : ℕ → ℕ → Addresses → Addresses
write_at i v addrs j = if i == j then v else addrs j

-- `stale` is what the buffer holds when it has been deleted.
module _ {D : Type 0} (read : ℕ → D → Result Addresses) (stale : Addresses → Addresses) where
  -- `data` is the block size, or none for a null private_data. Behind the direct blocks, the number
  -- is read from the buffer when it has been deleted.
  unfoldable pub inode_get_index : Option ℕ → Inode → ℕ → D → Result ℕ
  inode_get_index none inode index d = error error_invalid
  inode_get_index (some block_size) inode index d =
      let n = addr_count_per_block block_size in
      if ltb index direct_block_count
      then value (inode.direct_blocks index)
      else (if ltb index (direct_block_count + n)
          then (if inode.indirect_block_l1 == 0
              then error error_out_of_bound
              else elim (read inode.indirect_block_l1 d) [
                | error e ↦ error e
                | value addrs ↦ value (stale addrs (index - direct_block_count))
              ])
          else (if ltb index (direct_block_count + n * 3)
              then error error_not_impl
              else error error_invalid))

module _ {D : Type 0} (read : ℕ → D → Result Addresses)
    (write : ℕ → Addresses → D → Option ErrorCode × D) (alloc : D → Result ℕ × D) where
  -- The number is written into the indirect block.
  unfoldable pub store_address : ℕ → ℕ → ℕ → D → Option ErrorCode × D
  store_address block i v d = elim (read block d) [
    | error e ↦ (some e, d)
    | value addrs ↦ write block (write_at i v addrs) d
  ]

  unfoldable pub inode_set_index : Option ℕ → Inode → ℕ → ℕ → D → Option ErrorCode × Inode × D
  inode_set_index none inode index v d = (some error_invalid, inode, d)
  inode_set_index (some block_size) inode index v d =
      let n = addr_count_per_block block_size in
      let i = index - direct_block_count in
      if ltb index direct_block_count
      then (none, record inode { direct_blocks = write_at index v inode.direct_blocks }, d)
      else (if ltb index (direct_block_count + n)
          then (if inode.indirect_block_l1 == 0
              then elim (alloc d).0 [
                | error e ↦ (some e, inode, (alloc d).1)
                | value block ↦ (
                  (store_address block i v (alloc d).1).0,
                  record inode { indirect_block_l1 = block },
                  (store_address block i v (alloc d).1).1,
                )
              ]
              else (
                (store_address inode.indirect_block_l1 i v d).0,
                inode,
                (store_address inode.indirect_block_l1 i v d).1,
              ))
          else (if ltb index (direct_block_count + n * 3)
              then (some error_not_impl, inode, d)
              else (some error_invalid, inode, d)))
