-- ===== src/Ext2/File.antt =====
-- Files of ext2: reading, writing and seeking of kern/fs/ext2/vnode.cc, the blocks of an inode in
-- kern/fs/ext2/inode/inode.cc, and kern/fs/ext2/inode/resize.cc. The device is a state `D`, which
-- for freeing blocks also holds the tables in memory; reading a block as bytes and as numbers,
-- writing it, allocating and freeing a block, and writing back an inode are
-- parameters, as is what a deleted buffer holds. Locks are left out.
pub mod Content
pub mod Reading
pub mod Writing
pub mod Written
pub mod Overflow
pub mod Resize
mod Tests
use Prim.Native.Nat.{min, max}
use project_dionysus.Base.{
  ℕ, zero, suc, ◌+◌, ◌-◌, ◌*◌, ◌/◌, ◌%◌, ◌^◌, Bool, true, false, ◌||◌, Option, none, some, Run, ok,
  fault, ◌>>=◌, deref, ErrorCode, error_invalid, error_memory_alloc, error_internal, error_eof,
  error_not_file, Result, value, error, ◌==◌, ltb, leb, if◌then◌else◌,
}
use project_dionysus.AddressSpace.{roundup}
use project_dionysus.Ext2.Bytes.{Bytes, memmove}
use project_dionysus.Ext2.Index.{
  Inode, Addresses, inode_get_index, inode_set_index, direct_block_count, addr_count_per_block,
}

-- ext2_inode, as far as the contents of a file go.
pub record FileInode : Type 0 where
  pub size_lower : ℕ
  pub size_upper : ℕ
  pub mtime : ℕ
  pub sector_count : ℕ
  pub blocks : Inode

-- The halves are 32 bits wide.
unfoldable pub inode_size : FileInode → ℕ
inode_size inode = inode.size_upper * 2 ^ 32 + inode.size_lower

unfoldable pub inode_set_size : FileInode → ℕ → FileInode
inode_set_size inode sz = record inode {
  size_lower = sz % 2 ^ 32;
  size_upper = sz / 2 ^ 32 % 2 ^ 32;
}

pub data SeekMethod : Type 0 where
  from_start from_current from_end : SeekMethod

-- ext2_vnode::seek from the position `pos`: what it returns, and the position after it.
unfoldable pub seek : Option ℕ → Option FileInode → ℕ → SeekMethod → Result ℕ × Option ℕ
seek none inode offset method = (error error_invalid, none)
seek (some pos) none offset method = (error error_invalid, some pos)
seek (some pos) (some inode) offset method =
    let new_pos : ℕ = elim method [
      | SeekMethod.from_start ↦ offset
      | SeekMethod.from_current ↦ (pos + offset) % 2 ^ 64
      | SeekMethod.from_end ↦ (inode_size inode + offset) % 2 ^ 64
    ] in
    if leb new_pos 0 then (error error_invalid, some pos) else (value new_pos, some new_pos)

-- The reader's place in the file, what it has read, and the caller's buffer.
pub record Reader : Type 0 where
  pub pos : ℕ
  pub has_read : ℕ
  pub buf : Bytes

pub record Writer : Type 0 where
  pub pos : ℕ
  pub offset : ℕ

-- The fields that a resize sets when its blocks are there.
unfoldable pub finish_resize : FileInode → ℕ → ℕ → Inode → FileInode
finish_resize inode new_size new_count blocks =
    let real_block_count = new_count + (if ltb direct_block_count new_count then 1 else 0) in
    record (inode_set_size inode new_size) {
      blocks = blocks;
      sector_count = real_block_count % 2 ^ 32;
    }

unfoldable pub leave_resize :
    {D : Type 0}
    → FileInode
    → ℕ
    → ℕ
    → Option ErrorCode × Inode × D
    → Option ErrorCode × FileInode × D
leave_resize inode new_size new_count (some e, blocks, d) =
    (some e, record inode { blocks = blocks }, d)
leave_resize inode new_size new_count (none, blocks, d) =
    (none, finish_resize inode new_size new_count blocks, d)

unfoldable pub block_count : ℕ → ℕ → ℕ
block_count block_size size = roundup size block_size / block_size

module _ {D : Type 0} (read : ℕ → D → Result Bytes) (read_addrs : ℕ → D → Result Addresses)
    (stale : Addresses → Addresses) (write : ℕ → Bytes → D → Option ErrorCode × D)
    (write_addrs : ℕ → Addresses → D → Option ErrorCode × D) (alloc : D → Result ℕ × D)
    (free : ℕ → D → Option ErrorCode × D) (write_inode : FileInode → D → Option ErrorCode × D) where
  -- A block that was read, of `block_size` bytes, in a buffer of `room` bytes.
  unfoldable pub fill : ℕ → ℕ → Result Bytes → Run (Result Bytes)
  fill room block_size (error e) = ok (error e)
  fill room block_size (value block) = if ltb room block_size then fault else ok (value block)

  -- A block of `block_size` bytes is read into a buffer of `room` bytes. The index is 32 bits wide.
  unfoldable pub inode_read_block : ℕ → ℕ → Inode → ℕ → D → Run (Result Bytes)
  inode_read_block room block_size inode index d =
      elim (inode_get_index read_addrs stale (some block_size) inode (index % 2 ^ 32) d) [
        | error e ↦ ok (error e)
        | value block ↦ fill room block_size (read block d)
      ]

  unfoldable pub inode_write_block : ℕ → Inode → Bytes → ℕ → D → Run (Option ErrorCode × D)
  inode_write_block block_size inode buf index d =
      elim (inode_get_index read_addrs stale (some block_size) inode (index % 2 ^ 32) d) [
        | error e ↦ ok (some e, d)
        | value block ↦ ok (write block buf d)
      ]

  -- The loop of ext2_vnode::read, with `size` bytes left.
  unfoldable pub read_blocks : ℕ → ℕ → Inode → ℕ → Reader → D → Run (Option ErrorCode × Reader)
  read_blocks zero block_size inode size r d = ok (none, r)
  read_blocks (suc n) block_size inode size r d =
      let block_off = r.pos % block_size in
      let readable = min size (block_size - block_off) in
      if size == 0
      then ok (none, r)
      else (inode_read_block block_size block_size inode (r.pos / block_size) d >>= λ got.
          elim got [
            | error e ↦ ok (some e, r)
            | value block ↦
                read_blocks n block_size inode (size - readable)
                  record {
                    pos = r.pos + readable;
                    has_read = r.has_read + readable;
                    buf = memmove readable r.buf r.has_read block block_off;
                  }
                  d
          ])

  -- ext2_vnode::read behind its checks for null: `data` is the block size, or none for a null
  -- private_data, and `memory` says whether a block's buffer was allocated.
  unfoldable pub read_from :
      Bool → Option ℕ → FileInode → ℕ → Bytes → ℕ → D → Run (Result ℕ × ℕ × Bytes)
  read_from memory data_ inode pos buf sz d =
      let size = min sz (inode_size inode - pos) in
      if leb (inode_size inode) pos
      then ok (error error_eof, pos, buf)
      else (deref data_ >>= λ block_size.
          if memory
          then (read_blocks size block_size inode.blocks size
                record { pos = pos; has_read = 0; buf = buf } d
              >>= λ r. elim r.0 [
                | some e ↦ ok (error e, r.1.pos, r.1.buf)
                | none ↦ ok (value r.1.has_read, r.1.pos, r.1.buf)
              ])
          else ok (error error_memory_alloc, pos, buf))

  -- `fd` is the position of the file object, and `fs` is none for a file of no file system.
  unfoldable pub vnode_read :
      Bool
      → Option (Option ℕ)
      → Option FileInode
      → Option ℕ
      → Option Bytes
      → ℕ
      → D
      → Run (Result ℕ × Option ℕ × Option Bytes)
  vnode_read memory fs inode none buf sz d = ok (error error_invalid, none, buf)
  vnode_read memory fs inode (some pos) none sz d = ok (error error_invalid, some pos, none)
  vnode_read memory fs none (some pos) (some buf) sz d =
      ok (error error_internal, some pos, some buf)
  vnode_read memory none (some inode) (some pos) (some buf) sz d =
      ok (error error_internal, some pos, some buf)
  vnode_read memory (some data_) (some inode) (some pos) (some buf) sz d =
      read_from memory data_ inode pos buf sz d >>= λ r. ok (r.0, some r.1, some r.2)

  -- The loop of ext2_inode_resize that frees the blocks from `index` on, `n` of them.
  unfoldable pub shrink : ℕ → ℕ → ℕ → Inode → D → Option ErrorCode × D
  shrink zero block_size index inode d = (none, d)
  shrink (suc n) block_size index inode d =
      elim (inode_get_index read_addrs stale (some block_size) inode index d) [
        | error e ↦ (some e, d)
        | value block ↦ elim (free block d).0 [
          | some e ↦ (some e, (free block d).1)
          | none ↦ shrink n block_size (index + 1) inode (free block d).1
        ]
      ]

  -- The loop that allocates the blocks from `index` on, `n` of them.
  unfoldable pub expand : ℕ → ℕ → ℕ → Inode → D → Option ErrorCode × Inode × D
  expand zero block_size index inode d = (none, inode, d)
  expand (suc n) block_size index inode d = elim (alloc d).0 [
    | error e ↦ (some e, inode, (alloc d).1)
    | value block ↦
        let set =
          inode_set_index read_addrs write_addrs alloc (some block_size) inode index block
            (alloc d).1 in
        elim set.0 [ some e ↦ set | none ↦ expand n block_size (index + 1) set.1 set.2 ]
  ]

  -- The indirect block is freed with the last of the blocks behind the direct ones.
  unfoldable pub free_indirect : ℕ → ℕ → ℕ → Inode → D → Option ErrorCode × Inode × D
  free_indirect old_count new_count addr_count inode d =
      if ltb direct_block_count old_count
      then (if leb new_count (direct_block_count + addr_count)
          then (if inode.indirect_block_l1 == 0 then (some error_invalid, inode, d) else (
            (free inode.indirect_block_l1 d).0,
            record inode { indirect_block_l1 = 0 },
            (free inode.indirect_block_l1 d).1,
          ))
          else (none, inode, d))
      else (none, inode, d)

  -- The frees of a resize to fewer blocks.
  unfoldable pub shrunk : ℕ → ℕ → ℕ → ℕ → Inode → D → Option ErrorCode × Inode × D
  shrunk block_size old_count new_count addr_count inode d =
      let s = shrink (old_count - new_count) block_size new_count inode d in
      elim s.0 [
        | some e ↦ (some e, inode, s.1)
        | none ↦ free_indirect old_count new_count addr_count inode s.1
      ]

  unfoldable pub inode_resize : Option ℕ → FileInode → ℕ → D → Option ErrorCode × FileInode × D
  inode_resize none inode new_size d = (some error_invalid, inode, d)
  inode_resize (some block_size) inode new_size d =
      let new_count = block_count block_size new_size in
      let old_count = block_count block_size (inode_size inode) in
      let addr_count = addr_count_per_block block_size in
      let most = direct_block_count + addr_count in
      if ltb most new_count || ltb most old_count
      then (some error_invalid, inode, d)
      else (if ltb new_count old_count
          then leave_resize inode new_size new_count
              (shrunk block_size old_count new_count addr_count inode.blocks d)
          else leave_resize inode new_size new_count
              (expand (new_count - old_count) block_size old_count inode.blocks d))

  -- One round of the loop of ext2_vnode::write: `writable` bytes of `buf` from `offset` on go to
  -- the block at `pos`. The buffer for a part of a block has 1024 bytes, or none without memory.
  unfoldable pub write_part : Bool → ℕ → Inode → Bytes → ℕ → ℕ → ℕ → D → Run (Option ErrorCode × D)
  write_part memory block_size inode buf offset pos writable d =
      let index = pos / block_size in
      if writable == 0
      then ok (some error_internal, d)
      else (if writable == block_size
          then inode_write_block block_size inode (λ i. buf (offset + i)) index d
          else (inode_read_block (if memory then 1024 else 0) block_size inode index d >>= λ got.
              elim got [
                | error e ↦ ok (some e, d)
                | value block ↦
                    inode_write_block block_size inode
                      (memmove writable block (pos % block_size) buf offset) index d
              ]))

  unfoldable pub write_blocks :
      Bool → ℕ → ℕ → Inode → Bytes → ℕ → Writer → D → Run (Option ErrorCode × Writer × D)
  write_blocks memory zero block_size inode buf sz w d = ok (none, w, d)
  write_blocks memory (suc n) block_size inode buf sz w d =
      let writable = min sz (block_size - w.pos % block_size) in
      if sz == 0
      then ok (none, w, d)
      else (write_part memory block_size inode buf w.offset w.pos writable d >>= λ r. elim r.0 [
        | some e ↦ ok (some e, w, r.1)
        | none ↦
            write_blocks memory n block_size inode buf (sz - writable)
              record { pos = w.pos + writable; offset = w.offset + writable } r.1
      ])

  -- The part of ext2_vnode::write behind the resize, which left an error code, the inode and the
  -- device.
  unfoldable pub write_resized :
      Bool
      → ℕ
      → ℕ
      → Bytes
      → ℕ
      → ℕ
      → Option ErrorCode × FileInode × D
      → Run (Result ℕ × ℕ × FileInode × D)
  write_resized memory block_size pos buf sz now (some e, inode, d) = ok (error e, pos, inode, d)
  write_resized memory block_size pos buf sz now (none, inode, d) =
      write_blocks memory sz block_size inode.blocks buf sz record { pos = pos; offset = 0 } d
      >>= λ w. elim w.0 [
        | some e ↦ ok (error e, w.1.pos, inode, w.2)
        | none ↦
            let inode' = record inode { mtime = now } in
            ok (
              elim (write_inode inode' w.2).0 [ some e ↦ error e | none ↦ value w.1.offset ],
              w.1.pos,
              inode',
              (write_inode inode' w.2).1,
            )
      ]

  -- ext2_vnode::write behind its checks for null, at the time `now`: what it returns, the
  -- position, the inode and the device. `memory` says whether the buffer was allocated.
  unfoldable pub write_to :
      Bool → Option ℕ → FileInode → ℕ → Bytes → ℕ → ℕ → D → Run (Result ℕ × ℕ × FileInode × D)
  write_to memory data_ inode pos buf sz now d = deref data_ >>= λ block_size.
      if ltb (inode_size inode) pos
      then ok (error error_eof, pos, inode, d)
      else write_resized memory block_size pos buf sz now
          (inode_resize (some block_size) inode (max ((pos + sz) % 2 ^ 64) (inode_size inode)) d)

  -- ext2_vnode::truncate of a file with an inode and a file system; `is_regular` is its type.
  unfoldable pub truncate :
      Bool → Option ℕ → FileInode → ℕ → ℕ → D → Option ErrorCode × FileInode × D
  truncate is_regular data_ inode size now d =
      if is_regular
      then (let s = inode_resize data_ inode size d in
          elim s.0 [
            | some e ↦ s
            | none ↦
                let inode' = record (s.1) { mtime = now } in
                ((write_inode inode' s.2).0, inode', (write_inode inode' s.2).1)
          ])
      else (some error_not_file, inode, d)
