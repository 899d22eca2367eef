-- ===== src/Ext2/File/Tests.antt =====
-- A file of two blocks on a device that is a function of the block: the theorems at inputs that
-- meet their hypotheses, and runs of the operations.
use Prim.Native.Nat.{min, max}
use project_dionysus.Base.{
  ℕ, ◌+◌, ◌-◌, ◌%◌, ◌<◌, ◌≡◌, refl, none, some, Option, ErrorCode, ok, Result, value, error,
  error_eof, error_invalid, ◌==◌, ==_refl, ltb, if◌then◌else◌, arith, true,
}
use project_dionysus.AddressSpace.{roundup, rounddown}
use project_dionysus.Ext2.Bytes.{Bytes, memmove, byte_at}
use project_dionysus.Ext2.Index.{Addresses, addr_count_per_block, inode_set_index}
use project_dionysus.Ext2.File.{
  FileInode, inode_size, block_count, read_from, write_to, inode_resize, expand, leave_resize,
  finish_resize, inode_set_size, seek, SeekMethod,
}
use project_dionysus.Ext2.File.Writing.{IsDisk, IsApart}
use project_dionysus.Ext2.File.Written.{
  IsElsewhere, IsFile, Written, write_to-Written, read_from-write_to,
}
use project_dionysus.Ext2.File.Reading.{read_from-memmove}
use project_dionysus.Ext2.File.Resize.{inode_resize-grows, Keeps}

abbrev Device : Type 0
Device = ℕ → Bytes

abbrev read : ℕ → Device → Result Bytes
read block d = value (d block)

abbrev read_addrs : ℕ → Device → Result Addresses
read_addrs block d = value (d block)

-- The buffer is cleared when it is deleted.
abbrev stale : Addresses → Addresses
stale addrs i = 0

abbrev write : ℕ → Bytes → Device → Option ErrorCode × Device
write block a d = (none, λ b. if block == b then a else d b)

abbrev alloc : Device → Result ℕ × Device
alloc d = (value 90, d)

abbrev free : ℕ → Device → Option ErrorCode × Device
free block d = (none, d)

-- Inodes are in block 5.
abbrev write_inode : FileInode → Device → Option ErrorCode × Device
write_inode inode d = write 5 (λ i. inode.size_lower) d

-- The blocks of the file are 20 and 21; the numbers behind them are zero.
abbrev file : FileInode
file = record {
  size_lower = 1500;
  size_upper = 0;
  mtime = 0;
  sector_count = 2;
  blocks = record { direct_blocks = λ i. if ltb i 2 then 20 + i else 0; indirect_block_l1 = 0 };
}

abbrev numbered : Device
numbered block i = (block + i) % 256

abbrev on_disk : ℕ → Bytes
on_disk k = numbered (20 + k)

abbrev ones : Bytes
ones i = 1

write-IsDisk : IsDisk read write
write-IsDisk = record {
  succeeds = λ b buf d. refl;
  kept = λ b buf d. rw (==_refl b) refl;
  others = λ b c buf d h. ground arith;
}

file-IsApart : IsApart 2 file.blocks
file-IsApart i j a b h = ground arith

write_inode-IsElsewhere : IsElsewhere read write_inode 2 file.blocks
write_inode-IsElsewhere = record {
  succeeds = λ inode d. refl;
  others = λ inode d k lt. ground arith;
}

file_held : (k : ℕ) → k < 2 → read (file.blocks.direct_blocks k) numbered ≡ value (on_disk k)
file_held k lt = ground arith

file-IsFile :
    IsFile read read_addrs stale write write alloc free write_inode 1024 2 file on_disk numbered
unfolding inode_size block_count roundup rounddown
file-IsFile = record {
  some_bytes = omega arith;
  fits_buffer = omega arith;
  counted = omega arith;
  few = omega arith;
  small = omega arith;
  disk = write-IsDisk;
  apart = file-IsApart;
  elsewhere = write_inode-IsElsewhere;
  held = file_held;
}

read_from-memmove_example :
    read_from read read_addrs stale write write alloc free write_inode true
      (some 1024)
      file
      1000
      ones
      100
      numbered
    ≡ ok (
      value (min 100 (inode_size file - 1000)),
      1000 + min 100 (inode_size file - 1000),
      memmove (min 100 (inode_size file - 1000)) ones 0 (byte_at 1024 on_disk) 1000,
    )
unfolding inode_size
read_from-memmove_example =
    read_from-memmove read read_addrs stale write write alloc free write_inode 1024 2 file on_disk
      1000 100 ones numbered file_held (omega arith) (omega arith) (omega arith) (omega arith)

write_to-Written_example :
    (after : FileInode) × (d' : Device) × (write_to read read_addrs stale write write alloc free
        write_inode true
        (some 1024)
        file
        1000
        ones
        100
        7
        numbered
      ≡ ok (value 100, 1100, after, d'))
    × Written read read_addrs stale write write alloc free write_inode 1024 2 file after
        (memmove 100 (byte_at 1024 on_disk) 1000 ones 0)
        (max 1100 (inode_size file))
        d'
unfolding inode_size block_count roundup rounddown
write_to-Written_example =
    write_to-Written read read_addrs stale write write alloc free write_inode 1024 2 file on_disk
      1000 100 7 ones numbered file-IsFile (omega arith) (omega arith) refl

read_from-write_to_example :
    (after : FileInode) × (d' : Device) × (write_to read read_addrs stale write write alloc free
        write_inode true
        (some 1024)
        file
        1000
        ones
        100
        7
        numbered
      ≡ ok (value 100, 1100, after, d'))
    × ((room : Bytes)
        → (out : Bytes) × (read_from read read_addrs stale write write alloc free write_inode true
              (some 1024)
              after
              1000
              room
              100
              d'
            ≡ ok (value 100, 1100, out))
          × ((j : ℕ) → j < 100 → out j ≡ ones j))
unfolding inode_size block_count roundup rounddown
read_from-write_to_example =
    read_from-write_to read read_addrs stale write write alloc free write_inode 1024 2 file on_disk
      1000 100 7 ones numbered file-IsFile (omega arith) (omega arith) (omega arith) refl

abbrev grown_file : FileInode
grown_file = record {
  size_lower = 2500;
  size_upper = 0;
  mtime = 0;
  sector_count = 3;
  blocks = record {
    direct_blocks = λ j. if 2 == j then 90 else (if ltb j 2 then 20 + j else 0);
    indirect_block_l1 = 0;
  };
}

inode_resize-grows_example :
    (inode_size grown_file ≡ 2500)
    × (grown_file.sector_count ≡ block_count 1024 2500)
    × Keeps read read_addrs stale write write alloc free write_inode
        (block_count 1024 (inode_size file))
        file.blocks
        grown_file.blocks
unfolding inode_resize expand inode_size block_count roundup rounddown addr_count_per_block
    leave_resize inode_set_index finish_resize inode_set_size
inode_resize-grows_example =
    inode_resize-grows read read_addrs stale write write alloc free write_inode 1024 file grown_file
      2500 numbered numbered (omega arith) (omega arith) (omega arith) refl

-- The position 0 is refused.
rewind : seek (some 100) (some file) 0 SeekMethod.from_start ≡ (error error_invalid, some 100)
unfolding seek
rewind = refl

at_end :
    read_from read read_addrs stale write write alloc free write_inode true
      (some 1024)
      file
      1500
      ones
      100
      numbered
    ≡ ok (error error_eof, 1500, ones)
unfolding read_from inode_size
at_end = refl
