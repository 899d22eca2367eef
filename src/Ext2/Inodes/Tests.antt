-- ===== src/Ext2/Inodes/Tests.antt =====
-- Inodes of 128 bytes in groups of 32, on a device that is a function of the block: the theorem at
-- an input that meets its hypotheses.
use project_dionysus.Base.{
  ℕ, ◌+◌, ◌*◌, ◌≡◌, ◌≢◌, refl, none, some, Option, ErrorCode, Result, value, ◌==◌, ==_refl,
  if◌then◌else◌, arith,
}
use project_dionysus.Ext2.Bytes.{Bytes, memmove}
use project_dionysus.Ext2.File.Writing.{IsDisk}
use project_dionysus.Ext2.Inodes.{InodeData, set_atime, inode_read, inode_write, out_of_range}
use project_dionysus.Ext2.Inodes.Table.{IsLaidOut, inode_read-inode_write}

abbrev Device : Type 0
Device = ℕ → Bytes

abbrev read : ℕ → Device → Result Bytes
read block d = value (d block)

abbrev write : ℕ → Bytes → Device → Option ErrorCode × Device
write block a d = (none, λ b. if block == b then a else d b)

abbrev tables : InodeData
tables = record {
  block_size = 1024;
  inode_size = 128;
  inodes_per_block = 8;
  inode_count = 100;
  block_group_inode_count = 32;
  inode_table_no = λ g. 10 + 4 * g;
}

write-IsDisk : IsDisk read write
write-IsDisk = record {
  succeeds = λ b buf d. refl;
  kept = λ b buf d. rw (==_refl b) refl;
  others = λ b c buf d h. ground arith;
}

tables-IsLaidOut : IsLaidOut tables
tables-IsLaidOut = record {
  some_inodes = omega arith;
  some_bytes = omega arith;
  some_in_group = omega arith;
  room = omega arith;
  apart = λ g h i j a b different e. different (omega arith);
}

abbrev blank : Device
blank block i = 0

abbrev inode : Bytes
inode i = i

inode_read-inode_write_example :
    (d' : Device) × (inode_write read write (some tables) 41 inode 7 blank
      ≡ (none, set_atime 7 inode, d'))
    × ((room : Bytes)
        → inode_read read write (some tables) 41 room d'
          ≡ (none, memmove 128 room 0 (set_atime 7 inode) 0))
    × ((other : ℕ) (room : Bytes)
        → other ≢ 41
        → inode_read read write (some tables) other room d'
          ≡ inode_read read write (some tables) other room blank)
unfolding out_of_range
inode_read-inode_write_example =
    inode_read-inode_write read write tables 41 inode 7 blank (blank 15) tables-IsLaidOut
      write-IsDisk refl refl
