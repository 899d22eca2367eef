-- ===== src/Ext2/Index/Tests.antt =====
-- Block numbers on a device that is a function of the block: the theorems at inputs that meet their
-- hypotheses.
use project_dionysus.Base.{
  ℕ, ◌≡◌, refl, none, some, Option, ErrorCode, Result, value, ◌==◌, ==_refl, if◌then◌else◌,
}
use project_dionysus.Ext2.Index.{
  Inode, Addresses, addr_count_per_block, store_address, inode_set_index,
}
use project_dionysus.Ext2.Index.Stored.{IsKept, Holds, inode_set_index-Holds}

abbrev Device : Type 0
Device = ℕ → Addresses

abbrev read : ℕ → Device → Result Addresses
read block d = value (d block)

abbrev write : ℕ → Addresses → Device → Option ErrorCode × Device
write block a d = (none, λ b. if block == b then a else d b)

abbrev alloc : Device → Result ℕ × Device
alloc d = (value 9, d)

read-IsKept : IsKept read write alloc
read-IsKept block a d h = rw (==_refl block) refl

abbrev inode : Inode
inode = record { direct_blocks = λ i. i; indirect_block_l1 = 5 }

abbrev blank : Device
blank block i = 0

inode_set_index-Holds_example :
    ((inode_set_index read write alloc (some 1024) inode 20 77 blank).1 ≡ inode)
    × Holds read write alloc 5 8 77 blank
        (inode_set_index read write alloc (some 1024) inode 20 77 blank).2
unfolding inode_set_index addr_count_per_block store_address
inode_set_index-Holds_example =
    inode_set_index-Holds read write alloc read-IsKept 1024 inode 20 77 blank refl refl refl refl
