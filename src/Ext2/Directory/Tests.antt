-- ===== src/Ext2/Directory/Tests.antt =====
-- A directory of two blocks, both with an entry in use: the theorem at inputs that meet its
-- hypotheses, for a name of the first block and for one of the second.
use project_dionysus.Base.{
  ℕ, zero, suc, ◌≡◌, refl, List, [], ◌∷◌, none, some, Option, ErrorCode, error_no_entry, Run, ok,
  Result, value, error, ◌==◌, if◌then◌else◌, arith,
}
use project_dionysus.Ext2.Bytes.{Bytes}
use project_dionysus.Ext2.Inodes.{InodeData}
use project_dionysus.Ext2.Directory.{
  find, load_vnode, entry_ino, ent_size, name_length_low, starts_with, initialize_from_inode,
  vnt_reg,
}
use project_dionysus.Ext2.Directory.Listing.{Entry, Lists, find-lookup}

abbrev at : List ℕ → Bytes
at [] i = 0
at (x ∷ xs) zero = x
at (x ∷ xs) (suc i) = at xs i

-- The entries `.` and `ab`.
abbrev first_block : Bytes
first_block = at (
    2 ∷ 0 ∷ 0 ∷ 0 ∷ 12 ∷ 0 ∷ 1 ∷ 2 ∷ 46 ∷ 0 ∷ 0 ∷ 0 ∷ 5 ∷ 0 ∷ 0 ∷ 0 ∷ 244 ∷ 3 ∷ 2 ∷ 1 ∷ 97 ∷ 98
    ∷ [])

-- The entry `c`.
abbrev second_block : Bytes
second_block = at (7 ∷ 0 ∷ 0 ∷ 0 ∷ 0 ∷ 4 ∷ 1 ∷ 1 ∷ 99 ∷ [])

abbrev entries : List Entry
entries =
    record { ino = 2; size = 12; name = 46 ∷ [] }
    ∷ record { ino = 5; size = 1012; name = 97 ∷ 98 ∷ [] }
    ∷ []

abbrev Device : Type 0
Device = ℕ → Bytes

abbrev read : ℕ → Device → Result Bytes
read block d = value (d block)

abbrev write : ℕ → Bytes → Device → Option ErrorCode × Device
write block a d = (none, d)

abbrev read_block : ℕ → Device → Run (Result Bytes)
read_block k d = ok (value (d k))

abbrev disk : Device
disk k = if k == 0 then first_block else second_block

abbrev tables : InodeData
tables = record {
  block_size = 1024;
  inode_size = 128;
  inodes_per_block = 8;
  inode_count = 100;
  block_group_inode_count = 32;
  inode_table_no = λ g. 10;
}

abbrev memory : Bytes
memory i = 0

first_block-Lists : Lists 1024 first_block 0 entries
unfolding entry_ino ent_size name_length_low starts_with
first_block-Lists =
    (omega arith, refl, refl, refl, refl, (omega arith, refl, refl, refl, refl, refl))

find-lookup_example :
    find read write read_block 3 (some 2048) (some tables) memory (97 ∷ 98 ∷ []) disk
    ≡ ok (load_vnode read write read_block tables memory 5 disk)
find-lookup_example =
    find-lookup read write read_block 3 tables 2048 memory (97 ∷ 98 ∷ []) disk first_block entries
      (omega arith) (omega arith) (omega arith) first_block-Lists refl (λ k lt. (disk k, refl))

-- The name `c` stands in the second block.
second_missed :
    find read write read_block 3 (some 2048) (some tables) memory (99 ∷ []) disk
    ≡ ok (error error_no_entry)
second_missed =
    find-lookup read write read_block 3 tables 2048 memory (99 ∷ []) disk first_block entries
      (omega arith) (omega arith) (omega arith) first_block-Lists refl (λ k lt. (disk k, refl))

-- A regular file of the owner 1, with the permissions 0o644.
regular :
    initialize_from_inode 5 (at (164 ∷ 129 ∷ 1 ∷ 0 ∷ []))
    ≡ value record { inode_id = 5; kind = vnt_reg; uid = 1; gid = 0; mode = 420 }
unfolding initialize_from_inode
regular = refl
