-- ===== src/Ext2/Directory.antt =====
-- Directories of ext2: ext2_vnode::find and initialize_from_inode of kern/fs/ext2/vnode.cc. A name
-- is the list of its bytes. Reading a block of the directory is a parameter, the
-- ext2_inode_read_block of Ext2/File at the inode of the directory; memory is always allocated.
-- Bytes behind the buffer of a block are those that stand there in memory.
pub mod Listing
mod Tests
use project_dionysus.Base.{
  ℕ, zero, suc, ◌+◌, ◌-◌, ◌*◌, ◌/◌, ◌%◌, ◌^◌, Bool, true, false, not, ◌&&◌, List, [], ◌∷◌, Option,
  none, some, Run, ok, fault, ◌>>=◌, ErrorCode, error_invalid, error_internal, error_no_entry,
  Result, value, error, ◌==◌, ltb, leb, if◌then◌else◌, length,
}
use project_dionysus.Ext2.Bytes.{Bytes}
use project_dionysus.Ext2.Inodes.{InodeData, inode_read}

-- The fields of ext2_directory_entry at an offset; numbers have their lowest byte first.
unfoldable pub entry_ino : Bytes → ℕ → ℕ
entry_ino block off =
    block off + 256 * block (off + 1) + 65536 * block (off + 2) + 16777216 * block (off + 3)

unfoldable pub ent_size : Bytes → ℕ → ℕ
ent_size block off = block (off + 4) + 256 * block (off + 5)

unfoldable pub name_length_low : Bytes → ℕ → ℕ
name_length_low block off = block (off + 6)

-- strncmp(s + from, name, strlen(name)) == 0.
unfoldable pub starts_with : Bytes → ℕ → List ℕ → Bool
starts_with s from [] = true
starts_with s from (c ∷ name) = (s from == c) && starts_with s (from + 1) name

unfoldable pub matches : Bytes → ℕ → List ℕ → Bool
matches block off name =
    not (entry_ino block off == 0)
    && ((name_length_low block off == length name) && starts_with block (off + 8) name)

pub data VnodeType : Type 0 where
  vnt_dir vnt_reg : VnodeType

-- ext2_vnode, as far as initialize_from_inode sets it.
pub record Vnode : Type 0 where
  pub inode_id : ℕ
  pub kind : VnodeType
  pub uid : ℕ
  pub gid : ℕ
  pub mode : ℕ

-- The fields of an inode in its bytes: perm and type share the first two.
unfoldable pub initialize_from_inode : ℕ → Bytes → Result Vnode
initialize_from_inode ino src =
    let uid = src 2 + 256 * src 3 in
    let gid = src 24 + 256 * src 25 in
    let mode = src 0 + 256 * (src 1 % 16) in
    let type = src 1 / 16 in
    let made : VnodeType → Vnode =
      λ kind. record { inode_id = ino; kind = kind; uid = uid; gid = gid; mode = mode } in
    if type == 4
    then value (made vnt_dir)
    else (if type == 8 then value (made vnt_reg) else error error_invalid)

-- What the loop over the entries of a block comes to: an entry of the name, the offset behind the
-- block, or no end within the fuel.
pub data Scan : Type 0 where
  found : ℕ → Scan
  ended : ℕ → Scan
  endless : Scan

unfoldable pub scan_block : ℕ → ℕ → Bytes → ℕ → List ℕ → Scan
scan_block zero block_size block off name = endless
scan_block (suc n) block_size block off name =
    let rest = scan_block n block_size block (off + ent_size block off) name in
    if ltb off block_size
    then (if matches block off name then found (entry_ino block off) else rest)
    else ended off

module _ {D : Type 0} (read : ℕ → D → Result Bytes) (write : ℕ → Bytes → D → Option ErrorCode × D)
    (read_block : ℕ → D → Run (Result Bytes)) where
  -- The vnode of an entry; `memory` is what the new inode held.
  unfoldable pub load_vnode : InodeData → Bytes → ℕ → D → Result Vnode
  load_vnode data_ memory ino d =
      let got = inode_read read write (some data_) ino memory d in
      elim got.0 [ some e ↦ error e | none ↦ initialize_from_inode ino got.1 ]

  -- The loop over the blocks from `index` on, `n` of them. The offset goes on from block to block.
  unfoldable pub find_blocks : ℕ → InodeData → Bytes → ℕ → ℕ → ℕ → List ℕ → D → Run (Result Vnode)
  find_blocks fuel data_ memory zero index off name d = ok (error error_no_entry)
  find_blocks fuel data_ memory (suc n) index off name d = read_block index d >>= λ r. elim r [
    | error e ↦ ok (error e)
    | value block ↦ elim (scan_block fuel data_.block_size block off name) [
      | found ino ↦ ok (load_vnode data_ memory ino d)
      | ended off' ↦ find_blocks fuel data_ memory n (index + 1) off' name d
      | endless ↦ fault
    ]
  ]

  -- `size` is the size of the directory, or none for a null inode.
  unfoldable pub find : ℕ → Option ℕ → Option InodeData → Bytes → List ℕ → D → Run (Result Vnode)
  find fuel none data_ memory name d = ok (error error_internal)
  find fuel (some size) none memory name d = ok (error error_internal)
  find fuel (some size) (some data_) memory name d =
      if leb 256 (length name)
      then ok (error error_invalid)
      else find_blocks fuel data_ memory (size / data_.block_size) 0 0 name d
