-- ===== src/Ext2/Directory/Listing.antt =====
-- Finding a name is looking it up in the listing of the first block.
use project_dionysus.Base.{
  ℕ, zero, suc, ◌+◌, ◌-◌, ◌/◌, ◌<◌, ◌≡◌, refl, inl, inr, Bool, true, false, not, ◌&&◌, List, [],
  ◌∷◌, Option, none, some, Run, ok, bind_ok, ErrorCode, error_no_entry, Result, value, error, ltb,
  leb, ◌==◌, if◌then◌else◌, length, arith, Bool-cases, Option-cases,
}
use project_dionysus.Ext2.Bytes.{Bytes}
use project_dionysus.Ext2.Inodes.{InodeData}
use project_dionysus.Ext2.Directory.{
  found, ended, entry_ino, ent_size, name_length_low, starts_with, matches, scan_block, load_vnode,
  find_blocks, find,
}

-- An entry of a listing; one that is not in use has the inode 0.
pub record Entry : Type 0 where
  pub ino : ℕ
  pub size : ℕ
  pub name : List ℕ

abbrev pub same_name : List ℕ → List ℕ → Bool
same_name [] [] = true
same_name [] (y ∷ ys) = false
same_name (x ∷ xs) [] = false
same_name (x ∷ xs) (y ∷ ys) = (x == y) && same_name xs ys

-- The inode of the first entry in use that has the name.
abbrev pub lookup_entry : List ℕ → List Entry → Option ℕ
lookup_entry name [] = none
lookup_entry name (e ∷ es) =
    let rest = lookup_entry name es in
    if not (e.ino == 0) && same_name e.name name then some e.ino else rest

-- The block holds the entries from the offset on, up to its end.
abbrev pub Lists : ℕ → Bytes → ℕ → List Entry → Type 0
Lists s block off [] = off ≡ s
Lists s block off (e ∷ es) =
    (off < s)
    × (entry_ino block off ≡ e.ino)
    × (ent_size block off ≡ e.size)
    × (name_length_low block off ≡ length e.name)
    × (starts_with block (off + 8) e.name ≡ true)
    × Lists s block (off + e.size) es

starts-same :
    (s : Bytes) (from : ℕ) (x y : List ℕ)
    → starts_with s from x ≡ true
    → ((length x == length y) && starts_with s from y) ≡ same_name x y
unfolding starts_with
starts-same s from [] [] h = refl
starts-same s from [] (y ∷ ys) h = ground arith
starts-same s from (x ∷ xs) [] h = ground arith
starts-same s from (x ∷ xs) (y ∷ ys) h = ground (arith, starts-same s (from + 1) xs ys)

scan_block-lookup :
    (fuel s : ℕ) (block : Bytes) (off : ℕ) (name : List ℕ) (es : List Entry)
    → length es < fuel
    → Lists s block off es
    → scan_block fuel s block off name
      ≡ elim (lookup_entry name es) [ none ↦ ended s | some ino ↦ found ino ]
unfolding scan_block matches
scan_block-lookup zero s block off name es lt l = absurd (omega arith)
scan_block-lookup (suc n) s block off name [] lt l = ground arith
scan_block-lookup (suc n) s block off name (e ∷ es) lt l =
    let (in_block, ino, size, len, starts, rest) = l in
    let same = starts-same block (off + 8) e.name name starts in
    let ih = scan_block-lookup n s block (off + e.size) name es (omega arith) rest in
    let inside : ltb off s ≡ true = ground arith in
    rw (inside, ino, size, len, same)
      (elim (Bool-cases (not (e.ino == 0) && same_name e.name name)) [
        | inl yes_ ↦ rw yes_ refl
        | inr no_ ↦ rw no_ ih
      ])

module _ {D : Type 0} (read : ℕ → D → Result Bytes) (write : ℕ → Bytes → D → Option ErrorCode × D)
    (read_block : ℕ → D → Run (Result Bytes)) where
  -- Blocks that are searched from their end on.
  find_blocks_behind :
      (fuel : ℕ) (data_ : InodeData) (memory : Bytes) (n index : ℕ) (name : List ℕ) (d : D)
      → 0 < fuel
      → ((k : ℕ) → k < index + n → (b : Bytes) × (read_block k d ≡ ok (value b)))
      → find_blocks read write read_block fuel data_ memory n index data_.block_size name d
        ≡ ok (error error_no_entry)
  unfolding find_blocks scan_block
  find_blocks_behind fuel data_ memory zero index name d p readable = refl
  find_blocks_behind zero data_ memory (suc n) index name d p readable = absurd (omega arith)
  find_blocks_behind (suc f) data_ memory (suc n) index name d p readable =
      let (b, e) = readable index (omega arith) in
      let last : ltb data_.block_size data_.block_size ≡ false = ground arith in
      let ih =
        find_blocks_behind (suc f) data_ memory n (index + 1) name d p
          (λ k lt. readable k (omega arith)) in
      bind_ok _ e (rw (scan_block, last) ih)

  -- In a directory of one block or more, all readable, whose first block holds a listing up to
  -- its end, finding a name of less than 256 bytes loads the inode of the first entry in use
  -- that has it, and finds nothing when the listing has none, whatever the other blocks hold.
  pub find-lookup :
      (fuel : ℕ) (data_ : InodeData) (size : ℕ) (memory : Bytes) (name : List ℕ) (d : D)
      (block : Bytes) (es : List Entry)
      → length es < fuel
      → length name < 256
      → 0 < size / data_.block_size
      → Lists data_.block_size block 0 es
      → read_block 0 d ≡ ok (value block)
      → ((k : ℕ) → k < size / data_.block_size → (b : Bytes) × (read_block k d ≡ ok (value b)))
      → find read write read_block fuel (some size) (some data_) memory name d
        ≡ elim (lookup_entry name es) [
          | none ↦ ok (error error_no_entry)
          | some ino ↦ ok (load_vnode read write read_block data_ memory ino d)
        ]
  unfolding find find_blocks
  find-lookup fuel data_ size memory name d block es lt short some_blocks lists e readable =
      let fits : leb 256 (length name) ≡ false = ground arith in
      let count = size / data_.block_size in
      let first : count ≡ suc (count - 1) = omega arith in
      let scanned = scan_block-lookup fuel data_.block_size block 0 name es lt lists in
      rw (fits, first)
        (bind_ok _ e (elim (Option-cases (lookup_entry name es)) [
          | inl none_there ↦
              rw (scanned, none_there)
                (find_blocks_behind fuel data_ memory (count - 1) (0 + 1) name d (omega arith)
                  (λ k less. readable k (omega arith)))
          | inr (ino, there) ↦ rw (scanned, there) refl
        ]))
