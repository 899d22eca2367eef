-- ===== src/Ext2/Inodes/Table.antt =====
-- An inode that is written is read back, and the others stay.
use project_dionysus.Base.{
  ℕ, ◌+◌, ◌-◌, ◌*◌, ◌/◌, ◌%◌, ◌≤◌, ◌<◌, ◌≡◌, ◌≢◌, refl, ap, sym, ◌∙◌, ◌⊎◌, inl, inr, false, Option,
  none, some, ErrorCode, Result, value, leb, arith, Bool-cases,
}
use native.Mathlib.Nat.{mod-lt, div-add-mod'}
use native.Mathlib.Decide.{ℕ_discrete, dec_lt}
use project_dionysus.Ext2.Bytes.{Bytes, memmove, memmove-inside, memmove_agree}
use project_dionysus.Ext2.File.Writing.{IsDisk}
use project_dionysus.Ext2.Inodes.{
  InodeData, inode_get_block_group, inode_index_in_block_group, inode_block, offset_in_block,
  out_of_range, set_atime, inode_read, inode_write,
}

-- A file system whose blocks have room for their inodes, and whose groups keep their inodes in
-- different blocks.
pub record IsLaidOut (data_ : InodeData) : Type 0 where
  pub some_inodes : 0 < data_.inodes_per_block
  pub some_bytes : 0 < data_.inode_size
  pub some_in_group : 0 < data_.block_group_inode_count
  pub room : data_.inodes_per_block * data_.inode_size ≤ data_.block_size
  pub apart :
      (g h i j : ℕ)
      → i < data_.block_group_inode_count
      → j < data_.block_group_inode_count
      → g ≢ h
      → data_.inode_table_no g + i / data_.inodes_per_block
        ≢ data_.inode_table_no h + j / data_.inodes_per_block

within_block :
    (m n size block_size : ℕ)
    → 0 < size
    → m < n
    → n * size ≤ block_size
    → leb block_size (m * size) ≡ false
within_block m n size block_size p lt room =
    let e : m * size < block_size = grind arith in ground arith

-- Two slots of a size are apart.
slots :
    (m k size j : ℕ)
    → m ≢ k
    → j < size
    → (k * size + j < m * size) ⊎ (m * size + size ≤ k * size + j)
slots m k size j h lt = elim (dec_lt k m) [
  | yes less ↦ inl (grind arith)
  | no more ↦ inr (grind arith)
]

-- Two numbers in one block have two offsets.
apart_in_block :
    (data_ : InodeData) (inum other : ℕ)
    → IsLaidOut data_
    → 0 < inum
    → 0 < other
    → inum ≢ other
    → inode_block data_ inum ≡ inode_block data_ other
    → inode_index_in_block_group inum data_.block_group_inode_count % data_.inodes_per_block
      ≢ inode_index_in_block_group other data_.block_group_inode_count % data_.inodes_per_block
unfolding inode_block inode_get_block_group inode_index_in_block_group
apart_in_block data_ inum other l a b different e h =
    let n = data_.block_group_inode_count in
    let per_block = data_.inodes_per_block in
    let i = (inum - 1) % n in
    let j = (other - 1) % n in
    elim (ℕ_discrete ((inum - 1) / n) ((other - 1) / n)) [
      | no g ↦
          l.apart ((inum - 1) / n) ((other - 1) / n) i j (mod-lt _ l.some_in_group)
            (mod-lt _ l.some_in_group) g e
      | yes g ↦
          let blocks : i / per_block ≡ j / per_block = omega (arith, ap data_.inode_table_no g) in
          let index : i ≡ j = omega (
            arith,
            div-add-mod' i per_block,
            div-add-mod' j per_block,
            ap (λ t. t * per_block) blocks,
          ) in
          different (
            omega (arith, div-add-mod' (inum - 1) n, div-add-mod' (other - 1) n, ap (λ t. t * n) g))
    ]

positive : (data_ : InodeData) (inum : ℕ) → out_of_range data_ inum ≡ false → 0 < inum
unfolding out_of_range
positive data_ inum h = ground arith

outside :
    (n : ℕ) (dst : Bytes) (to : ℕ) (src : Bytes) (i : ℕ)
    → (i < to) ⊎ (to + n ≤ i)
    → memmove n dst to src 0 i ≡ dst i
unfolding memmove
outside n dst to src i (inl low) = ground arith
outside n dst to src i (inr high) = ground arith

module _ {D : Type 0} (read : ℕ → D → Result Bytes)
    (write : ℕ → Bytes → D → Option ErrorCode × D) where
  fits :
      (data_ : InodeData) (inum : ℕ)
      → IsLaidOut data_
      → leb data_.block_size (offset_in_block data_ inum) ≡ false
  unfolding offset_in_block
  fits data_ inum l =
      within_block _ data_.inodes_per_block data_.inode_size data_.block_size l.some_bytes
        (mod-lt _ l.some_inodes) l.room

  inode_write_lem :
      (data_ : InodeData) (inum : ℕ) (inode : Bytes) (now : ℕ) (d : D) (old : Bytes)
      → IsLaidOut data_
      → IsDisk read write
      → out_of_range data_ inum ≡ false
      → read (inode_block data_ inum) d ≡ value old
      → inode_write read write (some data_) inum inode now d ≡ (
        none,
        set_atime now inode,
        (write
            (inode_block data_ inum)
            (memmove data_.inode_size old (offset_in_block data_ inum) (set_atime now inode) 0)
            d).1,
      )
  unfolding inode_write
  inode_write_lem data_ inum inode now d old l disk valid e =
      let b = inode_block data_ inum in
      let new = memmove data_.inode_size old (offset_in_block data_ inum) (set_atime now inode) 0 in
      rw (valid, fits data_ inum l, e)
        (ap {B = Option ErrorCode × Bytes × D} (λ c. (c, set_atime now inode, (write b new d).1))
          (disk.succeeds b new d))

  inode_read_lem :
      (data_ : InodeData) (inum : ℕ) (room : Bytes) (d : D) (buf : Bytes)
      → IsLaidOut data_
      → out_of_range data_ inum ≡ false
      → read (inode_block data_ inum) d ≡ value buf
      → inode_read read write (some data_) inum room d
        ≡ (none, memmove data_.inode_size room 0 buf (offset_in_block data_ inum))
  unfolding inode_read
  inode_read_lem data_ inum room d buf l valid e = rw (valid, fits data_ inum l, e) refl

  -- A number out of range, or a block that did not change, reads as before.
  inode_read_same :
      (data_ : InodeData) (inum : ℕ) (room : Bytes) (d d' : D)
      → (out_of_range data_ inum ≡ false
          → read (inode_block data_ inum) d' ≡ read (inode_block data_ inum) d)
      → inode_read read write (some data_) inum room d'
        ≡ inode_read read write (some data_) inum room d
  unfolding inode_read
  inode_read_same data_ inum room d d' h = elim (Bool-cases (out_of_range data_ inum)) [
    | inl bad ↦ rw bad refl
    | inr valid ↦ rw (h valid) refl
  ]

  other_bytes :
      (data_ : InodeData) (inum other : ℕ) (old inode room : Bytes)
      → IsLaidOut data_
      → inode_block data_ inum ≡ inode_block data_ other
      → 0 < inum
      → 0 < other
      → inum ≢ other
      → memmove data_.inode_size room 0
          (memmove data_.inode_size old (offset_in_block data_ inum) inode 0)
          (offset_in_block data_ other)
        ≡ memmove data_.inode_size room 0 old (offset_in_block data_ other)
  unfolding offset_in_block
  other_bytes data_ inum other old inode room l e a b different =
      let apart = apart_in_block data_ inum other l a b different e in
      memmove_agree data_.inode_size room 0 _ _ old _
        λ j lt. outside data_.inode_size old _ inode _ (slots _ _ data_.inode_size j apart lt)

  -- In a file system whose groups keep their inodes in different blocks, on a device that keeps
  -- what is written, writing an inode of a valid number, whose block can be read, succeeds;
  -- reading it gives the bytes written, with the new access time, and reading any other number
  -- gives what it gave before.
  pub inode_read-inode_write :
      (data_ : InodeData) (inum : ℕ) (inode : Bytes) (now : ℕ) (d : D) (old : Bytes)
      → IsLaidOut data_
      → IsDisk read write
      → out_of_range data_ inum ≡ false
      → read (inode_block data_ inum) d ≡ value old
      → (d' : D) × (inode_write read write (some data_) inum inode now d
          ≡ (none, set_atime now inode, d'))
        × ((room : Bytes)
            → inode_read read write (some data_) inum room d'
              ≡ (none, memmove data_.inode_size room 0 (set_atime now inode) 0))
        × ((other : ℕ) (room : Bytes)
            → other ≢ inum
            → inode_read read write (some data_) other room d'
              ≡ inode_read read write (some data_) other room d)
  inode_read-inode_write data_ inum inode now d old l disk valid e =
      let block = inode_block data_ inum in
      let stamped = set_atime now inode in
      let new = memmove data_.inode_size old (offset_in_block data_ inum) stamped 0 in
      let d' = (write block new d).1 in
      (
        d',
        inode_write_lem data_ inum inode now d old l disk valid e,
        λ room.
            inode_read_lem data_ inum room d' new l valid (disk.kept block new d)
            ∙ ap {B = Option ErrorCode × Bytes} (λ b. (none, b))
                (memmove_agree data_.inode_size room 0 new (offset_in_block data_ inum) stamped 0
                  λ j lt. memmove-inside data_.inode_size old _ stamped 0 j lt),
        λ other room different. elim (Bool-cases (out_of_range data_ other)) [
          | inl bad ↦ inode_read_same data_ other room d d' (λ fine. absurd (ground arith))
          | inr fine ↦ elim (ℕ_discrete block (inode_block data_ other)) [
            | no apart ↦
                inode_read_same data_ other room d d'
                  (λ _. disk.others block (inode_block data_ other) new d (λ x. apart (sym x)))
            | yes same_block ↦
                inode_read_lem data_ other room d' new l fine
                  (ap (λ b. read b d') (sym same_block) ∙ disk.kept block new d)
                ∙ ap {B = Option ErrorCode × Bytes} (λ b. (none, b))
                    (other_bytes data_ inum other old stamped room l same_block
                      (positive data_ inum valid) (positive data_ other fine)
                      (λ x. different (sym x)))
                ∙ sym (
                    inode_read_lem data_ other room d old l fine
                      (ap (λ b. read b d) (sym same_block) ∙ e))
          ]
        ],
      )
