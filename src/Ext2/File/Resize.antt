-- ===== src/Ext2/File/Resize.antt =====
-- Resizing a file: what growing leaves.
use project_dionysus.Base.{
  ℕ, zero, suc, ◌+◌, ◌-◌, ◌/◌, ◌^◌, ◌≤◌, ◌<◌, ◌≡◌, refl, sym, ◌∙◌, inl, inr, true, false, Option,
  none, some, ErrorCode, Result, ltb, arith, Result-cases, subst,
}
use project_dionysus.Ext2.Bytes.{Bytes}
use project_dionysus.Ext2.Index.{Inode, Addresses, inode_set_index, write_at, addr_count_per_block}
use project_dionysus.Ext2.File.{
  FileInode, inode_size, inode_set_size, inode_resize, expand, block_count, leave_resize,
  finish_resize,
}

leave-done :
    {D : Type 0} (inode after : FileInode) (sz count : ℕ) (g : Option ErrorCode × Inode × D)
    (d' : D)
    → leave_resize inode sz count g ≡ (none, after, d')
    → after ≡ finish_resize inode sz count g.1
unfolding leave_resize
leave-done inode after sz count (some c, blocks, d) d' h = absurd (ground arith)
leave-done inode after sz count (none, blocks, d) d' h = cc

size_set :
    (inode : FileInode) (sz count : ℕ) (blocks : Inode)
    → count ≤ 12
    → sz < 2 ^ 64
    → (inode_size (finish_resize inode sz count blocks) ≡ sz)
      × ((finish_resize inode sz count blocks).sector_count ≡ count)
unfolding finish_resize inode_size inode_set_size
size_set inode sz count blocks few small =
    let direct : ltb 12 count ≡ false = ground arith in (omega arith, rw direct (omega arith))

module _ {D : Type 0} (read : ℕ → D → Result Bytes) (read_addrs : ℕ → D → Result Addresses)
    (stale : Addresses → Addresses) (write : ℕ → Bytes → D → Option ErrorCode × D)
    (write_addrs : ℕ → Addresses → D → Option ErrorCode × D) (alloc : D → Result ℕ × D)
    (free : ℕ → D → Option ErrorCode × D) (write_inode : FileInode → D → Option ErrorCode × D) where
  -- What the numbers of the blocks before `index` are, and of the indirect one.
  pub record Keeps (index : ℕ) (before after : Inode) : Type 0 where
    pub direct : (k : ℕ) → k < index → after.direct_blocks k ≡ before.direct_blocks k
    pub indirect : after.indirect_block_l1 ≡ before.indirect_block_l1

  set_index_direct :
      (index s b : ℕ) (inode : Inode) (d : D)
      → ltb index 12 ≡ true
      → inode_set_index read_addrs write_addrs alloc (some s) inode index b d
        ≡ (none, record inode { direct_blocks = write_at index b inode.direct_blocks }, d)
  unfolding inode_set_index
  set_index_direct index s b inode d near = rw near refl

  expand-Keeps :
      (n s index : ℕ) (inode : Inode) (d : D)
      → index + n ≤ 12
      → Keeps index inode
          (expand read read_addrs stale write write_addrs alloc free write_inode n s index inode
            d).1
  unfolding expand
  expand-Keeps zero s index inode d few = record { direct = λ k lt. refl; indirect = refl }
  expand-Keeps (suc n) s index inode d few =
      let near : ltb index 12 ≡ true = ground arith in
      elim (Result-cases (alloc d).0) [
        | inl (b, e) ↦
            let inode' : Inode = record inode {
              direct_blocks = write_at index b inode.direct_blocks;
            } in
            let later = expand-Keeps n s (index + 1) inode' (alloc d).1 (omega arith) in
            let set = set_index_direct index s b inode (alloc d).1 near in
            rw (expand, e, set, set)
              record {
                direct = λ k lt. later.direct k (omega arith) ∙ ground arith;
                indirect = later.indirect;
              }
        | inr (c, e) ↦ rw (expand, e) record { direct = λ k lt. refl; indirect = refl }
      ]

  -- A resize with success, to a size that needs no fewer blocks than before and twelve at most,
  -- sets the size and the number of blocks, and keeps the numbers of the blocks that were
  -- there.
  pub inode_resize-grows :
      (s : ℕ) (inode after : FileInode) (sz : ℕ) (d d' : D)
      → block_count s (inode_size inode) ≤ block_count s sz
      → block_count s sz ≤ 12
      → sz < 2 ^ 64
      → inode_resize read read_addrs stale write write_addrs alloc free write_inode
          (some s)
          inode
          sz
          d
        ≡ (none, after, d')
      → (inode_size after ≡ sz)
        × (after.sector_count ≡ block_count s sz)
        × Keeps (block_count s (inode_size inode)) inode.blocks after.blocks
  unfolding inode_resize addr_count_per_block finish_resize
  inode_resize-grows s inode after sz d d' more few small h =
      let old = block_count s (inode_size inode) in
      let new = block_count s sz in
      let a : ltb (12 + s / 4) new ≡ false = ground arith in
      let b : ltb (12 + s / 4) old ≡ false = ground arith in
      let c : ltb new old ≡ false = ground arith in
      let grown =
        expand read read_addrs stale write write_addrs alloc free write_inode (new - old) s old
          inode.blocks d in
      let left : leave_resize inode sz new grown ≡ (none, after, d') = rw (a, b, c) at h in
      let e = leave-done inode after sz new grown d' left in
      let kept = expand-Keeps (new - old) s old inode.blocks d (omega arith) in
      subst
        (λ (x : FileInode).
          (inode_size x ≡ sz) × (x.sector_count ≡ new) × Keeps old inode.blocks x.blocks)
        (sym e)
        (
          (size_set inode sz new grown.1 few small).0,
          (size_set inode sz new grown.1 few small).1,
          kept,
        )
