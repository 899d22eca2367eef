-- ===== src/Ext2/File/Writing.antt =====
-- Writing a file changes just the bytes written, and reading gives them back.
use Prim.Native.Nat.{min}
use native.Mathlib.Nat.{div-lt_iff_lt-mul, mod-lt}
use project_dionysus.Base.{
  ℕ, zero, suc, ◌+◌, ◌-◌, ◌*◌, ◌/◌, ◌%◌, ◌≤◌, ◌<◌, ◌≡◌, ◌≢◌, refl, ap, sym, ◌∙◌, inl, inr, true,
  false, Option, none, Run, ok, bind_ok, ErrorCode, Result, value, ◌==◌, arith, Bool-cases, same,
}
use project_dionysus.Ext2.Bytes.{
  Bytes, memmove, byte_at, put_block, put_block-part, memmove_zero, memmove_join,
}
use project_dionysus.Ext2.Index.{Inode, Addresses}
use project_dionysus.Ext2.File.{FileInode, Writer, inode_write_block, write_part, write_blocks}
use project_dionysus.Ext2.File.Content.{
  IsContent, inode_read_block-direct, inode_write_block-direct,
}

-- No two of the first `count` direct blocks are one.
abbrev pub IsApart : ℕ → Inode → Type 0
IsApart count inode =
    (i j : ℕ) → i < count → j < count → i ≢ j → inode.direct_blocks i ≢ inode.direct_blocks j

-- A device whose writes succeed, on which a block holds what was written to it last.
pub record IsDisk {D : Type 0} (read : ℕ → D → Result Bytes)
    (write : ℕ → Bytes → D → Option ErrorCode × D) : Type 0 where
  pub succeeds : (b : ℕ) (buf : Bytes) (d : D) → (write b buf d).0 ≡ none
  pub kept : (b : ℕ) (buf : Bytes) (d : D) → read b (write b buf d).1 ≡ value buf
  pub others : (b c : ℕ) (buf : Bytes) (d : D) → c ≢ b → read c (write b buf d).1 ≡ read c d

whole_block :
    (s n x : ℕ) (c : Bytes) (buf : Bytes) (offset j : ℕ)
    → n ≡ s
    → x + n ≤ s
    → j < s
    → buf (offset + j) ≡ memmove n c x buf offset j
unfolding memmove
whole_block s n x c buf offset j e h lt =
    let start : j - x ≡ j = omega arith in ground (arith, start)

unmoved : (sz : ℕ) (w : Writer) → sz ≡ 0 → w ≡ record { pos = w.pos + sz; offset = w.offset + sz }
unmoved sz w z = rw z (ground arith)

moved :
    (sz part : ℕ) (w : Writer)
    → part ≤ sz
    → ◌≡◌ {A = Writer}
        record { pos = w.pos + part + (sz - part); offset = w.offset + part + (sz - part) }
        record { pos = w.pos + sz; offset = w.offset + sz }
moved sz part w h = ground arith

module _ {D : Type 0} (read : ℕ → D → Result Bytes) (read_addrs : ℕ → D → Result Addresses)
    (stale : Addresses → Addresses) (write : ℕ → Bytes → D → Option ErrorCode × D)
    (write_addrs : ℕ → Addresses → D → Option ErrorCode × D) (alloc : D → Result ℕ × D)
    (free : ℕ → D → Option ErrorCode × D) (write_inode : FileInode → D → Option ErrorCode × D) where
  abbrev Held : ℕ → Inode → (ℕ → Bytes) → D → Type 0
  Held = IsContent read read_addrs stale write write_addrs alloc free write_inode

  put_block-IsContent :
      (count : ℕ) (inode : Inode) (content : ℕ → Bytes) (k : ℕ) (b : Bytes) (d : D)
      → IsDisk read write
      → IsApart count inode
      → k < count
      → Held count inode content d
      → Held count inode (put_block content k b) (write (inode.direct_blocks k) b d).1
  unfolding put_block
  put_block-IsContent count inode content k b d disk apart h c j lt = elim (Bool-cases (k == j)) [
    | inl e ↦ rw (e, sym (same k j e)) (disk.kept (inode.direct_blocks k) b d)
    | inr e ↦ rw e (
        disk.others (inode.direct_blocks k) (inode.direct_blocks j) b d
          (apart j k lt h (ground arith))
        ∙ c j lt)
  ]

  -- What a step of writing leaves: a device with the new contents of the file.
  pub record Wrote (s count : ℕ) (inode : Inode) (bytes : Bytes) (d : D) : Type 0 where
    pub content : ℕ → Bytes
    pub held : Held count inode content d
    pub laid : byte_at s content ≡ bytes

  block_written :
      (s : ℕ) (inode : Inode) (b : Bytes) (k : ℕ) (d : D)
      → IsDisk read write
      → k < 12
      → inode_write_block read read_addrs stale write write_addrs alloc free write_inode s inode b k
          d
        ≡ ok (none, (write (inode.direct_blocks k) b d).1)
  block_written s inode b k d disk h =
      inode_write_block-direct read read_addrs stale write write_addrs alloc free write_inode s
        inode b k d h
      ∙ ap {B = Run (Option ErrorCode × D)} (λ e. ok (e, (write (inode.direct_blocks k) b d).1))
          (disk.succeeds (inode.direct_blocks k) b d)

  write_part-Wrote :
      (s count : ℕ) (inode : Inode) (content : ℕ → Bytes) (buf : Bytes) (offset pos n : ℕ) (d : D)
      → IsDisk read write
      → IsApart count inode
      → Held count inode content d
      → count ≤ 12
      → 0 < s
      → s ≤ 1024
      → 0 < n
      → pos % s + n ≤ s
      → pos / s < count
      → (d' : D) × (write_part read read_addrs stale write write_addrs alloc free write_inode true s
            inode buf offset pos n d
          ≡ ok (none, d'))
        × Wrote s count inode (memmove n (byte_at s content) pos buf offset) d'
  unfolding write_part memmove
  write_part-Wrote s count inode content buf offset pos n d disk apart c few p room some_part within
        k =
      let put = λ (b : Bytes). (write (inode.direct_blocks (pos / s)) b d) in
      let empty : (n == 0) ≡ false = ground arith in
      let whole : Bytes = λ i. buf (offset + i) in
      let part : Bytes = memmove n (content (pos / s)) (pos % s) buf offset in
      elim (Bool-cases (n == s)) [
        | inl e ↦ (
          (put whole).1,
          rw (empty, e) (block_written s inode whole (pos / s) d disk (omega arith)),
          record {
            content = put_block content (pos / s) whole;
            held = put_block-IsContent count inode content (pos / s) whole d disk apart k c;
            laid = put_block-part s content pos n whole buf offset p within (λ j lt.
                whole_block s n (pos % s) (content (pos / s)) buf offset j (same n s e) within lt);
          },
        )
        | inr e ↦ (
          (put part).1,
          rw (empty, e)
              (bind_ok _
                (inode_read_block-direct read read_addrs stale write write_addrs alloc free
                  write_inode 1024 s count inode content (pos / s) d c few k room)
                (block_written s inode part (pos / s) d disk (omega arith))),
          record {
            content = put_block content (pos / s) part;
            held = put_block-IsContent count inode content (pos / s) part d disk apart k c;
            laid = put_block-part s content pos n part buf offset p within (λ j lt. refl);
          },
        )
      ]

  kept_all :
      (sz s count : ℕ) (inode : Inode) (content : ℕ → Bytes) (buf : Bytes) (w : Writer) (d : D)
      → Held count inode content d
      → sz ≡ 0
      → Wrote s count inode (memmove sz (byte_at s content) w.pos buf w.offset) d
  kept_all sz s count inode content buf w d c z = record {
    content = content;
    held = c;
    laid = rw z (sym (memmove_zero (byte_at s content) w.pos buf w.offset));
  }

  pub write_blocks-Wrote :
      (n s count : ℕ) (inode : Inode) (content : ℕ → Bytes) (buf : Bytes) (sz : ℕ) (w : Writer)
      (d : D)
      → IsDisk read write
      → IsApart count inode
      → Held count inode content d
      → count ≤ 12
      → 0 < s
      → s ≤ 1024
      → sz ≤ n
      → w.pos + sz ≤ count * s
      → (d' : D) × (write_blocks read read_addrs stale write write_addrs alloc free write_inode true
            n s inode buf sz w d
          ≡ ok (none, record { pos = w.pos + sz; offset = w.offset + sz }, d'))
        × Wrote s count inode (memmove sz (byte_at s content) w.pos buf w.offset) d'
  unfolding write_blocks
  write_blocks-Wrote zero s count inode content buf sz w d disk apart c few p room le small =
      let z : sz ≡ 0 = omega arith in
      (d, ap (λ x. ok (none, x, d)) (unmoved sz w z), kept_all sz s count inode content buf w d c z)
  write_blocks-Wrote (suc n) s count inode content buf sz w d disk apart c few p room le small =
      elim (Bool-cases (sz == 0)) [
        | inl z ↦ (
          d,
          rw z (ap (λ x. ok (none, x, d)) (unmoved sz w (same sz 0 z))),
          kept_all sz s count inode content buf w d c (same sz 0 z),
        )
        | inr nz ↦
            let k : w.pos / s < count = (div-lt_iff_lt-mul p).1 (ground arith) in
            let part = min sz (s - w.pos % s) in
            let whole : w.pos % s < s = mod-lt w.pos p in
            let (d1, e1, w1) =
              write_part-Wrote s count inode content buf w.offset w.pos part d disk apart c few p
                room (ground arith) (omega arith) k in
            let w' : Writer = record { pos = w.pos + part; offset = w.offset + part } in
            let (d2, e2, w2) =
              write_blocks-Wrote n s count inode w1.content buf (sz - part) w' d1 disk apart w1.held
                few p room (ground arith) (omega arith) in
            let all : part + (sz - part) ≡ sz = omega arith in
            let joined = memmove_join part (sz - part) (byte_at s content) w.pos buf w.offset in
            (
              d2,
              rw nz
                  (bind_ok _ e1 (e2 ∙ ap (λ x. ok (none, x, d2)) (moved sz part w (omega arith)))),
              record {
                content = w2.content;
                held = w2.held;
                laid =
                    w2.laid
                    ∙ rw w1.laid
                        (joined ∙ ap (λ m. memmove m (byte_at s content) w.pos buf w.offset) all);
              },
            )
      ]
