-- ===== src/Ext2/File/Reading.antt =====
-- Reading a file is one move of bytes out of its contents.
use Prim.Native.Nat.{min}
use native.Mathlib.Nat.{div-lt_iff_lt-mul, mod-lt}
use project_dionysus.Base.{
  ℕ, zero, suc, ◌+◌, ◌-◌, ◌*◌, ◌/◌, ◌%◌, ◌≤◌, ◌<◌, ◌≡◌, refl, ap, ◌∙◌, inl, inr, true, false,
  Option, none, some, Run, ok, bind_ok, ErrorCode, Result, value, leb, ◌==◌, arith, Bool-cases,
  same,
}
use project_dionysus.Ext2.Bytes.{
  Bytes, memmove, byte_at, memmove_zero, memmove_join, memmove_agree, div_within,
}
use project_dionysus.Ext2.Index.{Inode, Addresses}
use project_dionysus.Ext2.File.{FileInode, Reader, read_blocks, read_from, inode_size}
use project_dionysus.Ext2.File.Content.{IsContent, inode_read_block-direct}

-- The bytes of one block are bytes of the file.
pub part_of_block :
    (s : ℕ) (content : ℕ → Bytes) (n : ℕ) (dst : Bytes) (to p : ℕ)
    → 0 < s
    → p % s + n ≤ s
    → memmove n dst to (content (p / s)) (p % s) ≡ memmove n dst to (byte_at s content) p
unfolding byte_at
part_of_block s content n dst to p pos h =
    memmove_agree n dst to (content (p / s)) (p % s) (byte_at s content) p
      λ j lt. let (q, r) = div_within s p j pos (omega arith) in rw (q, r) refl

nothing_left :
    (size : ℕ) (r : Reader) (src : Bytes)
    → size ≡ 0
    → r ≡ record {
      pos = r.pos + size;
      has_read = r.has_read + size;
      buf = memmove size r.buf r.has_read src r.pos;
    }
nothing_left size r src e = rw (e, memmove_zero r.buf r.has_read src r.pos) (ground arith)

-- The bytes of a part, and then the rest.
rest :
    (size part : ℕ) (r : Reader) (s : ℕ) (content : ℕ → Bytes)
    → 0 < s
    → part ≤ size
    → r.pos % s + part ≤ s
    → ◌≡◌ {A = Reader}
        record {
          pos = r.pos + part + (size - part);
          has_read = r.has_read + part + (size - part);
          buf =
              memmove
                (size - part)
                (memmove part r.buf r.has_read (content (r.pos / s)) (r.pos % s))
                (r.has_read + part)
                (byte_at s content)
                (r.pos + part);
        }
        record {
          pos = r.pos + size;
          has_read = r.has_read + size;
          buf = memmove size r.buf r.has_read (byte_at s content) r.pos;
        }
rest size part r s content pos le within =
    let e : part + (size - part) ≡ size = omega arith in
    let p : r.pos + part + (size - part) ≡ r.pos + size = omega arith in
    let q : r.has_read + part + (size - part) ≡ r.has_read + size = omega arith in
    let joined = memmove_join part (size - part) r.buf r.has_read (byte_at s content) r.pos in
    rw (part_of_block s content part r.buf r.has_read r.pos pos within, joined, e, p, q) refl

module _ {D : Type 0} (read : ℕ → D → Result Bytes) (read_addrs : ℕ → D → Result Addresses)
    (stale : Addresses → Addresses) (write : ℕ → Bytes → D → Option ErrorCode × D)
    (write_addrs : ℕ → Addresses → D → Option ErrorCode × D) (alloc : D → Result ℕ × D)
    (free : ℕ → D → Option ErrorCode × D) (write_inode : FileInode → D → Option ErrorCode × D) where
  abbrev blocks_read : ℕ → ℕ → Inode → ℕ → Reader → D → Run (Option ErrorCode × Reader)
  blocks_read = read_blocks read read_addrs stale write write_addrs alloc free write_inode

  read_blocks-memmove :
      (n s count : ℕ) (inode : Inode) (content : ℕ → Bytes) (size : ℕ) (r : Reader) (d : D)
      → IsContent read read_addrs stale write write_addrs alloc free write_inode count inode content
          d
      → count ≤ 12
      → 0 < s
      → size ≤ n
      → r.pos + size ≤ count * s
      → blocks_read n s inode size r d
        ≡ ok (
          none,
          record {
            pos = r.pos + size;
            has_read = r.has_read + size;
            buf = memmove size r.buf r.has_read (byte_at s content) r.pos;
          },
        )
  unfolding read_blocks
  read_blocks-memmove zero s count inode content size r d c few pos le room =
      let z : size ≡ 0 = omega arith in
      ap (λ x. ok (none, x)) (nothing_left size r (byte_at s content) z)
  read_blocks-memmove (suc n) s count inode content size r d c few pos le room =
      elim (Bool-cases (size == 0)) [
        | inl z ↦
            rw z (ap (λ x. ok (none, x)) (nothing_left size r (byte_at s content) (same size 0 z)))
        | inr nz ↦
            let k : r.pos / s < count = (div-lt_iff_lt-mul pos).1 (ground arith) in
            let part = min size (s - r.pos % s) in
            let whole : r.pos % s < s = mod-lt r.pos pos in
            let some_part : 0 < part = ground arith in
            let r' : Reader = record {
              pos = r.pos + part;
              has_read = r.has_read + part;
              buf = memmove part r.buf r.has_read (content (r.pos / s)) (r.pos % s);
            } in
            rw nz (
              bind_ok _
                (inode_read_block-direct read read_addrs stale write write_addrs alloc free
                  write_inode s s count inode content (r.pos / s) d c few k (omega arith))
                (read_blocks-memmove n s count inode content (size - part) r' d c few pos
                    (omega arith) (omega arith)
                  ∙ ap (λ x. ok (none, x))
                      (rest size part r s content pos (omega arith) (omega arith))))
      ]

  -- In a file whose size is that of at most twelve blocks, all readable, reading block by block
  -- at a position before the end is one memmove out of the bytes of the file: it returns the
  -- number of bytes asked for, cut off at the end, and moves the position on by it.
  pub read_from-memmove :
      (s count : ℕ) (inode : FileInode) (content : ℕ → Bytes) (pos sz : ℕ) (buf : Bytes) (d : D)
      → IsContent read read_addrs stale write write_addrs alloc free write_inode count inode.blocks
          content d
      → count ≤ 12
      → 0 < s
      → inode_size inode ≤ count * s
      → pos < inode_size inode
      → read_from read read_addrs stale write write_addrs alloc free write_inode true
          (some s)
          inode
          pos
          buf
          sz
          d
        ≡ ok (
          value (min sz (inode_size inode - pos)),
          pos + min sz (inode_size inode - pos),
          memmove (min sz (inode_size inode - pos)) buf 0 (byte_at s content) pos,
        )
  unfolding read_from
  read_from-memmove s count inode content pos sz buf d c few h small before =
      let n = min sz (inode_size inode - pos) in
      let none_before : 0 + n ≡ n = omega arith in
      let test : leb (inode_size inode) pos ≡ false = ground arith in
      rw test (
        bind_ok _
          (read_blocks-memmove n s count inode.blocks content n
            record { pos = pos; has_read = 0; buf = buf } d c few h (omega arith) (omega arith))
          (ap (λ m. ok (value m, pos + n, memmove n buf 0 (byte_at s content) pos)) none_before))
