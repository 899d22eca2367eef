-- ===== src/Ext2/File/Written.antt =====
-- A whole write within the blocks that a file has, and reading back what was written.
use Prim.Native.Nat.{min, max}
use native.Mathlib.Nat.{mul-le-mul_right}
use project_dionysus.Base.{
  ℕ, ◌+◌, ◌-◌, ◌*◌, ◌/◌, ◌%◌, ◌^◌, ◌≤◌, ◌<◌, ◌≡◌, refl, ap, sym, ◌∙◌, true, false, Option, none,
  some, Run, ok, bind_ok, ErrorCode, Result, value, ltb, arith,
}
use project_dionysus.Ext2.Bytes.{Bytes, memmove, byte_at, memmove-inside}
use project_dionysus.Ext2.Index.{Inode, Addresses}
use project_dionysus.Ext2.Index.{addr_count_per_block}
use project_dionysus.Ext2.File.{
  FileInode, write_blocks, write_to, write_resized, read_from, inode_size, inode_set_size,
  inode_resize, finish_resize, leave_resize, block_count, expand,
}
use project_dionysus.Ext2.File.Content.{IsContent}
use project_dionysus.Ext2.File.Reading.{read_from-memmove}
use project_dionysus.Ext2.File.Writing.{IsApart, IsDisk, write_blocks-Wrote}

-- The size that was set is the size that is read, when it has at most 64 bits.
pub inode_size-inode_set_size :
    (inode : FileInode) (sz : ℕ) → sz < 2 ^ 64 → inode_size (inode_set_size inode sz) ≡ sz
unfolding inode_size inode_set_size
inode_size-inode_set_size inode sz h = omega arith

inode_size-finish :
    (inode : FileInode) (sz count now : ℕ)
    → sz < 2 ^ 64
    → inode_size record (finish_resize inode sz count inode.blocks) { mtime = now } ≡ sz
unfolding inode_size finish_resize inode_set_size
inode_size-finish inode sz count now h = omega arith

read_back :
    (before bytes room buf : Bytes) (pos sz j : ℕ)
    → bytes ≡ memmove sz before pos buf 0
    → j < sz
    → memmove sz room 0 bytes pos j ≡ buf j
read_back before bytes room buf pos sz j laid lt =
    let z : 0 + j ≡ j = omega arith in
    ap (memmove sz room 0 bytes pos) (sym z)
    ∙ memmove-inside sz room 0 bytes pos j lt
    ∙ ap (λ (f : Bytes). f (pos + j)) laid
    ∙ memmove-inside sz before pos buf 0 j lt
    ∙ ap buf z

-- Writing back the inode succeeds, and goes to none of the blocks of the file.
pub record IsElsewhere {D : Type 0} (read : ℕ → D → Result Bytes)
    (write_inode : FileInode → D → Option ErrorCode × D) (count : ℕ) (blocks : Inode) : Type 0 where
  pub succeeds : (inode : FileInode) (d : D) → (write_inode inode d).0 ≡ none
  pub others :
      (inode : FileInode) (d : D) (k : ℕ)
      → k < count
      → read (blocks.direct_blocks k) (write_inode inode d).1 ≡ read (blocks.direct_blocks k) d

module _ {D : Type 0} (read : ℕ → D → Result Bytes) (read_addrs : ℕ → D → Result Addresses)
    (stale : Addresses → Addresses) (write : ℕ → Bytes → D → Option ErrorCode × D)
    (write_addrs : ℕ → Addresses → D → Option ErrorCode × D) (alloc : D → Result ℕ × D)
    (free : ℕ → D → Option ErrorCode × D) (write_inode : FileInode → D → Option ErrorCode × D) where
  pub resize_within :
      (s : ℕ) (inode : FileInode) (sz : ℕ) (d : D)
      → block_count s sz ≡ block_count s (inode_size inode)
      → block_count s (inode_size inode) ≤ 12
      → inode_resize read read_addrs stale write write_addrs alloc free write_inode
          (some s)
          inode
          sz
          d
        ≡ (none, finish_resize inode sz (block_count s sz) inode.blocks, d)
  unfolding inode_resize addr_count_per_block expand leave_resize
  resize_within s inode sz d e few =
      let old = block_count s (inode_size inode) in
      let a : ltb (12 + s / 4) (block_count s sz) ≡ false = ground arith in
      let b : ltb (12 + s / 4) old ≡ false = ground arith in
      let c : ltb (block_count s sz) old ≡ false = ground arith in
      let no_more : block_count s sz - old ≡ 0 = omega arith in rw (a, b, c, no_more) refl

  -- What a file of at most twelve blocks is, and the device below it.
  pub record IsFile (s count : ℕ) (inode : FileInode) (content : ℕ → Bytes) (d : D) : Type 0 where
    pub some_bytes : 0 < s
    pub fits_buffer : s ≤ 1024
    pub counted : block_count s (inode_size inode) ≡ count
    pub few : count ≤ 12
    pub small : inode_size inode ≤ count * s
    pub disk : IsDisk read write
    pub apart : IsApart count inode.blocks
    pub elsewhere : IsElsewhere read write_inode count inode.blocks
    pub held :
        IsContent read read_addrs stale write write_addrs alloc free write_inode count inode.blocks
          content d

  -- The bytes of the file that a write leaves, and the file's new size.
  pub record Written (s count : ℕ) (before after : FileInode) (bytes : Bytes) (size : ℕ) (d : D)
      : Type 0 where
    pub content : ℕ → Bytes
    pub file : IsFile s count after content d
    pub laid : byte_at s content ≡ bytes
    pub sized : inode_size after ≡ size
    pub same_blocks : after.blocks ≡ before.blocks

  -- The inode that a write leaves when the number of blocks stays.
  abbrev grown : ℕ → FileInode → ℕ → ℕ → FileInode
  grown s inode size now = record (finish_resize inode size (block_count s size) inode.blocks) {
    mtime = now;
  }

  write_to-done :
      (s : ℕ) (inode : FileInode) (pos sz now : ℕ) (buf : Bytes) (d d1 : D)
      → pos ≤ inode_size inode
      → pos + sz < 2 ^ 64
      → block_count s (max (pos + sz) (inode_size inode)) ≡ block_count s (inode_size inode)
      → block_count s (inode_size inode) ≤ 12
      → (write_inode (grown s inode (max (pos + sz) (inode_size inode)) now) d1).0 ≡ none
      → write_blocks read read_addrs stale write write_addrs alloc free write_inode true sz s
          inode.blocks buf sz
          record { pos = pos; offset = 0 }
          d
        ≡ ok (none, record { pos = pos + sz; offset = 0 + sz }, d1)
      → write_to read read_addrs stale write write_addrs alloc free write_inode true
          (some s)
          inode
          pos
          buf
          sz
          now
          d
        ≡ ok (
          value sz,
          pos + sz,
          grown s inode (max (pos + sz) (inode_size inode)) now,
          (write_inode (grown s inode (max (pos + sz) (inode_size inode)) now) d1).1,
        )
  unfolding write_to write_resized finish_resize inode_set_size
  write_to-done s inode pos sz now buf d d1 within small same_count few back written =
      let test : ltb (inode_size inode) pos ≡ false = ground arith in
      let no_wrap : (pos + sz) % 2 ^ 64 ≡ pos + sz = omega arith in
      let no_offset : 0 + sz ≡ sz = omega arith in
      let size = max (pos + sz) (inode_size inode) in
      let after = grown s inode size now in
      let resized = resize_within s inode size d same_count few in
      let ended =
        write_resized read read_addrs stale write write_addrs alloc free write_inode true s pos buf
          sz now in
      rw (test, no_wrap)
        (ap ended resized
          ∙ bind_ok _ written (
              rw back (
                ap {B = Run (Result ℕ × ℕ × FileInode × D)}
                  (λ m. ok (value m, pos + sz, after, (write_inode after d1).1)) no_offset)))

  -- On a device that keeps what is written, in a file of at most twelve blocks that are
  -- different blocks of the device, readable, and of at most 1024 bytes each, where writing
  -- back the inode succeeds and goes to none of these blocks, writing at a position up to the
  -- end, within the blocks that the file has, succeeds, changes just the bytes written, sets
  -- the size to the larger of the old one and the end of the write, and leaves such a file with
  -- the same block numbers.
  pub write_to-Written :
      (s count : ℕ) (inode : FileInode) (content : ℕ → Bytes) (pos sz now : ℕ) (buf : Bytes) (d : D)
      → IsFile s count inode content d
      → pos ≤ inode_size inode
      → pos + sz ≤ count * s
      → block_count s (max (pos + sz) (inode_size inode)) ≡ count
      → (after : FileInode) × (d' : D) × (write_to read read_addrs stale write write_addrs alloc
            free write_inode true
            (some s)
            inode
            pos
            buf
            sz
            now
            d
          ≡ ok (value sz, pos + sz, after, d'))
        × Written s count inode after
            (memmove sz (byte_at s content) pos buf 0)
            (max (pos + sz) (inode_size inode))
            d'
  unfolding finish_resize inode_set_size
  write_to-Written s count inode content pos sz now buf d f within room same_count =
      let size = max (pos + sz) (inode_size inode) in
      let old_few = f.few in
      let cap : count * s ≤ 12 * s = mul-le-mul_right s f.few in
      let old_small = f.small in
      let limit = f.fits_buffer in
      let resized : FileInode = finish_resize inode size (block_count s size) inode.blocks in
      let after : FileInode = record (resized) { mtime = now } in
      let (d1, e1, w) =
        write_blocks-Wrote read read_addrs stale write write_addrs alloc free write_inode sz s count
          inode.blocks content buf sz record { pos = pos; offset = 0 } d f.disk f.apart f.held f.few
          f.some_bytes f.fits_buffer (omega arith) room in
      let sized : inode_size after ≡ size =
        inode_size-finish inode size (block_count s size) now (omega arith) in
      (
        after,
        (write_inode after d1).1,
        write_to-done s inode pos sz now buf d d1 within (omega arith) (same_count ∙ sym f.counted)
            (rw f.counted f.few) (f.elsewhere.succeeds after d1) e1,
        record {
          content = w.content;
          file = record {
            some_bytes = f.some_bytes;
            fits_buffer = f.fits_buffer;
            counted = rw sized same_count;
            few = f.few;
            small = rw sized (ground arith);
            disk = f.disk;
            apart = f.apart;
            elsewhere = f.elsewhere;
            held = λ k lt. f.elsewhere.others after d1 k lt ∙ w.held k lt;
          };
          laid = w.laid;
          sized = sized;
          same_blocks = refl;
        },
      )

  -- On a device that keeps what is written, in a file of at most twelve blocks that are
  -- different blocks of the device, readable, and of at most 1024 bytes each, where writing
  -- back the inode succeeds and goes to none of these blocks, writing some bytes at a position
  -- up to the end, within the blocks that the file has, and then reading as many bytes at that
  -- position gives the bytes that were written, and both calls return their number.
  pub read_from-write_to :
      (s count : ℕ) (inode : FileInode) (content : ℕ → Bytes) (pos sz now : ℕ) (buf : Bytes) (d : D)
      → IsFile s count inode content d
      → 0 < sz
      → pos ≤ inode_size inode
      → pos + sz ≤ count * s
      → block_count s (max (pos + sz) (inode_size inode)) ≡ count
      → (after : FileInode) × (d' : D) × (write_to read read_addrs stale write write_addrs alloc
            free write_inode true
            (some s)
            inode
            pos
            buf
            sz
            now
            d
          ≡ ok (value sz, pos + sz, after, d'))
        × ((room : Bytes)
            → (out : Bytes) × (read_from read read_addrs stale write write_addrs alloc free
                  write_inode true
                  (some s)
                  after
                  pos
                  room
                  sz
                  d'
                ≡ ok (value sz, pos + sz, out))
              × ((j : ℕ) → j < sz → out j ≡ buf j))
  read_from-write_to s count inode content pos sz now buf d f some_sz within fits same_count =
      let (after, d', e, w) =
        write_to-Written s count inode content pos sz now buf d f within fits same_count in
      let sized = w.sized in
      let most = w.file.small in
      let bytes = byte_at s w.content in
      let all : min sz (inode_size after - pos) ≡ sz = ground arith in
      (
        after,
        d',
        e,
        λ room. (
          memmove sz room 0 bytes pos,
          read_from-memmove read read_addrs stale write write_addrs alloc free write_inode s count
                after w.content pos sz room d' w.file.held f.few w.file.some_bytes most
                (ground arith)
              ∙ ap {B = Run (Result ℕ × ℕ × Bytes)}
                  (λ m. ok (value m, pos + m, memmove m room 0 bytes pos)) all,
          λ j lt. read_back (byte_at s content) bytes room buf pos sz j w.laid lt,
        ),
      )
