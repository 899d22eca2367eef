-- ===== src/Vfs/Open.antt =====
-- Opening a node, and reading and writing an open file: get_open_mode, open_directory, open_vnode,
-- read and write of kern/fs/vfs/vfs.cc. The operations of a node are parameters; of the file
-- object they may change the position alone. Error codes have no sign: one that is returned
-- by an operation never equals the positive ERROR_UNSUPPORTED.
pub mod Rights
mod Tests
use Prim.Native.Nat.{bit_and, bit_or}
use project_dionysus.Base.{
  ℕ, ◌+◌, ◌-◌, ◌%◌, ◌^◌, Bool, true, false, not, ◌||◌, Option, none, some, ErrorCode, error_invalid,
  error_not_dir, error_is_dir, error_invalid_access, error_access, Result, value, error, ◌==◌,
  if◌then◌else◌,
}
use project_dionysus.Vfs.Access.{User, Permissions, access_node, has_bit}
use project_dionysus.Vfs.Find.{
  NodeType, vnt_unknown, vnt_reg, vnt_dir, vnt_chr, vnt_blk, vnt_fifo, vnt_socket, vnt_lnk,
  vnt_sock, vnt_mnt, is_dir, is_mount,
}

-- IOCTX_FLG_EXEC is 4, IOCTX_FLG_MASK_ACCESS_MODE 3; the access modes are 0, 1 and 2 for reading,
-- writing and both.
unfoldable pub access_mode : ℕ → ℕ
access_mode opt = bit_and opt 3

unfoldable pub get_open_mode : ℕ → ℕ
get_open_mode opt =
    let r = if has_bit opt 4 then 1 else 0 in
    if access_mode opt == 1
    then bit_or r 2
    else (if access_mode opt == 0
        then bit_or r 4
        else (if access_mode opt == 2 then bit_or r 6 else r))

-- file_object: its flags are FO_FLAG_WRITABLE, 1, FO_FLAG_READABLE, 2, FO_FLAG_DIRECTORY, 4,
-- and those of a directory in memory and of FO_FLAG_CLOEXEC, 128.
pub record FileObject : Type 0 where
  pub flags : ℕ
  pub pos : ℕ
  pub vnode : Option ℕ

-- What a node is, as far as opening it goes; `first_child` is the address of its first child.
pub record Node : Type 0 where
  pub kind : NodeType
  pub permissions : Permissions
  pub in_memory : Bool
  pub first_child : ℕ

-- The nodes, how often each is open, and the rest of the file systems.
pub record Files (D : Type 0) : Type 0 where
  pub node : ℕ → Node
  pub open_count : ℕ → ℕ
  pub device : D

unfoldable pub increase_open_count : {D : Type 0} → ℕ → Files D → Files D
increase_open_count n s = record s {
  open_count = λ m. if n == m then (s.open_count m + 1) % 2 ^ 64 else s.open_count m;
}

-- The flags that open_vnode sets for a file: by the access mode, and IOCTX_FLG_CLOEXEC.
unfoldable pub open_flags : ℕ → ℕ
open_flags opt =
    let flags =
      if access_mode opt == 0
      then 2
      else (if access_mode opt == 1 then 1 else (if access_mode opt == 2 then 3 else 0)) in
    if has_bit opt (2 ^ 19) then bit_or flags 128 else flags

-- Any option but the access mode, IOCTX_FLG_CLOEXEC, IOCTX_FLG_CREATE and IOCTX_FLG_TRUNC.
unfoldable pub other_options : ℕ → Bool
other_options opt = has_bit opt (2 ^ 64 - 1 - 3 - 2 ^ 19 - 2 ^ 6 - 2 ^ 9)

-- The way that a read or write of a node goes: to the node itself, to its device, or nowhere.
pub data Way : Type 0 where
  by_node by_device nowhere : Way

unfoldable pub way : NodeType → Way
way vnt_unknown = nowhere
way vnt_reg = by_node
way vnt_dir = nowhere
way vnt_chr = by_device
way vnt_blk = by_device
way vnt_fifo = by_node
way vnt_socket = nowhere
way vnt_lnk = nowhere
way vnt_sock = nowhere
way vnt_mnt = nowhere

module _ {D : Type 0} (truncate : ℕ → ℕ → D → Option ErrorCode × D)
    (open_node : ℕ → ℕ → ℕ → D → Option ErrorCode × ℕ × D)
    (open_node_directory : ℕ → ℕ → D → Option ErrorCode × ℕ × D)
    (transfer device_transfer : Bool → ℕ → ℕ → ℕ → D → Result ℕ × ℕ × D) where
  -- Of a file object whose node is `n`.
  unfoldable pub open_directory : ℕ → FileObject → Files D → Option ErrorCode × FileObject × Files D
  open_directory n fd s =
      let opened = open_node_directory n fd.pos s.device in
      let fd' : FileObject = record fd { pos = opened.1 } in
      let s' : Files D = record s { device = opened.2 } in
      if not (is_dir (s.node n).kind)
      then (some error_not_dir, fd, s)
      else (if (s.node n).in_memory
          then (
            none,
            record fd { flags = bit_or fd.flags 24; pos = (s.node n).first_child },
            increase_open_count n s,
          )
          else elim opened.0 [
            | some e ↦ (some e, fd', s')
            | none ↦ (none, fd', increase_open_count n s')
          ])

  -- open_vnode of a file, behind the check of its permissions and the truncation.
  unfoldable pub finish_open :
      FileObject → ℕ → ℕ → Files D → Option ErrorCode × FileObject × Files D
  finish_open fd n opt s =
      let fd' : FileObject = record { flags = open_flags opt; pos = 0; vnode = some n } in
      let opened = open_node n opt 0 s.device in
      let fd'' : FileObject = record (fd') { pos = opened.1 } in
      let s' : Files D = record s { device = opened.2 } in
      if other_options opt
      then (some error_invalid, record { flags = 0; pos = 0; vnode = some n }, s)
      else elim opened.0 [
        | some e ↦ (some e, fd'', s')
        | none ↦ (none, fd'', increase_open_count n s')
      ]

  -- open_vnode with IOCTX_FLG_DIRECTORY: the flags are FO_FLAG_DIRECTORY and FO_FLAG_READABLE.
  unfoldable pub open_as_directory :
      FileObject → ℕ → ℕ → Files D → Option ErrorCode × FileObject × Files D
  open_as_directory fd n opt s =
      if not (is_dir (s.node n).kind)
      then (some error_not_dir, fd, s)
      else (if access_mode opt == 0
          then open_directory n record { flags = 6; pos = 0; vnode = some n } s
          else (some error_invalid_access, fd, s))

  unfoldable pub open_as_file :
      User → FileObject → ℕ → ℕ → Files D → Option ErrorCode × FileObject × Files D
  open_as_file this fd n opt s =
      let cut = truncate n 0 s.device in
      if is_dir (s.node n).kind || is_mount (s.node n).kind
      then (some error_is_dir, fd, s)
      else elim (access_node this (s.node n).permissions (get_open_mode opt)) [
        | some e ↦ (some e, fd, s)
        | none ↦
            if has_bit opt (2 ^ 9)
            then elim cut.0 [
              | some e ↦ (some e, fd, record s { device = cut.1 })
              | none ↦ finish_open fd n opt record s { device = cut.1 }
            ]
            else finish_open fd n opt s
      ]

  unfoldable pub open_vnode :
      User
      → Option FileObject
      → Option ℕ
      → ℕ
      → Files D
      → Option ErrorCode × Option FileObject × Files D
  open_vnode this none n opt s = (some error_invalid, none, s)
  open_vnode this (some fd) none opt s = (some error_invalid, some fd, s)
  open_vnode this (some fd) (some n) opt s =
      let opened =
        if has_bit opt (2 ^ 16)
        then open_as_directory fd n opt s
        else open_as_file this fd n opt s in
      (opened.0, some opened.1, opened.2)

  -- The call of the node or of its device; `writing` tells the two directions apart. A device
  -- leaves the position as it is.
  unfoldable pub transfer_by : Bool → FileObject → ℕ → ℕ → Files D → Result ℕ × FileObject × Files D
  transfer_by writing fd n count s =
      let moved = transfer writing n fd.pos count s.device in
      let device = device_transfer writing n fd.pos count s.device in
      elim (way (s.node n).kind) [
        | by_node ↦ (moved.0, record fd { pos = moved.1 }, record s { device = moved.2 })
        | by_device ↦ (device.0, fd, record s { device = device.2 })
        | nowhere ↦ (error error_invalid, fd, s)
      ]

  -- `buffer` says whether the caller's buffer is there.
  unfoldable pub write : Bool → FileObject → ℕ → Files D → Result ℕ × FileObject × Files D
  write buffer fd count s =
      if not buffer
      then (error error_invalid, fd, s)
      else (if not (has_bit fd.flags 1)
          then (error error_access, fd, s)
          else (if has_bit fd.flags 4 then (error error_is_dir, fd, s) else elim fd.vnode [
            | none ↦ (error error_invalid, fd, s)
            | some n ↦ transfer_by true fd n count s
          ]))

  -- A file object that was opened has a node.
  unfoldable pub read : Bool → FileObject → ℕ → ℕ → Files D → Result ℕ × FileObject × Files D
  read buffer fd n count s =
      if not (has_bit fd.flags 2)
      then (error error_invalid, fd, s)
      else (if not buffer then (error error_invalid, fd, s) else transfer_by false fd n count s)
