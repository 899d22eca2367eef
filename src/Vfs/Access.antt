-- ===== src/Vfs/Access.antt =====
-- Permissions: access_check and access_node of kern/fs/vfs/vfs.cc.
pub mod Classes
use Prim.Native.Nat.{bit_and}
use project_dionysus.Base.{
  ℕ, ◌+◌, Bool, true, false, not, ◌&&◌, ◌||◌, Option, none, some, ErrorCode, error_access, ◌==◌,
  if◌then◌else◌,
}

-- `x & b`, as a condition.
unfoldable pub has_bit : ℕ → ℕ → Bool
has_bit x b = not (bit_and x b == 0)

-- R_OK, W_OK and X_OK are 4, 2 and 1. The three tests with the bits of a class of users.
unfoldable pub check_class : ℕ → ℕ → ℕ → ℕ → ℕ → Option ErrorCode
check_class desm mode r w x =
    if has_bit desm 4 && not (has_bit mode r)
    then some error_access
    else (if has_bit desm 2 && not (has_bit mode w)
        then some error_access
        else (if has_bit desm 1 && not (has_bit mode x) then some error_access else none))

-- The user and the group of a vfs_io_context.
pub record User : Type 0 where
  pub uid : ℕ
  pub gid : ℕ

-- S_IRUSR to S_IXOTH are 256 down to 1; any execute bit is 64 + 8 + 1.
unfoldable pub access_check : User → ℕ → ℕ → ℕ → ℕ → Option ErrorCode
access_check this desm mode uid gid =
    if this.uid == 0
    then (if has_bit desm 1 && not (has_bit mode 73) then some error_access else none)
    else (if uid == this.uid
        then check_class desm mode 256 128 64
        else (if gid == this.gid
            then check_class desm mode 32 16 8
            else check_class desm mode 4 2 1))

-- A vnode's permissions, as far as they are checked.
pub record Permissions : Type 0 where
  pub mode : ℕ
  pub uid : ℕ
  pub gid : ℕ

unfoldable pub access_node : User → Permissions → ℕ → Option ErrorCode
access_node this vn mode = access_check this mode vn.mode this.uid this.gid
