-- ===== src/Vfs/Open/Tests.antt =====
-- A regular file of another user that may be read and not written: the theorems at inputs that
-- meet their hypotheses. The state of the file systems is how often a file was truncated.
use project_dionysus.Base.{
  ℕ, suc, ◌+◌, ◌%◌, ◌≡◌, refl, Option, none, some, ErrorCode, error_access, error_invalid, Result,
  value, error, true, false, ◌==◌, ◌||◌, if◌then◌else◌, arith, Bool,
}
use project_dionysus.Vfs.Access.{User, access_node, access_check, check_class, has_bit}
use project_dionysus.Vfs.Find.{vnt_reg, is_dir, is_mount}
use project_dionysus.Vfs.Open.{
  FileObject, Files, open_vnode, open_as_file, finish_open, open_flags, other_options, access_mode,
  get_open_mode, increase_open_count, read, write, transfer_by,
}
use project_dionysus.Vfs.Open.Rights.{open_vnode-rights, open_vnode_truncates}

abbrev truncate : ℕ → ℕ → ℕ → Option ErrorCode × ℕ
truncate n size d = (none, suc d)

abbrev open_node : ℕ → ℕ → ℕ → ℕ → Option ErrorCode × ℕ × ℕ
open_node n opt pos d = (none, 0, d)

abbrev open_node_directory : ℕ → ℕ → ℕ → Option ErrorCode × ℕ × ℕ
open_node_directory n pos d = (none, 0, d)

abbrev transfer : Bool → ℕ → ℕ → ℕ → ℕ → Result ℕ × ℕ × ℕ
transfer writing n pos count d = (value count, pos + count, d)

abbrev someone : User
someone = record { uid = 1000; gid = 100 }

-- The permissions are 0o444.
abbrev files : Files ℕ
files = record {
  node = λ n. record {
    kind = vnt_reg;
    permissions = record { mode = 292; uid = 0; gid = 0 };
    in_memory = false;
    first_child = 0;
  };
  open_count = λ n. 0;
  device = 0;
}

abbrev closed : FileObject
closed = record { flags = 0; pos = 0; vnode = none }

abbrev opened : FileObject
opened = record { flags = 2; pos = 0; vnode = some 5 }

open_vnode-rights_example :
    (access_node someone (files.node 5).permissions (get_open_mode 0) ≡ none)
    × ((count : ℕ) (t : Files ℕ)
        → write truncate open_node open_node_directory transfer transfer true opened count t ≡ (
            if (0 % 4 == 1) || (0 % 4 == 2)
            then transfer_by truncate open_node open_node_directory transfer transfer true opened 5
                count t
            else (error error_access, opened, t)))
    × ((count : ℕ) (t : Files ℕ)
        → read truncate open_node open_node_directory transfer transfer true opened 5 count t ≡ (
            if (0 % 4 == 0) || (0 % 4 == 2)
            then transfer_by truncate open_node open_node_directory transfer transfer false opened 5
                count t
            else (error error_invalid, opened, t)))
unfolding open_vnode open_as_file finish_open open_flags other_options access_mode get_open_mode
    access_node access_check check_class has_bit is_dir is_mount
open_vnode-rights_example =
    open_vnode-rights truncate open_node open_node_directory transfer transfer someone closed opened
      5 0 files (increase_open_count 5 files) refl refl

open_vnode_truncates_example :
    (access_node someone (files.node 5).permissions 2 ≡ some error_access)
    × (open_vnode truncate open_node open_node_directory transfer transfer someone
          (some closed)
          (some 5)
          512
          files
        ≡ (none, some opened, increase_open_count 5 record files { device = 1 }))
unfolding is_dir is_mount
open_vnode_truncates_example =
    open_vnode_truncates truncate open_node open_node_directory transfer transfer someone closed 5 0
      files 1 1 (λ e. absurd (omega arith)) refl refl refl refl refl
