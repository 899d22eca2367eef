-- ===== src/Vfs/Cwd.antt =====
-- The working directory: set_cwd of kern/fs/vfs/vfs.cc. The parameters are those of Vfs/Find, and
-- the permissions of a node.
pub mod Directory
mod Tests
use project_dionysus.Base.{
  ℕ, Bool, true, false, not, List, [], ◌∷◌, Option, none, some, Run, ok, ◌>>=◌, deref, ErrorCode,
  error_not_dir, Result, value, error, ◌==◌, if◌then◌else◌,
}
use project_dionysus.Ext2.Bytes.{Bytes}
use project_dionysus.Vfs.Access.{User, Permissions, access_node}
use project_dionysus.Vfs.Path.{slash}
use project_dionysus.Vfs.Find.{Nodes, is_dir, through_mount, do_find, link_resolve}

-- The end of set_cwd, for the node that the path and its links led to: X_OK is 1.
unfoldable pub enter :
    User → (ℕ → Permissions) → Option ℕ → Nodes → ℕ → Run (Option ErrorCode × Option ℕ × Nodes)
enter this permissions cwd_vnode nodes dest =
    if not (is_dir (nodes.kind dest))
    then ok (some error_not_dir, cwd_vnode, nodes)
    else elim (access_node this (permissions dest) 1) [
      | some e ↦ ok (some e, cwd_vnode, nodes)
      | none ↦ ok (none, some dest, nodes)
    ]

unfoldable pub arrive :
    User
    → (ℕ → Permissions)
    → Option ℕ
    → Result ℕ × Nodes
    → Run (Option ErrorCode × Option ℕ × Nodes)
arrive this permissions cwd_vnode (error e, nodes) = ok (some e, cwd_vnode, nodes)
arrive this permissions cwd_vnode (value m, nodes) =
    deref (through_mount nodes m) >>= enter this permissions cwd_vnode nodes

module _ (fs_find : ℕ → List ℕ → Nodes → Result ℕ × Nodes) (read_link : ℕ → Nodes → Result (List ℕ))
    (link_getter : ℕ → Nodes → Option ℕ) (memory : Bytes) (vfs_root cwd_vnode : Option ℕ)
    (this : User) (permissions : ℕ → Permissions) where
  -- The node that the search found is followed through its links and what is mounted on it.
  unfoldable pub follow : ℕ → Result ℕ × Nodes → Run (Option ErrorCode × Option ℕ × Nodes)
  follow fuel (error e, nodes) = ok (some e, cwd_vnode, nodes)
  follow fuel (value n, nodes) =
      link_resolve fs_find read_link link_getter memory vfs_root cwd_vnode
        (do_find fs_find read_link link_getter memory vfs_root cwd_vnode fuel) n false nodes
      >>= arrive this permissions cwd_vnode

  -- set_cwd with the path searched from the root: the error code, the working directory, and the
  -- nodes.
  unfoldable pub go_to : ℕ → List ℕ → Nodes → Run (Option ErrorCode × Option ℕ × Nodes)
  go_to fuel path nodes =
      do_find fs_find read_link link_getter memory vfs_root cwd_vnode fuel vfs_root (some path)
        false nodes
      >>= follow fuel

  unfoldable pub set_cwd : ℕ → List ℕ → Nodes → Run (Option ErrorCode × Option ℕ × Nodes)
  set_cwd fuel [] nodes = go_to fuel [] nodes
  set_cwd fuel (c ∷ []) nodes =
      if slash == c then ok (none, none, nodes) else go_to fuel (c ∷ []) nodes
  set_cwd fuel (c ∷ d ∷ path) nodes =
      if slash == c
      then elim vfs_root [
        | none ↦ ok (none, none, nodes)
        | some _ ↦ go_to fuel (c ∷ d ∷ path) nodes
      ]
      else go_to fuel (c ∷ d ∷ path) nodes
