-- ===== src/Vfs/Find.antt =====
-- Finding a node by its path: find, do_find, do_link_resolve and lookup_or_load_node of
-- kern/fs/vfs/vfs.cc, and lookup_child and attach of kern/fs/vfs/vnode.cc. A node is a number. The
-- operations of the file system below, finding a name, reading a link and the getter of a link
-- of the process, are parameters, as is what new memory holds. Running out of fuel is a fault.
pub mod First
use project_dionysus.Base.{
  ℕ, zero, suc, ◌+◌, Bool, true, false, not, ◌&&◌, ◌||◌, List, [], ◌∷◌, ◌++◌, Option, none, some,
  Run, ok, fault, ◌>>=◌, deref, ErrorCode, error_invalid, error_no_entry, error_not_dir,
  error_not_impl, error_too_many_calls, Result, value, error, ◌==◌, ltb, leb, if◌then◌else◌, length,
}
use project_dionysus.Ext2.Bytes.{Bytes}
use project_dionysus.Ext2.Directory.Listing.{same_name}
use project_dionysus.Vfs.Path.{
  slash, dot, vfs_max_path_len, next_path_element, c_string, skip_slashes,
}

pub data NodeType : Type 0 where
  vnt_unknown vnt_reg vnt_dir vnt_chr vnt_blk vnt_fifo vnt_socket vnt_lnk vnt_sock vnt_mnt :
      NodeType

-- The nodes, each by its number.
pub record Nodes : Type 0 where
  pub kind : ℕ → NodeType
  pub name : ℕ → List ℕ
  pub parent : ℕ → Option ℕ
  pub link_target : ℕ → Option ℕ
  pub child_list : ℕ → List ℕ
  pub in_memory : ℕ → Bool
  pub per_process : ℕ → Bool

unfoldable pub is_link : NodeType → Bool
is_link vnt_lnk = true
is_link vnt_mnt = false
is_link k = false

unfoldable pub is_mount : NodeType → Bool
is_mount vnt_mnt = true
is_mount vnt_lnk = false
is_mount k = false

unfoldable pub is_dir : NodeType → Bool
is_dir vnt_dir = true
is_dir vnt_lnk = false
is_dir k = false

unfoldable pub first_named : (ℕ → List ℕ) → List ℕ → List ℕ → Option ℕ
first_named names name [] = none
first_named names name (c ∷ children) =
    let rest = first_named names name children in if same_name (names c) name then some c else rest

-- VNODE_NAME_MAX is 64.
unfoldable pub lookup_child : Nodes → ℕ → List ℕ → Result ℕ
lookup_child nodes at name =
    if leb 64 (length name)
    then error error_invalid
    else elim (first_named nodes.name name (nodes.child_list at)) [
      | none ↦ error error_no_entry
      | some c ↦ value c
    ]

unfoldable pub attach : ℕ → ℕ → Nodes → Nodes
attach at child nodes = record nodes {
  child_list = λ n. if at == n then nodes.child_list n ++ child ∷ [] else nodes.child_list n;
}

unfoldable pub is_no_entry : ErrorCode → Bool
is_no_entry error_no_entry = true
is_no_entry error_invalid = false
is_no_entry e = false

-- How the elements `.` and `..` at the beginning of a path end: at the node itself, at its parent
-- with the path behind, or at an element in the buffer with the path behind.
pub data Dots : Type 0 where
  here : Dots
  up : Option (List ℕ) → Dots
  element : Bytes → Option (List ℕ) → Dots
  endless : Dots

unfoldable pub is_ended : Option (List ℕ) → Bool
is_ended none = true
is_ended (some path) = length path == 0

unfoldable pub skip_dots : ℕ → Bytes → Option (List ℕ) → Dots
skip_dots zero buf path_next = endless
skip_dots (suc n) buf path_next =
    let text = c_string vfs_max_path_len buf 0 in
    let next : Bytes × Option (List ℕ) = elim path_next [
      | none ↦ (buf, none)
      | some path ↦ next_path_element path buf
    ] in
    let rest = skip_dots n next.0 next.1 in
    if same_name text (dot ∷ [])
    then (if is_ended path_next then here else rest)
    else (if same_name text (dot ∷ dot ∷ []) then up path_next else element buf path_next)

-- Of a node that may be null, the link target when it is a mount point.
unfoldable pub through_mount : Nodes → ℕ → Option ℕ
through_mount nodes n = if is_mount (nodes.kind n) then nodes.link_target n else some n

-- The path without the slashes that an absolute one begins with.
unfoldable pub relative_path : List ℕ → List ℕ
relative_path [] = []
relative_path (c ∷ s) = if slash == c then skip_slashes (c ∷ s) else c ∷ s

module _ (fs_find : ℕ → List ℕ → Nodes → Result ℕ × Nodes) (read_link : ℕ → Nodes → Result (List ℕ))
    (link_getter : ℕ → Nodes → Option ℕ) (memory : Bytes) (vfs_root cwd_vnode : Option ℕ) where
  unfoldable pub lookup_or_load_node : ℕ → List ℕ → Nodes → Result ℕ × Nodes
  lookup_or_load_node at name nodes = elim (lookup_child nodes at name) [
    | value c ↦ (value c, nodes)
    | error e ↦
        let got = fs_find at name nodes in
        if not (is_no_entry e)
        then (error e, nodes)
        else (if nodes.in_memory at
            then (error error_no_entry, nodes)
            else elim got.0 [ error c ↦ got | value node ↦ (value node, attach at node got.1) ])
  ]

  -- find, with the do_find that it calls: the path is always searched from the root.
  unfoldable pub find_by :
      (Option ℕ → Option (List ℕ) → Bool → Nodes → Run (Result ℕ × Nodes))
      → Option ℕ
      → List ℕ
      → Bool
      → Nodes
      → Run (Result (Option ℕ) × Nodes)
  find_by walk rel path link_itself nodes = elim vfs_root [
    | none ↦ ok (error error_invalid, nodes)
    | some root ↦ walk (some root) (some (relative_path path)) link_itself nodes >>= λ r. elim r.0 [
      | error e ↦ ok (error e, r.1)
      | value n ↦ ok (value (through_mount r.1 n), r.1)
    ]
  ]

  -- The target of a link is looked for at the parent of the link, and then not used.
  unfoldable pub refresh_link :
      (Option ℕ → Option (List ℕ) → Bool → Nodes → Run (Result ℕ × Nodes))
      → ℕ
      → Bool
      → Nodes
      → Run (Option ErrorCode × Nodes)
  refresh_link walk lnk link_itself nodes = elim (nodes.link_target lnk) [
    | none ↦ ok (none, nodes)
    | some _ ↦ if nodes.in_memory lnk then ok (none, nodes) else elim (read_link lnk nodes) [
      | error e ↦ ok (some e, nodes)
      | value path ↦ find_by walk (nodes.parent lnk) path link_itself nodes >>= λ r. elim r.0 [
        | error e ↦ ok (
          some e,
          record (r.1) { link_target = λ n. if lnk == n then none else (r.1).link_target n },
        )
        | value _ ↦ ok (none, r.1)
      ]
    ]
  ]

  -- do_link_resolve of a node, with `count` links left, at least one.
  unfoldable pub do_link_resolve :
      (Option ℕ → Option (List ℕ) → Bool → Nodes → Run (Result ℕ × Nodes))
      → ℕ
      → ℕ
      → Bool
      → Nodes
      → Run (Result ℕ × Nodes)
  do_link_resolve walk zero lnk link_itself nodes = ok (error error_too_many_calls, nodes)
  do_link_resolve walk (suc count) lnk link_itself nodes =
      if not (is_link (nodes.kind lnk))
      then ok (value lnk, nodes)
      else (refresh_link walk lnk link_itself nodes >>= λ f. elim f.0 [
        | some e ↦ ok (error e, f.1)
        | none ↦
            let target : Option ℕ =
              if (f.1).per_process lnk then link_getter lnk f.1 else (f.1).link_target lnk in
            elim target [
              | none ↦ ok (error error_no_entry, f.1)
              | some t ↦
                  if is_link ((f.1).kind t)
                  then (if leb count 0
                      then ok (error error_too_many_calls, f.1)
                      else (ok t >>= λ u. do_link_resolve walk count u link_itself f.1))
                  else ok (value t, f.1)
            ]
      ])

  -- VFS_LINK_MAX is 32.
  unfoldable pub link_resolve :
      (Option ℕ → Option (List ℕ) → Bool → Nodes → Run (Result ℕ × Nodes))
      → ℕ
      → Bool
      → Nodes
      → Run (Result ℕ × Nodes)
  link_resolve walk lnk link_itself nodes = do_link_resolve walk 32 lnk link_itself nodes

  -- The end of do_find: the node of the element in the buffer, with the path behind it.
  unfoldable pub find_element :
      (Option ℕ → Option (List ℕ) → Bool → Nodes → Run (Result ℕ × Nodes))
      → ℕ
      → Bytes
      → Option (List ℕ)
      → Bool
      → Nodes
      → Run (Result ℕ × Nodes)
  find_element walk at buf path_next link_itself nodes =
      let load = lookup_or_load_node at (c_string vfs_max_path_len buf 0) nodes in
      elim load.0 [
        | error e ↦ ok (error e, load.1)
        | value result ↦ elim path_next [
          | none ↦ walk (some result) none link_itself load.1
          | some path ↦
              if link_itself
              then ok (value result, load.1)
              else (if is_link ((load.1).kind result)
                  then (link_resolve walk result false load.1 >>= λ r. elim r.0 [
                    | error e ↦ ok (error e, r.1)
                    | value n ↦
                        if is_link ((r.1).kind n)
                        then ok (error error_not_impl, r.1)
                        else ok (value n, r.1)
                  ])
                  else ok (value result, load.1))
        ]
      ]

  -- do_find behind the resolution of a link: `at` may be a mount point.
  unfoldable pub find_in :
      (Option ℕ → Option (List ℕ) → Bool → Nodes → Run (Result ℕ × Nodes))
      → ℕ
      → List ℕ
      → Bool
      → Nodes
      → Run (Result ℕ × Nodes)
  find_in walk at path link_itself nodes = deref (through_mount nodes at) >>= λ dir.
      let (buf, path_next) = next_path_element path memory in
      if not (is_dir (nodes.kind dir))
      then ok (error error_not_dir, nodes)
      else elim (skip_dots (suc (length path)) buf path_next) [
        | endless ↦ fault
        | here ↦ ok (value dir, nodes)
        | up rest ↦
            let parent : ℕ = elim (nodes.parent dir) [ none ↦ dir | some p ↦ p ] in
            walk (some parent) rest link_itself nodes
        | element name rest ↦ find_element walk dir name rest link_itself nodes
      ]

  unfoldable pub do_find : ℕ → Option ℕ → Option (List ℕ) → Bool → Nodes → Run (Result ℕ × Nodes)
  do_find zero at path link_itself nodes = fault
  do_find (suc n) none path link_itself nodes = ok (error error_invalid, nodes)
  do_find (suc n) (some at) none link_itself nodes = ok (value at, nodes)
  do_find (suc n) (some at) (some []) link_itself nodes = ok (value at, nodes)
  do_find (suc n) (some at) (some (c ∷ s)) link_itself nodes =
      if slash == c
      then ok (error error_invalid, nodes)
      else (if is_link (nodes.kind at)
          then (link_resolve (do_find n) at link_itself nodes >>= λ r. elim r.0 [
            | error e ↦ ok r
            | value dir ↦ find_in (do_find n) dir (c ∷ s) link_itself r.1
          ])
          else find_in (do_find n) at (c ∷ s) link_itself nodes)

  unfoldable pub find : ℕ → Option ℕ → List ℕ → Bool → Nodes → Run (Result (Option ℕ) × Nodes)
  find fuel rel path link_itself nodes = find_by (do_find fuel) rel path link_itself nodes
