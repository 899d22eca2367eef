-- ===== src/Vfs/Find/First.antt =====
-- Which node a path of several elements leads to.
use project_dionysus.Base.{
  ℕ, suc, ◌<◌, ◌≡◌, refl, Bool, true, false, List, [], ◌∷◌, ◌++◌, Option, some, Run, ok, bind_ok,
  Result, value, ◌==◌, if◌then◌else◌, length, has, arith,
}
use project_dionysus.Ext2.Directory.Listing.{same_name}
use project_dionysus.Vfs.Path.{slash, dot, skip_slashes, byte_of}
use project_dionysus.Vfs.Path.Element.{blank, next_path_element-append, c_string-byte_of}
use project_dionysus.Vfs.Find.{
  Nodes, NodeType, is_link, is_dir, is_mount, lookup_child, lookup_or_load_node, element, skip_dots,
  through_mount, find_element, find_in, do_find, find, find_by, relative_path,
}

-- A name that is an element of a path, and not one of the two with a meaning.
pub record IsName (name : List ℕ) : Type 0 where
  pub some_bytes : 0 < length name
  pub short : length name < 256
  pub no_slash : has slash name ≡ false
  pub no_zero : has 0 name ≡ false
  pub not_here : same_name name (dot ∷ []) ≡ false
  pub not_up : same_name name (dot ∷ dot ∷ []) ≡ false

skip_dots-name :
    (name : List ℕ) (n : ℕ) (rest : Option (List ℕ))
    → IsName name
    → skip_dots (suc n) (byte_of name) rest ≡ element (byte_of name) rest
unfolding skip_dots
skip_dots-name name n rest h =
    let text = c_string-byte_of name 256 h.no_zero h.short in rw (text, h.not_here, h.not_up) refl

dir_only : (k : NodeType) → is_dir k ≡ true → (is_link k ≡ false) × (is_mount k ≡ false)
unfolding is_dir is_link is_mount
dir_only k h = ground arith

either : {A : Type 0} (b : Bool) (a : A) → (if b then a else a) ≡ a
either true a = refl
either false a = refl

stays : (x : ℕ) (s : List ℕ) → (slash == x) ≡ false → relative_path (x ∷ s) ≡ x ∷ s
unfolding relative_path
stays x s h = rw h refl

module _ (fs_find : ℕ → List ℕ → Nodes → Result ℕ × Nodes) (read_link : ℕ → Nodes → Result (List ℕ))
    (link_getter : ℕ → Nodes → Option ℕ) (vfs_root cwd_vnode : Option ℕ) where
  loaded :
      (at child : ℕ) (name : List ℕ) (nodes : Nodes)
      → lookup_child nodes at name ≡ value child
      → lookup_or_load_node fs_find read_link link_getter blank vfs_root cwd_vnode at name nodes
        ≡ (value child, nodes)
  unfolding lookup_or_load_node
  loaded at child name nodes found = rw (lookup_or_load_node, found) refl

  find_element_first :
      (walk : Option ℕ → Option (List ℕ) → Bool → Nodes → Run (Result ℕ × Nodes)) (at child : ℕ)
      (name path : List ℕ) (link_itself : Bool) (nodes : Nodes)
      → IsName name
      → lookup_child nodes at name ≡ value child
      → is_link (nodes.kind child) ≡ false
      → find_element fs_find read_link link_getter blank vfs_root cwd_vnode walk at
          (byte_of name)
          (some path)
          link_itself
          nodes
        ≡ ok (value child, nodes)
  unfolding find_element
  find_element_first walk at child name path link_itself nodes h found plain =
      let text = c_string-byte_of name 256 h.no_zero h.short in
      let load = loaded at child name nodes found in
      rw (find_element, text, load, text, load, plain)
        (either link_itself (ok (value child, nodes)))

  find_in_first :
      (walk : Option ℕ → Option (List ℕ) → Bool → Nodes → Run (Result ℕ × Nodes)) (at child c : ℕ)
      (name rest tail : List ℕ) (link_itself : Bool) (nodes : Nodes)
      → IsName name
      → skip_slashes rest ≡ c ∷ tail
      → is_dir (nodes.kind at) ≡ true
      → is_mount (nodes.kind at) ≡ false
      → lookup_child nodes at name ≡ value child
      → is_link (nodes.kind child) ≡ false
      → find_in fs_find read_link link_getter blank vfs_root cwd_vnode walk at
          (name ++ slash ∷ rest)
          link_itself
          nodes
        ≡ ok (value child, nodes)
  unfolding find_in through_mount
  find_in_first walk at child c name rest tail link_itself nodes h e dir m found plain =
      let first = next_path_element-append name rest c tail h.no_slash e in
      let dots = skip_dots-name name (length (name ++ slash ∷ rest)) (some (c ∷ tail)) h in
      let done = find_element_first walk at child name (c ∷ tail) link_itself nodes h found plain in
      rw (m, first, dir, dots) done

  do_find_first :
      (n : ℕ) (at child c : ℕ) (name rest tail : List ℕ) (link_itself : Bool) (nodes : Nodes)
      → IsName name
      → skip_slashes rest ≡ c ∷ tail
      → is_dir (nodes.kind at) ≡ true
      → lookup_child nodes at name ≡ value child
      → is_link (nodes.kind child) ≡ false
      → do_find fs_find read_link link_getter blank vfs_root cwd_vnode
          (suc n)
          (some at)
          (some (name ++ slash ∷ rest))
          link_itself
          nodes
        ≡ ok (value child, nodes)
  unfolding do_find
  do_find_first n at child c [] rest tail link_itself nodes h e dir found plain =
      let some_bytes = h.some_bytes in absurd (omega arith)
  do_find_first n at child c (x ∷ s) rest tail link_itself nodes h e dir found plain =
      let no_slash = h.no_slash in
      let relative : (slash == x) ≡ false = ground arith in
      let (l, m) = dir_only (nodes.kind at) dir in
      rw (relative, l)
        (find_in_first (do_find fs_find read_link link_getter blank vfs_root cwd_vnode n) at child c
          (x ∷ s) rest tail link_itself nodes h e dir m found plain)

  -- In memory that is zero, a path of a name, a slash and something more leads to the child
  -- that has the name of the root, a directory, when that is neither a link nor a mount point,
  -- whatever follows the name and whatever node the path is relative to.
  pub find_first :
      (n : ℕ) (root child c : ℕ) (rel : Option ℕ) (name rest tail : List ℕ) (link_itself : Bool)
      (nodes : Nodes)
      → vfs_root ≡ some root
      → IsName name
      → skip_slashes rest ≡ c ∷ tail
      → is_dir (nodes.kind root) ≡ true
      → lookup_child nodes root name ≡ value child
      → is_link (nodes.kind child) ≡ false
      → is_mount (nodes.kind child) ≡ false
      → find fs_find read_link link_getter blank vfs_root cwd_vnode
          (suc n)
          rel
          (name ++ slash ∷ rest)
          link_itself
          nodes
        ≡ ok (value (some child), nodes)
  unfolding find find_by through_mount
  find_first n root child c rel [] rest tail link_itself nodes r h e dir found plain whole =
      let some_bytes = h.some_bytes in absurd (omega arith)
  find_first n root child c rel (x ∷ s) rest tail link_itself nodes r h e dir found plain whole =
      let no_slash = h.no_slash in
      let relative : relative_path (x ∷ (s ++ slash ∷ rest)) ≡ x ∷ (s ++ slash ∷ rest) =
        stays x (s ++ slash ∷ rest) (ground arith) in
      let done =
        do_find_first n root child c (x ∷ s) rest tail link_itself nodes h e dir found plain in
      rw (find_by, r, relative) (bind_ok _ done (rw whole refl))
