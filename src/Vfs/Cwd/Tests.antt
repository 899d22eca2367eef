-- ===== src/Vfs/Cwd/Tests.antt =====
-- The working directory on a tree of three nodes, /a/b.
use project_dionysus.Base.{
  ℕ, refl, List, [], ◌∷◌, Option, none, some, Result, error, error_no_entry, error_invalid, ◌==◌,
  if◌then◌else◌, true, false,
}
use project_dionysus.Vfs.Access.{User, Permissions, access_node, access_check, check_class, has_bit}
use project_dionysus.Vfs.Path.{slash, strchr, strncpy, next_path_element, c_string, skip_slashes}
use project_dionysus.Vfs.Path.Element.{blank}
use project_dionysus.Vfs.Find.{
  Nodes, vnt_dir, vnt_reg, is_dir, is_link, is_mount, lookup_child, first_named, do_find, find_in,
  find_element, lookup_or_load_node, skip_dots, link_resolve, do_link_resolve, through_mount,
  is_ended,
}
use project_dionysus.Vfs.Cwd.{enter, arrive, follow, go_to, set_cwd}
use project_dionysus.Vfs.Cwd.Directory.{MayEnter, set_cwd-MayEnter}

abbrev someone : User
someone = record { uid = 1000; gid = 100 }

-- Mode 755 of root.
abbrev open_to_all : ℕ → Permissions
open_to_all n = record { mode = 493; uid = 0; gid = 0 }

abbrev tree : Nodes
tree = record {
  kind = λ n. if n == 2 then vnt_reg else vnt_dir;
  name = λ n. if n == 1 then 97 ∷ [] else (if n == 2 then 98 ∷ [] else []);
  parent = λ n. if n == 1 then some 0 else (if n == 2 then some 1 else none);
  link_target = λ n. none;
  child_list = λ n. if n == 0 then 1 ∷ [] else (if n == 1 then 2 ∷ [] else []);
  in_memory = λ n. true;
  per_process = λ n. false;
}

abbrev fs_find : ℕ → List ℕ → Nodes → Result ℕ × Nodes
fs_find at name nodes = (error error_no_entry, nodes)

abbrev read_link : ℕ → Nodes → Result (List ℕ)
read_link n nodes = error error_invalid

abbrev link_getter : ℕ → Nodes → Option ℕ
link_getter n nodes = none

-- The path a/b leads to a.
set_cwd-MayEnter_example : MayEnter someone open_to_all tree 1
unfolding enter arrive follow go_to set_cwd is_dir is_link is_mount lookup_child first_named do_find
    find_in find_element lookup_or_load_node skip_dots link_resolve do_link_resolve through_mount
    is_ended access_node access_check check_class has_bit next_path_element c_string skip_slashes
    strchr strncpy
set_cwd-MayEnter_example =
    set_cwd-MayEnter fs_find read_link link_getter blank (some 0) none someone open_to_all 2
      (97 ∷ slash ∷ 98 ∷ []) tree tree 1 refl
