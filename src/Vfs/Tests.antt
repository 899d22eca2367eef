-- ===== src/Vfs/Tests.antt =====
-- The virtual file system on a tree of three nodes, /a/b: the theorems at inputs that meet their
-- hypotheses, and runs of the operations.
use project_dionysus.Base.{
  ℕ, ◌/◌, ◌%◌, ◌≡◌, ◌⊎◌, refl, List, [], ◌∷◌, Option, none, some, error_access, error_invalid,
  error_no_entry, ok, Result, value, error, ◌==◌, if◌then◌else◌, has, arith, true, false,
}
use project_dionysus.Vfs.Access.{User, Permissions, access_check, access_node, check_class, has_bit}
use project_dionysus.Vfs.Access.Classes.{permits, class_of, access_check-permits, access_node_owner}
use project_dionysus.Vfs.Path.{
  slash, dot, separate_parent_name, name_and_parent, strrchr2, strrchr2_from, skip_slashes,
}
use project_dionysus.Vfs.Path.Parent.{separate_parent_name_shallow}
use project_dionysus.Vfs.Path.Element.{blank}
use project_dionysus.Vfs.Find.{
  Nodes, vnt_dir, vnt_reg, find, lookup_child, first_named, is_dir, is_link, is_mount,
}
use project_dionysus.Vfs.Find.First.{IsName, find_first}

abbrev someone : User
someone = record { uid = 1000; gid = 100 }

-- A file of root, with the permissions 0o640.
abbrev private_file : Permissions
private_file = record { mode = 416; uid = 0; gid = 0 }

access_check-permits_example :
    access_check someone 4 416 0 0
    ≡ (if permits (class_of someone private_file) 4 then none else some error_access)
access_check-permits_example =
    access_check-permits someone 4 private_file (λ e. absurd (omega arith))

access_node_owner_example :
    access_node someone private_file 6
    ≡ (if permits (416 / 64 % 8) 6 then none else some error_access)
access_node_owner_example = access_node_owner someone 6 private_file (λ e. absurd (omega arith))

-- Someone may not read and write the file of root, but access_node lets him.
forbidden : access_check someone 6 416 0 0 ≡ some error_access
unfolding access_check check_class has_bit
forbidden = refl

let_in : access_node someone private_file 6 ≡ none
unfolding access_node access_check check_class has_bit
let_in = refl

separate_parent_name_shallow_example :
    ((has slash (slash ∷ 97 ∷ 98 ∷ []) ≡ false)
      × (◌≡◌ {A = List ℕ} (97 ∷ 98 ∷ []) (slash ∷ 97 ∷ 98 ∷ []))
      × (◌≡◌ {A = List ℕ} (slash ∷ []) (dot ∷ [])))
    ⊎ ((◌≡◌ {A = List ℕ} (slash ∷ 97 ∷ 98 ∷ []) (slash ∷ 97 ∷ 98 ∷ []))
        × (has slash (97 ∷ 98 ∷ []) ≡ false)
        × (◌≡◌ {A = List ℕ} (slash ∷ []) (slash ∷ [])))
unfolding separate_parent_name name_and_parent strrchr2 strrchr2_from
separate_parent_name_shallow_example =
    separate_parent_name_shallow (slash ∷ 97 ∷ 98 ∷ []) (97 ∷ 98 ∷ []) (slash ∷ []) refl

-- The path /a/b.
deep_path : separate_parent_name (slash ∷ 97 ∷ slash ∷ 98 ∷ []) ≡ error error_invalid
unfolding separate_parent_name name_and_parent strrchr2 strrchr2_from
deep_path = refl

-- The node 1 is a in the root 0, and the node 2 is b in 1.
abbrev tree : Nodes
tree = record {
  kind = λ n. if n == 2 then vnt_reg else vnt_dir;
  name = λ n. if n == 1 then 97 ∷ [] else (if n == 2 then 98 ∷ [] else []);
  parent = λ n. none;
  link_target = λ n. none;
  child_list = λ n. if n == 0 then 1 ∷ [] else (if n == 1 then 2 ∷ [] else []);
  in_memory = λ n. true;
  per_process = λ n. false;
}

abbrev fs_find : ℕ → List ℕ → Nodes → Result ℕ × Nodes
fs_find at name nodes = (error error_no_entry, nodes)

abbrev read_link : ℕ → Nodes → Result (List ℕ)
read_link n nodes = error error_invalid

abbrev link_getter : ℕ → Nodes → Option ℕ
link_getter n nodes = none

a-IsName : IsName (97 ∷ [])
a-IsName = record {
  some_bytes = omega arith;
  short = omega arith;
  no_slash = refl;
  no_zero = refl;
  not_here = refl;
  not_up = refl;
}

-- The path a/b leads to a.
find_first_example :
    find fs_find read_link link_getter blank (some 0) none 2 none (97 ∷ slash ∷ 98 ∷ []) false tree
    ≡ ok (value (some 1), tree)
unfolding is_dir is_link is_mount lookup_child first_named skip_slashes
find_first_example =
    find_first fs_find read_link link_getter (some 0) none 1 0 1 98 none (97 ∷ []) (98 ∷ []) []
      false tree refl a-IsName refl refl refl refl refl
