-- ===== src/Vfs/Path.antt =====
-- Paths as text: next_path_element and separate_parent_name of kern/fs/vfs/vfs.cc. A path is the
-- list of its bytes, without the 0 at its end.
pub mod Parent
pub mod Element
use project_dionysus.Base.{
  ℕ, zero, suc, ◌+◌, Bool, true, false, not, ◌||◌, List, [], ◌∷◌, Option, none, some, ErrorCode,
  error_invalid, Result, value, error, ◌==◌, ltb, leb, if◌then◌else◌, length,
}
use project_dionysus.Ext2.Bytes.{Bytes}

-- `/`, `.` and VFS_MAX_PATH_LEN.
abbrev pub slash : ℕ
slash = 47

abbrev pub dot : ℕ
dot = 46

abbrev pub vfs_max_path_len : ℕ
vfs_max_path_len = 256

-- The index of the first occurrence of a byte: strchr.
unfoldable pub strchr : ℕ → List ℕ → Option ℕ
strchr c [] = none
strchr c (x ∷ s) =
    let rest = strchr c s in
    if c == x then some 0 else elim rest [ none ↦ none | some i ↦ some (suc i) ]

-- The loop of strrchr2, with the index of the last occurrence so far: from index `at` on.
unfoldable pub strrchr2_from : ℕ → List ℕ → ℕ → Option ℕ → Option ℕ
strrchr2_from c [] at last = last
strrchr2_from c (x ∷ s) at last = strrchr2_from c s (suc at) (if c == x then some at else last)

unfoldable pub strrchr2 : ℕ → List ℕ → Option ℕ
strrchr2 c s = strrchr2_from c s 0 none

-- The bytes from an index on, and those before it.
abbrev pub drop : ℕ → List ℕ → List ℕ
drop zero s = s
drop (suc n) [] = []
drop (suc n) (x ∷ s) = drop n s

abbrev pub take : ℕ → List ℕ → List ℕ
take zero s = []
take (suc n) [] = []
take (suc n) (x ∷ s) = x ∷ take n s

-- What is returned, the name, and the path of the parent, for the index of the last slash. The
-- name behind a slash is the path from its second byte on.
unfoldable pub name_and_parent : List ℕ → Option ℕ → Result (List ℕ × List ℕ)
name_and_parent full_path none = value (full_path, dot ∷ [])
name_and_parent full_path (some sep) =
    if sep == 0
    then value (drop 1 full_path, slash ∷ [])
    else (if ltb sep vfs_max_path_len
        then error error_invalid
        else value (drop 1 full_path, take sep full_path))

unfoldable pub separate_parent_name : List ℕ → Result (List ℕ × List ℕ)
separate_parent_name full_path =
    if leb vfs_max_path_len (length full_path) || leb (length full_path) 0
    then error error_invalid
    else name_and_parent full_path (strrchr2 slash full_path)

-- strncpy(element, path, n): zeros are put behind a path that is shorter, and none behind one that
-- is not.
abbrev pub byte_of : List ℕ → ℕ → ℕ
byte_of [] i = 0
byte_of (x ∷ s) zero = x
byte_of (x ∷ s) (suc i) = byte_of s i

unfoldable pub strncpy : ℕ → List ℕ → Bytes → Bytes
strncpy n path element i = if ltb i n then byte_of path i else element i

unfoldable pub skip_slashes : List ℕ → List ℕ
skip_slashes [] = []
skip_slashes (x ∷ s) = let rest = skip_slashes s in if slash == x then rest else x ∷ s

-- What the element's buffer holds, and the path behind the element, or none for null.
unfoldable pub next_path_element : List ℕ → Bytes → Bytes × Option (List ℕ)
next_path_element path element = elim (strchr slash path) [
  | none ↦ (strncpy vfs_max_path_len path element, none)
  | some pos ↦
      let rest = skip_slashes (drop pos path) in
      (strncpy pos path element, if length rest == 0 then none else some rest)
]

-- The text in a buffer from an index on, of at most `n` bytes.
unfoldable pub c_string : ℕ → Bytes → ℕ → List ℕ
c_string zero s at = []
c_string (suc n) s at = let rest = c_string n s (suc at) in if s at == 0 then [] else s at ∷ rest
