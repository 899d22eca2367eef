-- ===== src/Vfs/Path/Element.antt =====
-- The first element of a path of several, in memory that is zero.
use project_dionysus.Base.{
  ℕ, zero, suc, ◌+◌, ◌<◌, ◌≡◌, refl, ap, ◌∙◌, fun_ext, false, List, [], ◌∷◌, ◌++◌, some, ◌==◌, ltb,
  if◌then◌else◌, length, has, arith,
}
use project_dionysus.Ext2.Bytes.{Bytes}
use project_dionysus.Vfs.Path.{
  slash, strchr, drop, byte_of, strncpy, skip_slashes, next_path_element, c_string,
}

abbrev pub blank : Bytes
blank i = 0

strchr-append :
    (name rest : List ℕ)
    → has slash name ≡ false
    → strchr slash (name ++ slash ∷ rest) ≡ some (length name)
unfolding strchr
strchr-append [] rest h = refl
strchr-append (x ∷ name) rest h = ground (arith, strchr-append name rest)

drop-append : (name rest : List ℕ) → drop (length name) (name ++ rest) ≡ rest
drop-append [] rest = refl
drop-append (x ∷ name) rest = drop-append name rest

byte_of-append :
    (name rest : List ℕ) (i : ℕ)
    → (if ltb i (length name) then byte_of (name ++ rest) i else 0) ≡ byte_of name i
byte_of-append [] rest zero = refl
byte_of-append [] rest (suc i) = ground arith
byte_of-append (x ∷ name) rest zero = ground arith
byte_of-append (x ∷ name) rest (suc i) = ground (arith, byte_of-append name rest i)

-- The element is copied, and the path behind the slashes is left.
pub next_path_element-append :
    (name rest : List ℕ) (c : ℕ) (tail : List ℕ)
    → has slash name ≡ false
    → skip_slashes rest ≡ c ∷ tail
    → next_path_element (name ++ slash ∷ rest) blank ≡ (byte_of name, some (c ∷ tail))
unfolding next_path_element strncpy skip_slashes
next_path_element-append name rest c tail h e =
    let bytes : (λ (i : ℕ). if ltb i (length name) then byte_of (name ++ slash ∷ rest) i else 0)
        ≡ byte_of name =
      fun_ext λ i. byte_of-append name (slash ∷ rest) i in
    let more : (suc (length tail) == 0) ≡ false = ground arith in
    rw (next_path_element, strchr-append name rest h, drop-append name (slash ∷ rest), e, more)
      (ap (λ (b : Bytes). (b, some (c ∷ tail))) bytes)

c_string-from :
    (name : List ℕ) (n : ℕ) (s : Bytes) (at : ℕ)
    → ((i : ℕ) → s (at + i) ≡ byte_of name i)
    → has 0 name ≡ false
    → length name < n
    → c_string n s at ≡ name
unfolding c_string
c_string-from name zero s at same h lt = absurd (omega arith)
c_string-from [] (suc n) s at same h lt =
    let stop : s at ≡ 0 = ap s (omega arith) ∙ same 0 in rw stop refl
c_string-from (x ∷ name) (suc n) s at same h lt =
    let first : s at ≡ x = ap s (omega arith) ∙ same 0 in
    let more : (x == 0) ≡ false = ground arith in
    let later =
      c_string-from name n s (suc at) (λ i. ap s (omega arith) ∙ same (suc i)) (ground arith)
        (omega arith) in
    rw (first, more, later) refl

-- Reading the text back.
pub c_string-byte_of :
    (name : List ℕ) (n : ℕ)
    → has 0 name ≡ false
    → length name < n
    → c_string n (byte_of name) 0 ≡ name
c_string-byte_of name n h lt =
    c_string-from name n (byte_of name) 0 (λ i. ap (byte_of name) (omega arith)) h lt
