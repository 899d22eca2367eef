-- ===== src/Vfs/Path/Parent.antt =====
-- Which paths have a parent.
use project_dionysus.Base.{
  ℕ, suc, ◌+◌, ◌≤◌, ◌<◌, ◌≡◌, ◌≢◌, refl, sym, ◌∙◌, ◌⊎◌, inl, inr, true, false, ◌||◌, List, [], ◌∷◌,
  Option, none, some, Result, value, error, error_invalid, ◌==◌, ltb, leb, if◌then◌else◌, length,
  has, arith, Bool-cases, same,
}
use project_dionysus.Vfs.Path.{
  slash, dot, strrchr2_from, strrchr2, name_and_parent, separate_parent_name,
}

strrchr2_from-last :
    (c : ℕ) (s : List ℕ) (at : ℕ) (last : Option ℕ)
    → has c s ≡ false
    → strrchr2_from c s at last ≡ last
unfolding strrchr2_from
strrchr2_from-last c [] at last h = refl
strrchr2_from-last c (x ∷ s) at last h = ground (arith, strrchr2_from-last c s (suc at) last)

strrchr2_from-found :
    (c : ℕ) (s : List ℕ) (at : ℕ) (last : Option ℕ)
    → has c s ≡ true
    → (k : ℕ) × (strrchr2_from c s at last ≡ some k) × (at ≤ k) × (k < at + length s)
unfolding strrchr2_from
strrchr2_from-found c [] at last h = absurd (ground arith)
strrchr2_from-found c (x ∷ s) at last h =
    let next : Option ℕ = if c == x then some at else last in
    elim (Bool-cases (has c s)) [
      | inl more ↦
          let (k, e, low, high) = strrchr2_from-found c s (suc at) next more in
          (k, e, omega (arith, low), omega (arith, high))
      | inr no_more ↦
          let here : (c == x) ≡ true = ground arith in
          (
            at,
            strrchr2_from-last c s (suc at) next no_more ∙ rw here refl,
            omega arith,
            omega arith,
          )
    ]

deep :
    (full name path : List ℕ) (k : ℕ)
    → 1 ≤ k
    → k < 256
    → name_and_parent full (some k) ≢ value (name, path)
unfolding name_and_parent
deep full name path k low high h =
    let a : (k == 0) ≡ false = ground arith in
    let b : ltb k 256 ≡ true = ground arith in absurd (ground (arith, a, b))

no_slash :
    (full name path : List ℕ)
    → name_and_parent full none ≡ value (name, path)
    → (name ≡ full) × (path ≡ dot ∷ [])
unfolding name_and_parent
no_slash full name path h = (cc, cc)

first_slash :
    (x : ℕ) (s name path : List ℕ)
    → name_and_parent (x ∷ s) (some 0) ≡ value (name, path)
    → (s ≡ name) × (path ≡ slash ∷ [])
unfolding name_and_parent
first_slash x s name path h = (cc, cc)

-- Only a path with no slash, or with a slash at its beginning alone, is separated into a parent
-- and a name: the name is the path behind the slash, and the parent is the current directory or
-- the root.
pub separate_parent_name_shallow :
    (full_path name path : List ℕ)
    → separate_parent_name full_path ≡ value (name, path)
    → ((has slash full_path ≡ false) × (name ≡ full_path) × (path ≡ dot ∷ []))
      ⊎ ((full_path ≡ slash ∷ name) × (has slash name ≡ false) × (path ≡ slash ∷ []))
unfolding separate_parent_name strrchr2 strrchr2_from
separate_parent_name_shallow [] name path h = absurd (ground arith)
separate_parent_name_shallow (x ∷ s) name path h =
    elim (Bool-cases (leb 256 (suc (length s)) || leb (suc (length s)) 0)) [
      | inl bad ↦
          let failed : ◌≡◌ {A = Result (List ℕ × List ℕ)} (error error_invalid)
              (value (name, path)) =
            rw bad at h in
          absurd (ground arith)
      | inr fine ↦
          let first : Option ℕ = if slash == x then some 0 else none in
          let parted : name_and_parent (x ∷ s) (strrchr2_from slash s 1 first)
              ≡ value (name, path) =
            rw fine at h in
          elim (Bool-cases (has slash s)) [
            | inl more ↦
                let (k, e, low, high) = strrchr2_from-found slash s 1 first more in
                absurd (deep (x ∷ s) name path k low (ground arith) (rw e at parted))
            | inr no_more ↦
                let e = strrchr2_from-last slash s 1 first no_more in
                let last : name_and_parent (x ∷ s) first ≡ value (name, path) = rw e at parted in
                elim (Bool-cases (slash == x)) [
                  | inl here ↦
                      let (n, p) = first_slash x s name path (rw here at last) in
                      inr (rw (sym (same slash x here), n) refl, rw (sym n) no_more, p)
                  | inr nowhere ↦
                      let (n, p) = no_slash (x ∷ s) name path (rw nowhere at last) in
                      inl (rw (nowhere, no_more) refl, n, p)
                ]
          ]
    ]
