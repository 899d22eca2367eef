-- ===== src/Vfs/Cwd/Directory.antt =====
-- What the working directory is.
use project_dionysus.Base.{
  ℕ, suc, ◌≡◌, refl, sym, true, false, List, [], ◌∷◌, Option, none, some, Run, ok, err, fault,
  ◌>>=◌, deref, ErrorCode, error_not_dir, Result, value, error, error_invalid, ◌==◌, arith,
  Bool-cases, Option-cases, inl, inr,
}
use project_dionysus.Ext2.Bytes.{Bytes}
use project_dionysus.Vfs.Access.{User, Permissions, access_node}
use project_dionysus.Vfs.Path.{slash}
use project_dionysus.Vfs.Find.{Nodes, is_dir, through_mount, do_find, link_resolve}
use project_dionysus.Vfs.Cwd.{enter, arrive, follow, go_to, set_cwd}

-- A run that the continuation turns into a result with P is a run whose value the continuation
-- turns into one.
bind-Ends :
    {A B : Type 0} (P : B → Type 0) (m : Run A) (f : A → Run B)
    → ((a : A) (b : B) → f a ≡ ok b → P b)
    → (b : B) → (m >>= f) ≡ ok b
    → P b
bind-Ends P (ok a) f ends b h = ends a b h
bind-Ends P (err c) f ends b h = absurd (ground (arith, h))
bind-Ends P fault f ends b h = absurd (ground (arith, h))

-- A directory that the user may search.
abbrev pub MayEnter : User → (ℕ → Permissions) → Nodes → ℕ → Type 0
MayEnter this permissions nodes n =
    (is_dir (nodes.kind n) ≡ true) × (access_node this (permissions n) 1 ≡ none)

-- With success, the working directory is null or one that the user may enter.
abbrev pub Settled : User → (ℕ → Permissions) → Option ErrorCode × Option ℕ × Nodes → Type 0
Settled this permissions r = (n : ℕ) → r.0 ≡ none → r.1 ≡ some n → MayEnter this permissions r.2 n

enter-Settled :
    (this : User) (permissions : ℕ → Permissions) (cwd : Option ℕ) (nodes : Nodes) (dest : ℕ)
    (b : Option ErrorCode × Option ℕ × Nodes)
    → enter this permissions cwd nodes dest ≡ ok b
    → Settled this permissions b
unfolding enter
enter-Settled this permissions cwd nodes dest b h n good at_n =
    elim (Bool-cases (is_dir (nodes.kind dest))) [
      | inr bad ↦
          let same : ◌≡◌ {A = Run (Option ErrorCode × Option ℕ × Nodes)}
              (ok (some error_not_dir, cwd, nodes)) (ok b) =
            rw bad at h in
          absurd (ground (arith, same, good))
      | inl dir ↦ elim (Option-cases (access_node this (permissions dest) 1)) [
        | inr (c, e) ↦
            let same : ◌≡◌ {A = Run (Option ErrorCode × Option ℕ × Nodes)} (ok (some c, cwd, nodes))
                (ok b) =
              rw (dir, e) at h in
            absurd (ground (arith, same, good))
        | inl granted ↦
            let same : ◌≡◌ {A = Run (Option ErrorCode × Option ℕ × Nodes)}
                (ok (none, some dest, nodes)) (ok b) =
              rw (dir, granted) at h in
            let b_is : (none, some dest, nodes) ≡ b = cc in
            let there : dest ≡ n = cc in
            let nodes_same : nodes ≡ b.2 = cc in
            (rw (sym nodes_same, sym there) dir, rw (sym there) granted)
      ]
    ]

arrive-Settled :
    (this : User) (permissions : ℕ → Permissions) (cwd : Option ℕ) (l : Result ℕ × Nodes)
    (b : Option ErrorCode × Option ℕ × Nodes)
    → arrive this permissions cwd l ≡ ok b
    → Settled this permissions b
unfolding arrive
arrive-Settled this permissions cwd (error e, nodes) b h =
    λ n good at_n. absurd (ground (arith, h, good))
arrive-Settled this permissions cwd (value m, nodes) b h =
    bind-Ends (Settled this permissions) (deref (through_mount nodes m))
      (enter this permissions cwd nodes) (enter-Settled this permissions cwd nodes) b h

null-Settled :
    (this : User) (permissions : ℕ → Permissions) (nodes : Nodes)
    (b : Option ErrorCode × Option ℕ × Nodes)
    → ◌≡◌ {A = Run (Option ErrorCode × Option ℕ × Nodes)} (ok (none, none, nodes)) (ok b)
    → Settled this permissions b
null-Settled this permissions nodes b h n good at_n = absurd (ground (arith, h, at_n))

module _ (fs_find : ℕ → List ℕ → Nodes → Result ℕ × Nodes) (read_link : ℕ → Nodes → Result (List ℕ))
    (link_getter : ℕ → Nodes → Option ℕ) (memory : Bytes) (vfs_root cwd_vnode : Option ℕ)
    (this : User) (permissions : ℕ → Permissions) where
  follow-Settled :
      (fuel : ℕ) (r : Result ℕ × Nodes) (b : Option ErrorCode × Option ℕ × Nodes)
      → follow fs_find read_link link_getter memory vfs_root cwd_vnode this permissions fuel r
        ≡ ok b
      → Settled this permissions b
  unfolding follow
  follow-Settled fuel (error e, nodes) b h = λ n good at_n. absurd (ground (arith, h, good))
  follow-Settled fuel (value m, nodes) b h =
      bind-Ends (Settled this permissions)
        (link_resolve fs_find read_link link_getter memory vfs_root cwd_vnode
          (do_find fs_find read_link link_getter memory vfs_root cwd_vnode fuel) m false nodes)
        (arrive this permissions cwd_vnode) (arrive-Settled this permissions cwd_vnode) b h

  go_to-Settled :
      (fuel : ℕ) (path : List ℕ) (nodes : Nodes) (b : Option ErrorCode × Option ℕ × Nodes)
      → go_to fs_find read_link link_getter memory vfs_root cwd_vnode this permissions fuel path
          nodes
        ≡ ok b
      → Settled this permissions b
  unfolding go_to
  go_to-Settled fuel path nodes b h =
      bind-Ends (Settled this permissions)
        (do_find fs_find read_link link_getter memory vfs_root cwd_vnode fuel vfs_root (some path)
          false nodes)
        (follow fs_find read_link link_getter memory vfs_root cwd_vnode this permissions fuel)
        (follow-Settled fuel) b h

  set_cwd-Settled :
      (fuel : ℕ) (path : List ℕ) (nodes : Nodes) (b : Option ErrorCode × Option ℕ × Nodes)
      → set_cwd fs_find read_link link_getter memory vfs_root cwd_vnode this permissions fuel path
          nodes
        ≡ ok b
      → Settled this permissions b
  unfolding set_cwd
  set_cwd-Settled fuel [] nodes b h = go_to-Settled fuel [] nodes b h
  set_cwd-Settled fuel (c ∷ []) nodes b h = elim (Bool-cases (slash == c)) [
    | inr relative ↦ go_to-Settled fuel (c ∷ []) nodes b (rw relative at h)
    | inl top ↦ null-Settled this permissions nodes b (rw top at h)
  ]
  set_cwd-Settled fuel (c ∷ d ∷ path) nodes b h = elim (Bool-cases (slash == c)) [
    | inr relative ↦ go_to-Settled fuel (c ∷ d ∷ path) nodes b (rw relative at h)
    | inl top ↦ elim (Option-cases vfs_root) [
      | inl none_there ↦ null-Settled this permissions nodes b (rw (top, none_there) at h)
      | inr (root, there) ↦ go_to-Settled fuel (c ∷ d ∷ path) nodes b (rw (top, there) at h)
    ]
  ]

  -- A set_cwd that succeeds and leaves a node as the working directory, for any path, whatever
  -- links and mount points it leads through, leaves one that is a directory, and for which
  -- access_node grants X_OK.
  pub set_cwd-MayEnter :
      (fuel : ℕ) (path : List ℕ) (nodes nodes' : Nodes) (n : ℕ)
      → set_cwd fs_find read_link link_getter memory vfs_root cwd_vnode this permissions fuel path
          nodes
        ≡ ok (none, some n, nodes')
      → MayEnter this permissions nodes' n
  set_cwd-MayEnter fuel path nodes nodes' n h =
      set_cwd-Settled fuel path nodes (none, some n, nodes') h n refl refl

-- A path that begins with a slash and goes on is refused by the search, which set_cwd hands it
-- to with the slash.
set_cwd_absolute :
    (fs_find : ℕ → List ℕ → Nodes → Result ℕ × Nodes) (read_link : ℕ → Nodes → Result (List ℕ))
    (link_getter : ℕ → Nodes → Option ℕ) (memory : Bytes) (root : ℕ) (cwd_vnode : Option ℕ)
    (this : User) (permissions : ℕ → Permissions) (fuel d : ℕ) (path : List ℕ) (nodes : Nodes)
    → set_cwd fs_find read_link link_getter memory
        (some root)
        cwd_vnode
        this
        permissions
        (suc fuel)
        (slash ∷ d ∷ path)
        nodes
      ≡ ok (some error_invalid, cwd_vnode, nodes)
unfolding set_cwd go_to do_find follow
set_cwd_absolute fs_find read_link link_getter memory root cwd_vnode this permissions fuel d path
      nodes =
    refl
