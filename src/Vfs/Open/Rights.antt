-- ===== src/Vfs/Open/Rights.antt =====
-- What an open file may be used for.
use Prim.Native.Nat.{bit_or}
use project_dionysus.Base.{
  ℕ, ◌/◌, ◌%◌, ◌^◌, ◌≡◌, ◌≢◌, ◌⊎◌, inl, inr, refl, ap, sym, ◌∙◌, subst, ◌<◌, Bool, true, false,
  ◌||◌, Option, none, some, ErrorCode, error_invalid, error_access, Result, error, ◌==◌,
  if◌then◌else◌, arith, Bool-cases, Option-cases,
}
use project_dionysus.Base.Bits.{bit_and-mask}
use project_dionysus.Vfs.Access.{User, Permissions, access_node, has_bit}
use project_dionysus.Vfs.Access.Classes.{permits, access_node_owner}
use project_dionysus.Vfs.Find.{is_dir, is_mount}
use project_dionysus.Vfs.Open.{
  FileObject, Files, access_mode, get_open_mode, open_flags, other_options, finish_open,
  open_as_file, open_vnode, increase_open_count, read, write, transfer_by,
}

access_mode-remainder : (opt : ℕ) → access_mode opt ≡ opt % 4
unfolding access_mode
access_mode-remainder opt = bit_and-mask 2 opt

abbrev flags_of : ℕ → Bool → ℕ
flags_of m close =
    let flags = if m == 0 then 2 else (if m == 1 then 1 else (if m == 2 then 3 else 0)) in
    if close then bit_or flags 128 else flags

abbrev HasRights : ℕ → ℕ → Type 0
HasRights m flags =
    (has_bit flags 1 ≡ ((m == 1) || (m == 2)))
    × (has_bit flags 2 ≡ ((m == 0) || (m == 2)))
    × (has_bit flags 4 ≡ false)

four_modes : (P : ℕ → Type 0) (m : ℕ) → m < 4 → P 0 → P 1 → P 2 → P 3 → P m
four_modes P m lt a b c d = elim (split m lt) [
  | inl e ↦ subst P (sym e) a
  | inr (inl e) ↦ subst P (sym e) b
  | inr (inr (inl e)) ↦ subst P (sym e) c
  | inr (inr (inr e)) ↦ subst P (sym e) d
]
  where
    split : (m : ℕ) → m < 4 → (m ≡ 0) ⊎ ((m ≡ 1) ⊎ ((m ≡ 2) ⊎ (m ≡ 3)))
    split m lt = omega arith

flags_of-HasRights : (m : ℕ) (close : Bool) → m < 4 → HasRights m (flags_of m close)
unfolding has_bit
flags_of-HasRights m true lt =
    four_modes (λ k. HasRights k (flags_of k true)) m lt (refl, refl, refl) (refl, refl, refl)
      (refl, refl, refl) (refl, refl, refl)
flags_of-HasRights m false lt =
    four_modes (λ k. HasRights k (flags_of k false)) m lt (refl, refl, refl) (refl, refl, refl)
      (refl, refl, refl) (refl, refl, refl)

-- The rights in the flags are those of the access mode, and the file is no directory.
open_flags-HasRights : (opt : ℕ) → HasRights (opt % 4) (open_flags opt)
unfolding open_flags
open_flags-HasRights opt =
    rw (access_mode-remainder opt)
      (flags_of-HasRights (opt % 4) (has_bit opt (2 ^ 19)) (omega arith))

module _ {D : Type 0} (truncate : ℕ → ℕ → D → Option ErrorCode × D)
    (open_node : ℕ → ℕ → ℕ → D → Option ErrorCode × ℕ × D)
    (open_node_directory : ℕ → ℕ → D → Option ErrorCode × ℕ × D)
    (transfer device_transfer : Bool → ℕ → ℕ → ℕ → D → Result ℕ × ℕ × D) where
  finish_open_flags :
      (fd fd' : FileObject) (n opt : ℕ) (s s' : Files D)
      → finish_open truncate open_node open_node_directory transfer device_transfer fd n opt s
        ≡ (none, fd', s')
      → (fd'.flags ≡ open_flags opt) × (fd'.vnode ≡ some n)
  unfolding finish_open
  finish_open_flags fd fd' n opt s s' h = elim (Bool-cases (other_options opt)) [
    | inl bad ↦ absurd (ground (arith, bad))
    | inr fine ↦ elim (Option-cases (open_node n opt 0 s.device).0) [
      | inl e ↦
          let same_fd : record {
            flags = open_flags opt;
            pos = (open_node n opt 0 s.device).1;
            vnode = some n;
          }
              ≡ fd' =
            ap (λ (r : Option ErrorCode × FileObject × Files D). r.1) (rw (fine, e) at h) in
          (
            ap (λ (f : FileObject). f.flags) (sym same_fd),
            ap (λ (f : FileObject). f.vnode) (sym same_fd),
          )
      | inr (c, e) ↦ absurd (ground (arith, fine, e))
    ]
  ]

  open_as_file_flags :
      (this : User) (fd fd' : FileObject) (n opt : ℕ) (s s' : Files D)
      → open_as_file truncate open_node open_node_directory transfer device_transfer this fd n opt s
        ≡ (none, fd', s')
      → (access_node this (s.node n).permissions (get_open_mode opt) ≡ none)
        × (fd'.flags ≡ open_flags opt)
        × (fd'.vnode ≡ some n)
  unfolding open_as_file
  open_as_file_flags this fd fd' n opt s s' h =
      elim (Bool-cases (is_dir (s.node n).kind || is_mount (s.node n).kind)) [
        | inl bad ↦ absurd (ground (arith, bad))
        | inr fine ↦
            elim (Option-cases (access_node this (s.node n).permissions (get_open_mode opt))) [
              | inr (c, denied) ↦ absurd (ground (arith, fine, denied))
              | inl granted ↦ elim (Bool-cases (has_bit opt (2 ^ 9))) [
                | inr kept ↦
                    let (f, v) =
                      finish_open_flags fd fd' n opt s s' (rw (fine, granted, kept) at h) in
                    (granted, f, v)
                | inl cut ↦ elim (Option-cases (truncate n 0 s.device).0) [
                  | inr (c, failed) ↦ absurd (ground (arith, fine, granted, cut, failed))
                  | inl e ↦
                      let (f, v) =
                        finish_open_flags fd fd' n opt
                          record s { device = (truncate n 0 s.device).1 } s'
                          (rw (fine, granted, cut, e) at h) in
                      (granted, f, v)
                ]
              ]
            ]
      ]

  write_with :
      (may : Bool) (fd : FileObject) (n count : ℕ) (t : Files D)
      → has_bit fd.flags 1 ≡ may
      → has_bit fd.flags 4 ≡ false
      → fd.vnode ≡ some n
      → write truncate open_node open_node_directory transfer device_transfer true fd count t ≡ (
          if may
          then transfer_by truncate open_node open_node_directory transfer device_transfer true fd n
              count t
          else (error error_access, fd, t))
  unfolding write
  write_with true fd n count t e f v = simp (e, f, v) refl
  write_with false fd n count t e f v = rw e refl

  read_with :
      (may : Bool) (fd : FileObject) (n count : ℕ) (t : Files D)
      → has_bit fd.flags 2 ≡ may
      → read truncate open_node open_node_directory transfer device_transfer true fd n count t ≡ (
          if may
          then transfer_by truncate open_node open_node_directory transfer device_transfer false fd
              n count t
          else (error error_invalid, fd, t))
  unfolding read
  read_with true fd n count t e = rw e refl
  read_with false fd n count t e = rw e refl

  -- A file opened with success, and not as a directory, passed the check of the permissions for
  -- its access mode; with a buffer, writing it goes to the node when the mode is to write or
  -- both and is refused otherwise, and reading it goes to the node when the mode is to read or
  -- both and is refused otherwise.
  pub open_vnode-rights :
      (this : User) (fd fd' : FileObject) (n opt : ℕ) (s s' : Files D)
      → has_bit opt (2 ^ 16) ≡ false
      → open_vnode truncate open_node open_node_directory transfer device_transfer this
          (some fd)
          (some n)
          opt
          s
        ≡ (none, some fd', s')
      → (access_node this (s.node n).permissions (get_open_mode opt) ≡ none)
        × ((count : ℕ) (t : Files D)
            → write truncate open_node open_node_directory transfer device_transfer true fd' count t
              ≡ (if (opt % 4 == 1) || (opt % 4 == 2)
                  then transfer_by truncate open_node open_node_directory transfer device_transfer
                      true fd' n count t
                  else (error error_access, fd', t)))
        × ((count : ℕ) (t : Files D)
            → read truncate open_node open_node_directory transfer device_transfer true fd' n count
                t
              ≡ (if (opt % 4 == 0) || (opt % 4 == 2)
                  then transfer_by truncate open_node open_node_directory transfer device_transfer
                      false fd' n count t
                  else (error error_invalid, fd', t)))
  unfolding open_vnode
  open_vnode-rights this fd fd' n opt s s' no_directory h =
      let opened =
        open_as_file truncate open_node open_node_directory transfer device_transfer this fd n opt
          s in
      let step : ◌≡◌ {A = Option ErrorCode × Option FileObject × Files D}
          (opened.0, some opened.1, opened.2) (none, some fd', s') =
        rw no_directory at h in
      let whole : opened ≡ (none, fd', s') = cc in
      let (granted, f, v) = open_as_file_flags this fd fd' n opt s s' whole in
      let (w, r, no_dir) = open_flags-HasRights opt in
      (
        granted,
        λ count t.
            write_with ((opt % 4 == 1) || (opt % 4 == 2)) fd' n count t
              (ap (λ k. has_bit k 1) f ∙ w) (ap (λ k. has_bit k 4) f ∙ no_dir) v,
        λ count t.
            read_with ((opt % 4 == 0) || (opt % 4 == 2)) fd' n count t
              (ap (λ k. has_bit k 2) f ∙ r),
      )

-- The owner's bits decide whether a user other than root may read and may write.
read_granted :
    (this : User) (vn : Permissions)
    → this.uid ≢ 0
    → vn.mode / 64 % 8 / 4 % 2 ≡ 1
    → access_node this vn 4 ≡ none
read_granted this vn user r =
    let allowed : permits (vn.mode / 64 % 8) 4 ≡ true = ground arith in
    access_node_owner this 4 vn user ∙ rw allowed refl

write_denied :
    (this : User) (vn : Permissions)
    → this.uid ≢ 0
    → vn.mode / 64 % 8 / 2 % 2 ≡ 0
    → access_node this vn 2 ≡ some error_access
write_denied this vn user w =
    let denied : permits (vn.mode / 64 % 8) 2 ≡ false = ground arith in
    access_node_owner this 2 vn user ∙ rw denied refl

module _ {D : Type 0} (truncate : ℕ → ℕ → D → Option ErrorCode × D)
    (open_node : ℕ → ℕ → ℕ → D → Option ErrorCode × ℕ × D)
    (open_node_directory : ℕ → ℕ → D → Option ErrorCode × ℕ × D)
    (transfer device_transfer : Bool → ℕ → ℕ → ℕ → D → Result ℕ × ℕ × D) where
  -- For a user other than root, opening a file to read with the option to truncate cuts it to
  -- nothing, when the owner's bits let it be read and not written.
  pub open_vnode_truncates :
      (this : User) (fd : FileObject) (n p : ℕ) (s : Files D) (d1 d2 : D)
      → this.uid ≢ 0
      → (s.node n).permissions.mode / 64 % 8 / 4 % 2 ≡ 1
      → (s.node n).permissions.mode / 64 % 8 / 2 % 2 ≡ 0
      → (is_dir (s.node n).kind || is_mount (s.node n).kind) ≡ false
      → truncate n 0 s.device ≡ (none, d1)
      → open_node n 512 0 d1 ≡ (none, p, d2)
      → (access_node this (s.node n).permissions 2 ≡ some error_access)
        × (open_vnode truncate open_node open_node_directory transfer device_transfer this
              (some fd)
              (some n)
              512
              s
            ≡ (
              none,
              some record { flags = 2; pos = p; vnode = some n },
              increase_open_count n record s { device = d2 },
            ))
  unfolding open_vnode open_as_file finish_open get_open_mode access_mode has_bit open_flags
      other_options
  open_vnode_truncates this fd n p s d1 d2 user r w file cut opened =
      let granted = read_granted this (s.node n).permissions user r in
      (
        write_denied this (s.node n).permissions user w,
        rw (file, granted, cut, cut, opened, cut, opened) refl,
      )
