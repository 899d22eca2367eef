-- ===== src/Vfs/Access/Classes.antt =====
-- Which permissions a user needs, and whose are looked at.
use Prim.Native.Nat.{bit_and}
use native.Mathlib.Nat.{one-le-pow}
use project_dionysus.Base.{
  ℕ, ◌+◌, ◌*◌, ◌/◌, ◌%◌, ◌^◌, ◌<◌, ◌≡◌, ◌≢◌, refl, ◌∙◌, ◌⊎◌, inl, inr, Bool, true, false, not, ◌&&◌,
  none, some, error_access, ◌==◌, leb, if◌then◌else◌, arith, Bool-cases,
}
use project_dionysus.Base.Bits.{bit_and_split, bit_and-zero, bit_and-mask}
use project_dionysus.Vfs.Access.{has_bit, check_class, User, access_check, Permissions, access_node}

-- What is asked for by three bits is among three bits of permissions: read, write and execute.
abbrev pub permits : ℕ → ℕ → Bool
permits p desm =
    leb (desm / 4 % 2) (p / 4 % 2) && (leb (desm / 2 % 2) (p / 2 % 2) && leb (desm % 2) (p % 2))

-- The three bits of the class that a user belongs to: the owner, the group, or the others.
abbrev pub class_of : User → Permissions → ℕ
class_of this vn =
    if vn.uid == this.uid
    then vn.mode / 64 % 8
    else (if vn.gid == this.gid then vn.mode / 8 % 8 else vn.mode % 8)

bit_and-pow : (k x : ℕ) → bit_and x (2 ^ k) ≡ x / 2 ^ k % 2 * 2 ^ k
bit_and-pow k x = ground (
  arith,
  one-le-pow k 2,
  bit_and_split k (x / 2 ^ k) (x % 2 ^ k) 1 0,
  bit_and-zero (x % 2 ^ k),
  bit_and-mask 1 (x / 2 ^ k),
)

scaled_bit : (b p : ℕ) → b < 2 → 0 < p → not (b * p == 0) ≡ (b == 1)
scaled_bit b p small some_p = elim (zero_or_one b small) [
  | inl e ↦ rw e (ground arith)
  | inr e ↦ rw e (ground arith)
]
  where
    zero_or_one : (b : ℕ) → b < 2 → (b ≡ 0) ⊎ (b ≡ 1)
    zero_or_one b h = omega arith

has_bit-digit : (k x : ℕ) → has_bit x (2 ^ k) ≡ (x / 2 ^ k % 2 == 1)
unfolding has_bit
has_bit-digit k x =
    let p : 0 < 2 ^ k = omega (arith, one-le-pow k 2) in
    rw (bit_and-pow k x) (scaled_bit (x / 2 ^ k % 2) (2 ^ k) (omega arith) p)

lacks : (a p : ℕ) → a < 2 → p < 2 → ((a == 1) && not (p == 1)) ≡ not (leb a p)
lacks a p s t = ground arith

one_of_three :
    {A : Type 0} (x y z : Bool) (bad good : A)
    → (if not x then bad else (if not y then bad else (if not z then bad else good)))
      ≡ (if x && (y && z) then good else bad)
one_of_three true true true bad good = refl
one_of_three true true false bad good = refl
one_of_three true false z bad good = refl
one_of_three false y z bad good = refl

check_class-permits :
    (desm mode p k : ℕ)
    → mode / 2 ^ (k + 2) % 2 ≡ p / 4 % 2
    → mode / 2 ^ (k + 1) % 2 ≡ p / 2 % 2
    → mode / 2 ^ k % 2 ≡ p % 2
    → check_class desm mode (2 ^ (k + 2)) (2 ^ (k + 1)) (2 ^ k)
      ≡ (if permits p desm then none else some error_access)
unfolding check_class
check_class-permits desm mode p k r w x =
    let whole : desm / 1 % 2 ≡ desm % 2 = omega arith in
    rw
      (
        has_bit-digit 2 desm,
        has_bit-digit 1 desm,
        has_bit-digit 0 desm,
        has_bit-digit (k + 2) mode,
        has_bit-digit (k + 1) mode,
        has_bit-digit k mode,
        r,
        w,
        x,
        whole,
        lacks (desm / 4 % 2) (p / 4 % 2) (omega arith) (omega arith),
        lacks (desm / 2 % 2) (p / 2 % 2) (omega arith) (omega arith),
        lacks (desm % 2) (p % 2) (omega arith) (omega arith),
      )
      (one_of_three (leb (desm / 4 % 2) (p / 4 % 2)) (leb (desm / 2 % 2) (p / 2 % 2))
        (leb (desm % 2) (p % 2)) (some error_access) none)

-- For a user other than root, the check of an access by bit tests gives success exactly when
-- each of the three bits asked for is a bit of the class of the user, the owner, the group or
-- the others.
pub access_check-permits :
    (this : User) (desm : ℕ) (vn : Permissions)
    → this.uid ≢ 0
    → access_check this desm vn.mode vn.uid vn.gid
      ≡ (if permits (class_of this vn) desm then none else some error_access)
unfolding access_check
access_check-permits this desm vn user =
    let ordinary : (this.uid == 0) ≡ false = ground arith in
    rw ordinary (elim (Bool-cases (vn.uid == this.uid)) [
      | inl e ↦ rw e (
          check_class-permits desm vn.mode (vn.mode / 64 % 8) 6 (omega arith) (omega arith)
            (omega arith))
      | inr n ↦ rw n (elim (Bool-cases (vn.gid == this.gid)) [
        | inl e ↦ rw e (
            check_class-permits desm vn.mode (vn.mode / 8 % 8) 3 (omega arith) (omega arith)
              (omega arith))
        | inr m ↦ rw m (
            check_class-permits desm vn.mode (vn.mode % 8) 0 (omega arith) (omega arith)
              (omega arith))
      ])
    ])

-- For a user other than root, access_node goes by the owner's bits of a node, whoever its owner
-- is.
pub access_node_owner :
    (this : User) (desm : ℕ) (vn : Permissions)
    → this.uid ≢ 0
    → access_node this vn desm
      ≡ (if permits (vn.mode / 64 % 8) desm then none else some error_access)
unfolding access_node
access_node_owner this desm vn user =
    let owner : Permissions = record { mode = vn.mode; uid = this.uid; gid = this.gid } in
    let same_user : (this.uid == this.uid) ≡ true = ground arith in
    access_check-permits this desm owner user ∙ rw same_user refl
