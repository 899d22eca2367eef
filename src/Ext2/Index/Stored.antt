-- ===== src/Ext2/Index/Stored.antt =====
-- What setting a block number leaves in the inode and on the device.
use project_dionysus.Base.{
  ℕ, ◌+◌, ◌-◌, ◌/◌, ◌≡◌, subst, refl, sym, ap, ◌∙◌, true, false, Option, none, some, ErrorCode,
  Result, value, error, ◌==◌, ltb, inl, inr, Result-cases, arith,
}
use project_dionysus.Ext2.Index.{
  Inode, Addresses, write_at, store_address, inode_set_index, addr_count_per_block,
}

module _ {D : Type 0} (read : ℕ → D → Result Addresses)
    (write : ℕ → Addresses → D → Option ErrorCode × D) (alloc : D → Result ℕ × D) where
  -- What a write that succeeds puts on the device is read again.
  abbrev pub IsKept : Type 0
  IsKept =
      (block : ℕ) (a : Addresses) (d : D)
      → (write block a d).0 ≡ none
      → read block (write block a d).1 ≡ value a

  -- The block holds the number, and its other numbers as they were.
  pub record Holds (block i v : ℕ) (before after : D) : Type 0 where
    pub old : Addresses
    pub found : read block before ≡ value old
    pub stored : read block after ≡ value (write_at i v old)

  store_found :
      (block i v : ℕ) (d : D) (a : Addresses)
      → read block d ≡ value a
      → store_address read write alloc block i v d ≡ write block (write_at i v a) d
  unfolding store_address
  store_found block i v d a e = rw (store_address, e) refl

  store_failed :
      (block i v : ℕ) (d : D) (c : ErrorCode)
      → read block d ≡ error c
      → store_address read write alloc block i v d ≡ (some c, d)
  unfolding store_address
  store_failed block i v d c e = rw (store_address, e) refl

  store_address-Holds :
      (kept : IsKept) (block i v : ℕ) (d : D)
      → (store_address read write alloc block i v d).0 ≡ none
      → Holds block i v d (store_address read write alloc block i v d).1
  store_address-Holds kept block i v d h = elim (Result-cases (read block d)) [
    | inl (a, e) ↦
        let eq = store_found block i v d a e in
        record {
          old = a;
          found = e;
          stored =
              ap (λ (r : Option ErrorCode × D). read block r.1) eq
              ∙ kept block (write_at i v a) d (ap (λ (r : Option ErrorCode × D). r.0) (sym eq) ∙ h);
        }
    | inr (c, e) ↦
        let bad : some c ≡ none =
          ap (λ (r : Option ErrorCode × D). r.0) (sym (store_failed block i v d c e)) ∙ h in
        absurd (ground arith)
  ]

  -- When what a successful write puts on the device is read again, setting with success a block
  -- number behind the direct ones, and within the indirect block of an inode that has one,
  -- leaves the inode as it was, and the indirect block with the number at its place and all
  -- others as they were read.
  pub inode_set_index-Holds :
      (kept : IsKept) (block_size : ℕ) (inode : Inode) (index v : ℕ) (d : D)
      → ltb index 12 ≡ false
      → ltb index (12 + block_size / 4) ≡ true
      → (inode.indirect_block_l1 == 0) ≡ false
      → (inode_set_index read write alloc (some block_size) inode index v d).0 ≡ none
      → ((inode_set_index read write alloc (some block_size) inode index v d).1 ≡ inode)
        × Holds inode.indirect_block_l1
            (index - 12)
            v
            d
            (inode_set_index read write alloc (some block_size) inode index v d).2
  unfolding inode_set_index addr_count_per_block
  inode_set_index-Holds kept block_size inode index v d a b c h =
      let eq : inode_set_index read write alloc (some block_size) inode index v d ≡ (
        (store_address read write alloc inode.indirect_block_l1 (index - 12) v d).0,
        inode,
        (store_address read write alloc inode.indirect_block_l1 (index - 12) v d).1,
      ) =
        rw (a, b, c) refl in
      (
        ap (λ (r : Option ErrorCode × Inode × D). r.1) eq,
        subst (Holds inode.indirect_block_l1 (index - 12) v d)
            (ap (λ (r : Option ErrorCode × Inode × D). r.2) (sym eq))
            (store_address-Holds kept inode.indirect_block_l1 (index - 12) v d
              (ap (λ (r : Option ErrorCode × Inode × D). r.0) (sym eq) ∙ h)),
      )
