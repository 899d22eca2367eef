-- ===== src/Buddy/Setup.antt =====
-- Where setup_for_base puts the blocks of a zone.
use project_dionysus.Base.{
  ℕ, zero, suc, ◌+◌, ◌-◌, ◌^◌, ◌≤◌, ◌<◌, ◌≡◌, refl, sym, subst, Bool, true, false, ◌||◌, List, [],
  ◌∷◌, ok, ◌==◌, arith, ==_refl, for_update,
}
use project_dionysus.Buddy.{Provider, update, push_block, setup_blocks, setup_for_base, claim_page}

abbrev pub listed : ℕ → List ℕ → Bool
listed p [] = false
listed p (x ∷ xs) = (p == x) || listed p xs

push_block_keeps :
    (q o p order : ℕ) (s : Provider)
    → listed q (s.freelist o) ≡ true
    → listed q ((push_block p order s).freelist o) ≡ true
unfolding push_block
push_block_keeps q o p order s h = ground (arith, h)

setup_blocks_keep :
    (fuel q o order p n : ℕ) (s : Provider)
    → listed q (s.freelist o) ≡ true
    → listed q ((setup_blocks fuel order p n s).freelist o) ≡ true
unfolding setup_blocks
setup_blocks_keep zero q o order p n s h = h
setup_blocks_keep (suc fuel) q o order p n s h = ground (
  arith,
  setup_blocks_keep fuel q o order (p - 2 ^ order) (n - 2 ^ order) (push_block p order s)
      (push_block_keeps q o p order s h),
  setup_blocks_keep fuel q o (order - 1) p n s h,
)

pushed : (x : ℕ) (y : Provider) → listed x ((push_block x 12 y).freelist 12) ≡ true
unfolding push_block
pushed x y = rw (==_refl x) refl

setup_blocks_first :
    (fuel p n : ℕ) (s : Provider)
    → 4096 ≤ n
    → listed p ((setup_blocks (suc fuel) 12 p n s).freelist 12) ≡ true
unfolding setup_blocks
setup_blocks_first fuel p n s h = ground (
  arith,
  setup_blocks_keep fuel p 12 12 (p - 2 ^ 12) (n - 2 ^ 12) (push_block p 12 s) (pushed p s),
)

-- Pages that are reserved can all be claimed.
claim_pages :
    (n base : ℕ) (s : Provider)
    → ((j : ℕ) → base ≤ j → j < base + n → (s.pages j).reserved ≡ true)
    → (s' : Provider) × (for_update n base claim_page s ≡ ok s')
unfolding for_update claim_page
claim_pages zero base s h = (s, refl)
claim_pages (suc n) base s h =
    let s1 = record s {
      pages =
          update s.pages base
            (record { reserved = false; head = false; order = 0; ref = 0; zone_id = s.zone_count });
    } in
    let first = h base (omega arith) (omega arith) in
    let (s2, run) =
      claim_pages n (base + 1) s1 (λ j lo hi. ground (arith, h j (omega arith) (omega arith))) in
    (s2, rw first run)

-- Setting up a zone of at least 4096 reserved pages, with a zone left, succeeds, and makes the
-- last page of the zone the head of a free block of 4096 pages, which reaches past its end.
pub setup_for_base_overhang :
    (base n : ℕ) (s : Provider)
    → s.zone_count < 8
    → 4096 ≤ n
    → ((j : ℕ) → base ≤ j → j < base + n → (s.pages j).reserved ≡ true)
    → (s' : Provider) × (setup_for_base base n s ≡ ok s')
      × (listed (base + (n - 1)) (s'.freelist 12) ≡ true)
unfolding setup_for_base
setup_for_base_overhang base n s room le h =
    let (s1, run) = claim_pages n base s h in
    let e : n + 12 ≡ suc (n + 11) = omega arith in
    let s2 = record s1 {
      zones = update s1.zones s1.zone_count base;
      zone_count = s1.zone_count + 1;
    } in
    let first = setup_blocks_first (n + 11) (base + (n - 1)) n s2 le in
    (
      setup_blocks (n + 12) 12 (base + (n - 1)) n s2,
      ground (arith, run),
      subst
          (λ f.
            listed (base + (n - 1)) ((setup_blocks f 12 (base + (n - 1)) n s2).freelist 12) ≡ true)
          (sym e) first,
    )
