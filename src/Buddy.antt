-- ===== src/Buddy.antt =====
-- The physical page allocator: kern/memory/pmm/buddy_provider.cc. A page is its index in the
-- array of all pages; a free list is the list of its pages, the newest first. Locks and the
-- check of flags before `free` are the caller's.
pub mod Order
pub mod Count
pub mod Setup
pub mod Fuel
mod Tests
use Prim.Native.Nat.{bit_and, bit_xor}
use project_dionysus.Base.{
  ℕ, zero, suc, ◌+◌, ◌-◌, ◌*◌, ◌/◌, ◌%◌, ◌^◌, ◌≡◌, Bool, true, false, not, ◌&&◌, ◌||◌, List, [],
  ◌∷◌, Option, none, some, Run, ok, fault, assert, ◌>>=◌, ◌>>◌, ltb, leb, ◌==◌, if◌then◌else◌,
  for_update, first_index,
}

abbrev pub max_order : ℕ
max_order = 12

abbrev pub zone_count_max : ℕ
zone_count_max = 8

pub record Page : Type 0 where
  pub reserved : Bool
  pub head : Bool
  pub order : ℕ
  pub ref : ℕ
  pub zone_id : ℕ

-- The state of a buddy_provider, with the pages. `head` is PHYSICAL_PAGE_FLAG_PROPERTY, and
-- `order` the field `property`.
pub record Provider : Type 0 where
  pub pages : ℕ → Page
  pub page_count : ℕ
  pub freelist : ℕ → List ℕ
  pub free_area_count : ℕ → ℕ
  pub zones : ℕ → ℕ
  pub zone_count : ℕ

abbrev pub update {ℓ} : {A : Type ℓ} → (ℕ → A) → ℕ → A → ℕ → A
update f i a j = if i == j then a else f j

-- free_count++ and free_count--, on 64 bits.
abbrev pub increase : ℕ → ℕ
increase c = (c + 1) % 2 ^ 64

abbrev pub decrease : ℕ → ℕ
decrease c = (c + 2 ^ 64 - 1) % 2 ^ 64

-- A block becomes the head of a free list.
unfoldable pub push_block : ℕ → ℕ → Provider → Provider
push_block p order s = record s {
  pages = update s.pages p (record (s.pages p) { head = true; order = order });
  freelist = update s.freelist order (p ∷ s.freelist order);
  free_area_count = update s.free_area_count order (increase (s.free_area_count order));
}

-- The first loop of setup_for_base.
unfoldable pub claim_page : ℕ → Provider → Run Provider
claim_page p s =
    assert (s.pages p).reserved
    >> ok (record s {
      pages =
          update s.pages p
            (record { reserved = false; head = false; order = 0; ref = 0; zone_id = s.zone_count });
    })

-- The second loop, by rounds of either kind: a block is made, or the order goes down.
unfoldable pub setup_blocks : ℕ → ℕ → ℕ → ℕ → Provider → Provider
setup_blocks zero order p n s = s
setup_blocks (suc fuel) order p n s =
    let made = setup_blocks fuel order (p - 2 ^ order) (n - 2 ^ order) (push_block p order s) in
    let lower = setup_blocks fuel (order - 1) p n s in
    if n == 0 then s else if leb (2 ^ order) n then made else lower

unfoldable pub setup_for_base : ℕ → ℕ → Provider → Run Provider
setup_for_base base n s =
    assert (not (n == 0))
    >> assert (ltb s.zone_count zone_count_max)
    >> (for_update n base claim_page s >>= λ s1. ok (
        setup_blocks (n + max_order) max_order (base + (n - 1)) n (record s1 {
          zones = update s1.zones s1.zone_count base;
          zone_count = s1.zone_count + 1;
        })))

abbrev pub is_empty : List ℕ → Bool
is_empty [] = true
is_empty (p ∷ ps) = false

-- The inner loop of do_allocate: halving a block from order `order + n` down to `order`.
unfoldable pub split_block : ℕ → ℕ → ℕ → Provider → Provider
split_block zero order pg s = s
split_block (suc n) order pg s =
    split_block n order pg (push_block (pg + 2 ^ (order + n)) (order + n) s)

unfoldable pub take_block : ℕ → ℕ → ℕ → List ℕ → Provider → ℕ × Provider
take_block order cur pg rest s =
    let s1 = record s {
      free_area_count = update s.free_area_count cur (decrease (s.free_area_count cur));
      freelist = update s.freelist cur rest;
    } in
    let s2 = split_block (cur - order) order pg s1 in
    (pg, record s2 { pages = update s2.pages pg (record (s2.pages pg) { head = false }) })

abbrev pub take_from : ℕ → ℕ → List ℕ → Provider → Option ℕ × Provider
take_from order cur [] s = (none, s)
take_from order cur (pg ∷ rest) s = let (p, s') = take_block order cur pg rest s in (some p, s')

unfoldable pub do_allocate : ℕ → Provider → Run (Option ℕ × Provider)
do_allocate order s =
    assert (leb order max_order)
    >> (elim (first_index (max_order + 1 - order) order (λ o. not (is_empty (s.freelist o)))) [
      | none ↦ ok (none, s)
      | some cur ↦ ok (take_from order cur (s.freelist cur) s)
    ])

-- page_to_index and index_to_page of the provider: within the zone of a page.
unfoldable pub zone_index : Provider → ℕ → ℕ
zone_index s p = p - s.zones (s.pages p).zone_id

unfoldable pub is_buddy_page : ℕ → ℕ → ℕ → Provider → Bool
is_buddy_page p order zone s =
    ltb p s.page_count
    && (s.pages p).zone_id == zone
    && not (s.pages p).reserved
    && (s.pages p).head
    && (s.pages p).order == order

unfoldable pub unlink : ℕ → List ℕ → List ℕ
unlink p [] = []
unlink p (x ∷ xs) = if p == x then xs else x ∷ unlink p xs

-- The first loop of do_free.
unfoldable pub release_page : ℕ → Provider → Run Provider
release_page p s =
    assert (not (s.pages p).reserved)
    >> assert (not (s.pages p).head)
    >> ok (record s {
      pages = update s.pages p (record (s.pages p) { reserved = false; head = false; ref = 0 });
    })

-- The merging loop of do_free, over the orders that are left; then the block is linked.
unfoldable pub merge_block : ℕ → ℕ → ℕ → ℕ → Provider → Provider
merge_block zero zone order index s = push_block (s.zones zone + index) order s
merge_block (suc n) zone order index s =
    let buddy_index = bit_xor index (2 ^ order) in
    let buddy = s.zones zone + buddy_index in
    let merged = merge_block n zone (order + 1) (bit_and index buddy_index) (record s {
      free_area_count = update s.free_area_count order (decrease (s.free_area_count order));
      freelist = update s.freelist order (unlink buddy (s.freelist order));
      pages = update s.pages buddy (record (s.pages buddy) { head = false });
    }) in
    if is_buddy_page buddy order zone s then merged else push_block (s.zones zone + index) order s

unfoldable pub do_free : ℕ → ℕ → Provider → Run Provider
do_free base order s =
    assert (bit_and (zone_index s base) (2 ^ order - 1) == 0)
    >> (for_update (2 ^ order) base release_page s >>= λ s1.
        ok (merge_block (max_order - order) (s1.pages base).zone_id order (zone_index s base) s1))

-- log2 of include/system/types.h, which is 1 at 1, and powerof2_roundup, by the length of a
-- number in bits.
unfoldable pub log2 : ℕ → ℕ → ℕ
log2 zero n = 1
log2 (suc fuel) n = let rest = log2 fuel (n / 2) in if ltb n 2 then 1 else 1 + rest

unfoldable pub bit_length : ℕ → ℕ → ℕ
bit_length zero n = 0
bit_length (suc fuel) n = let rest = bit_length fuel (n / 2) in if n == 0 then 0 else 1 + rest

unfoldable pub powerof2_roundup : ℕ → ℕ
powerof2_roundup x = 2 ^ bit_length 64 x % 2 ^ 64

unfoldable pub get_order : ℕ → ℕ
get_order n = log2 64 (powerof2_roundup n)

-- free: the rising loop, while the pages reach the order, then the falling one.
unfoldable pub free_down : ℕ → ℕ → ℕ → ℕ → Provider → Run Provider
free_down zero order base n s = fault
free_down (suc fuel) order base n s =
    if n == 0
    then ok s
    else if ltb n (2 ^ order)
    then free_down fuel (order - 1) base n s
    else (do_free base order s >>= λ s'. free_down fuel order (base + 2 ^ order) (n - 2 ^ order) s')

unfoldable pub free_up : ℕ → ℕ → ℕ → ℕ → Provider → Run Provider
free_up zero order base n s = fault
free_up (suc fuel) order base n s =
    if leb (2 ^ order) n
    then assert (leb order max_order)
      >> (if bit_and (zone_index s base) (2 ^ order) == 0
          then free_up fuel (order + 1) base n s
          else (do_free base order s >>= λ s'.
              free_up fuel (order + 1) (base + 2 ^ order) (n - 2 ^ order) s'))
    else free_down (n + order + 1) order base n s

unfoldable pub free : ℕ → ℕ → Provider → Run Provider
free base n s =
    assert (not (n == 0))
    >> (if n == 1 then do_free base 0 s else free_up (max_order + 2) 0 base n s)

abbrev pub free_rest : ℕ → ℕ → Option ℕ × Provider → Run (Option ℕ × Provider)
free_rest n size (none, s) = ok (none, s)
free_rest n size (some p, s) =
    if n == size then ok (some p, s) else (free (p + n) (size - n) s >>= λ s'. ok (some p, s'))

unfoldable pub allocate : ℕ → Provider → Run (Option ℕ × Provider)
allocate n s =
    assert (not (n == 0)) >> (do_allocate (get_order n) s >>= λ r. free_rest n (2 ^ get_order n) r)

-- The sum of free_count in pages, over the orders below `n`. Memory has fewer than 2 ^ 64 pages, so that
-- the size_t of the source does not wrap around.
unfoldable pub total : ℕ → (ℕ → ℕ) → ℕ
total zero f = 0
total (suc n) f = total n f + f n * 2 ^ n

unfoldable pub free_count : Provider → ℕ
free_count s = total (max_order + 1) s.free_area_count
