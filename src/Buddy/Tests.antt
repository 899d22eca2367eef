-- ===== src/Buddy/Tests.antt =====
-- The page allocator on concrete data: the theorems at inputs that meet their hypotheses.
use project_dionysus.Base.{
  ℕ, ◌+◌, ◌-◌, ◌^◌, ◌≡◌, ◌⊎◌, true, false, not, none, some, ok, arith, ◌==◌, if◌then◌else◌, ◌∷◌, [],
  first_index,
}
use project_dionysus.Buddy.{Page, Provider, do_allocate, free_count, is_empty}
use project_dionysus.Buddy.Count.{IsCounted, do_allocate-free_count}

abbrev reserved_page : Page
reserved_page = record { reserved = true; head = false; order = 0; ref = 0; zone_id = 0 }

abbrev fresh : Provider
fresh = record {
  pages = λ _. reserved_page;
  page_count = 10000;
  freelist = λ _. [];
  free_area_count = λ _. 0;
  zones = λ _. 0;
  zone_count = 0;
}

-- One free block of order 3 at page 16.
abbrev one_block : Provider
one_block = record fresh {
  freelist = λ o. if o == 3 then 16 ∷ [] else [];
  free_area_count = λ o. if o == 3 then 1 else 0;
}

one_block-IsCounted : IsCounted one_block
one_block-IsCounted = record { counts = λ o. ground arith; small = λ o. ground arith }

do_allocate-free_count_example :
    ((do_allocate 1 one_block ≡ ok (none, one_block))
      × (first_index (13 - 1) 1 (λ o. not (is_empty (one_block.freelist o))) ≡ none))
    ⊎ ((p : ℕ) × (s' : Provider) × (do_allocate 1 one_block ≡ ok (some p, s'))
        × (free_count one_block ≡ free_count s' + 2 ^ 1))
do_allocate-free_count_example =
    do_allocate-free_count 1 one_block one_block-IsCounted (omega arith)
