-- ===== src/IntrusiveList/Tests.antt =====
-- Lists on concrete links: tests, and the theorems at inputs that meet their hypotheses.
use project_dionysus.Base.{
  ◌≡◌, refl, true, none, some, List, [], ◌∷◌, ok, arith, ◌==◌, if◌then◌else◌,
}
use project_dionysus.IntrusiveList.{Links, IntrusiveList, front_ptr, is_empty_or_detached, do_clear}
use project_dionysus.IntrusiveList.Steps.{IsRing}
use project_dionysus.IntrusiveList.Refine.{
  ListOp, op_push_back, op_push_front, op_insert, op_remove, op_pop_back, op_pop_front, execute_all,
  execute_all-meaning, Leaves, meaning_all, allowed_all, meaning, allowed,
}
use project_dionysus.IntrusiveList.Loops.{do_clear-IsRing}

-- The head 1 with the links 2 and 3, and the head 7, alone.
abbrev two_links : Links
two_links = record {
  next = λ p. if p == 1 then 2 else (if p == 2 then 3 else (if p == 3 then 1 else p));
  prev = λ p. if p == 1 then 3 else (if p == 2 then 1 else (if p == 3 then 2 else p));
  parent =
      λ p. if p == 1 then none else (if p == 7 then none else (if p == 8 then none else some p));
}

abbrev two : IntrusiveList
two = record { head = 1; size = 2 }

abbrev alone : IntrusiveList
alone = record { head = 7; size = 0 }

abbrev other : IntrusiveList
other = record { head = 8; size = 0 }

two-IsRing : IsRing two two_links (2 ∷ 3 ∷ [])
two-IsRing = record {
  chain = (refl, refl, (refl, refl, (refl, refl)));
  distinct = (refl, (refl, (refl, tt)));
  nonzero = refl;
  count = refl;
}

alone-IsRing : IsRing alone two_links []
alone-IsRing = record { chain = (refl, refl); distinct = (refl, tt); nonzero = refl; count = refl }

other-IsRing : IsRing other two_links []
other-IsRing = record { chain = (refl, refl); distinct = (refl, tt); nonzero = refl; count = refl }

front_ptr_test : front_ptr two two_links ≡ some 2
unfolding front_ptr
front_ptr_test = refl

is_empty_or_detached_test : is_empty_or_detached 9 two_links ≡ true
unfolding is_empty_or_detached
is_empty_or_detached_test = refl

abbrev some_ops : List ListOp
some_ops =
    op_push_back 4 ∷ op_insert 2 5 ∷ op_pop_front ∷ op_remove 3 ∷ op_push_front 6 ∷ op_pop_back ∷ []

execute_all-meaning_example : Leaves (execute_all some_ops two two_links) 1 (6 ∷ 5 ∷ [])
unfolding meaning_all allowed_all meaning allowed
execute_all-meaning_example =
    execute_all-meaning some_ops two two_links (2 ∷ 3 ∷ []) two-IsRing refl

do_clear-IsRing_example :
    (t : Links) × (do_clear 3 two two_links ≡ ok (record two { size = 0 }, t))
    × IsRing (record two { size = 0 }) t []
do_clear-IsRing_example = do_clear-IsRing two two_links (2 ∷ 3 ∷ []) 3 two-IsRing (omega arith)
