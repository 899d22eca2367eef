-- ===== src/Buddy/Fuel.antt =====
-- The loops of the page allocator have rounds enough: more would change nothing.
use project_dionysus.Base.{
  ℕ, zero, suc, ◌+◌, ◌-◌, ◌^◌, ◌≤◌, ◌≡◌, refl, ◌∙◌, sym, true, false, inl, inr, leb, ◌==◌, arith,
  Bool-cases,
}
use native.Mathlib.Nat.{one-le-pow}
use project_dionysus.Buddy.{Provider, push_block, setup_blocks}

module _ (fuel order p n : ℕ) (s : Provider) where
  setup_blocks_done : (n == 0) ≡ true → setup_blocks (suc fuel) order p n s ≡ s
  unfolding setup_blocks
  setup_blocks_done e = rw e refl

  setup_blocks_take :
      (n == 0) ≡ false
      → leb (2 ^ order) n ≡ true
      → setup_blocks (suc fuel) order p n s
        ≡ setup_blocks fuel order (p - 2 ^ order) (n - 2 ^ order) (push_block p order s)
  unfolding setup_blocks
  setup_blocks_take e l = rw (e, l) refl

  setup_blocks_lower :
      (n == 0) ≡ false
      → leb (2 ^ order) n ≡ false
      → setup_blocks (suc fuel) order p n s ≡ setup_blocks fuel (order - 1) p n s
  unfolding setup_blocks
  setup_blocks_lower e l = rw (e, l) refl

setup_blocks_none : (order p n : ℕ) (s : Provider) → setup_blocks 0 order p n s ≡ s
unfolding setup_blocks
setup_blocks_none order p n s = refl

order_positive :
    (o n fuel : ℕ)
    → n + o ≤ suc fuel
    → (n == 0) ≡ false
    → leb (2 ^ o) n ≡ false
    → n + (o - 1) ≤ fuel
order_positive zero n fuel le some_left large = absurd (ground arith)
order_positive (suc o) n fuel le some_left large = omega arith

-- From an order and n pages, once there are n + order rounds, one more round changes nothing.
pub setup_blocks_settled :
    (fuel order p n : ℕ) (s : Provider)
    → n + order ≤ fuel
    → setup_blocks (suc fuel) order p n s ≡ setup_blocks fuel order p n s
setup_blocks_settled zero order p n s h =
    setup_blocks_done zero order p n s (ground arith) ∙ sym (setup_blocks_none order p n s)
setup_blocks_settled (suc fuel) order p n s h = elim (Bool-cases (n == 0)) [
  | inl none_left ↦
      setup_blocks_done (suc fuel) order p n s none_left
      ∙ sym (setup_blocks_done fuel order p n s none_left)
  | inr some_left ↦ elim (Bool-cases (leb (2 ^ order) n)) [
    | inl fits ↦
        let rest =
          setup_blocks_settled fuel order (p - 2 ^ order) (n - 2 ^ order) (push_block p order s)
            (ground (arith, one-le-pow order 2)) in
        setup_blocks_take (suc fuel) order p n s some_left fits
        ∙ rest
        ∙ sym (setup_blocks_take fuel order p n s some_left fits)
    | inr large ↦
        let rest =
          setup_blocks_settled fuel (order - 1) p n s
            (order_positive order n fuel h some_left large) in
        setup_blocks_lower (suc fuel) order p n s some_left large
        ∙ rest
        ∙ sym (setup_blocks_lower fuel order p n s some_left large)
  ]
]
