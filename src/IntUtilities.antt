-- ===== src/IntUtilities.antt =====
-- include/intutilities.hpp at `T = nat_t`: products of intervals, permutations and combinations. The
-- tests for negative arguments never hold there, and numbers wrap around. `none` is a thrown
-- `std::logic_error`, a division by zero, or fuel that ran out.
pub mod Product
pub mod Count
use de_si_gnar.Prelude.{
  ℕ, zero, suc, ◌+◌, ◌-◌, ◌/◌, ◌%◌, ◌^◌, ltb, leb, ◌==◌, Option, none, some, ◌>>=◌, if◌then◌else◌,
}
use de_si_gnar.NumberTheory.{mul_nat}

-- The loops with fuel.
unfoldable pub forward_loop : ℕ → ℕ → ℕ → ℕ → Option ℕ
forward_loop zero a b ret_val = none
forward_loop (suc fuel) a b ret_val =
    let rest = forward_loop fuel ((a + 1) % 2 ^ 64) b (mul_nat ret_val a) in
    if leb a b then rest else some ret_val

unfoldable pub backward_loop : ℕ → ℕ → ℕ → ℕ → Option ℕ
backward_loop zero a b ret_val = none
backward_loop (suc fuel) a b ret_val =
    let rest = backward_loop fuel ((a + 2 ^ 64 - 1) % 2 ^ 64) b (mul_nat ret_val a) in
    if leb b a then rest else some ret_val

-- One round for each number of the interval, and one to stop.
unfoldable pub forward_prod : ℕ → ℕ → Option ℕ
forward_prod a b = forward_loop (suc (b + 1 - a)) a b 1

unfoldable pub backward_prod : ℕ → ℕ → Option ℕ
backward_prod a b = backward_loop (suc (a + 1 - b)) a b 1

unfoldable pub factorial : ℕ → Option ℕ
factorial n = forward_prod 1 n

unfoldable pub count_permutations : ℕ → ℕ → Option ℕ
count_permutations n r = if ltb n r then none else backward_prod n ((n - r + 1) % 2 ^ 64)

unfoldable pub count_combinations : ℕ → ℕ → Option ℕ
count_combinations n r = if ltb n r then none else do
  p ← backward_prod n ((n - r + 1) % 2 ^ 64)
  f ← factorial r
  if f == 0 then none else some (p / f)
