-- ===== src/Math.antt =====
-- include/math.hpp at `BT = ET = nat_t`: `fast_integral_pow`. Products wrap around.
pub mod Power
use de_si_gnar.Prelude.{ℕ, zero, suc, ◌/◌, ◌%◌, ◌==◌, ltb, Option, none, some, if◌then◌else◌}
use de_si_gnar.NumberTheory.{mul_nat}

-- The loop with fuel.
unfoldable pub fast_pow_loop : ℕ → ℕ → ℕ → ℕ → Option ℕ
fast_pow_loop zero base exp ret_val = none
fast_pow_loop (suc fuel) base exp ret_val =
    let ret_val' = if exp % 2 == 1 then mul_nat ret_val base else ret_val in
    let rest = fast_pow_loop fuel (mul_nat base base) (exp / 2) ret_val' in
    if ltb 0 exp then rest else some ret_val

-- `exp` is halved in each round.
unfoldable pub fast_integral_pow : ℕ → ℕ → Option ℕ
fast_integral_pow base exp = fast_pow_loop (suc exp) base exp 1
