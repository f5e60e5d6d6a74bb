-- ===== src/Tests/NumberTheory.antt =====
-- include/numbertheory.hpp and include/math.hpp at numbers.
use de_si_gnar.Prelude.{◌+◌, ◌≡◌, ◌^◌, ◌%◌, refl, some, arith}
use de_si_gnar.NumberTheory.{gcd, gcd_loop, mod_pow, pow_loop}
use de_si_gnar.NumberTheory.Gcd.{IsGreatest, gcd-IsGreatest}
use de_si_gnar.NumberTheory.Power.{mod_pow_lem}
use de_si_gnar.Math.{fast_integral_pow, fast_pow_loop}

gcd_ran : gcd 84 36 ≡ some 12
unfolding gcd gcd_loop
gcd_ran = refl

gcd-IsGreatest_example : IsGreatest 84 36 (gcd 84 36)
gcd-IsGreatest_example = gcd-IsGreatest 84 36

mod_pow_ran : mod_pow 7 13 1000 ≡ some 407
unfolding mod_pow pow_loop
mod_pow_ran = refl

mod_pow_lem_example : mod_pow 7 13 1000 ≡ some (7 ^ 13 % 1000)
mod_pow_lem_example = mod_pow_lem 7 13 1000 (omega arith) (omega arith)

-- A square past 2 ^ 64 wraps around: the result is not the power.
wrapped : mod_pow (2 ^ 32) 2 (2 ^ 33 + 1) ≡ some 0
unfolding mod_pow pow_loop
wrapped = refl

fast_integral_pow_ran : fast_integral_pow 3 13 ≡ some 1594323
unfolding fast_integral_pow fast_pow_loop
fast_integral_pow_ran = refl
