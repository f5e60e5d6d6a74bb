-- ===== src/NumberTheory.antt =====
-- include/numbertheory.hpp at `T = nat_t`, the unsigned 64-bit numbers: `gcd` and `mod_pow`. The tests
-- for a negative argument of `gcd` never hold there. Products wrap around.
pub mod Gcd
pub mod Power
use de_si_gnar.Prelude.{
  ℕ, zero, suc, ◌*◌, ◌/◌, ◌%◌, ◌^◌, ◌==◌, ltb, Option, none, some, if◌then◌else◌,
}

-- The loop of `gcd` with fuel.
unfoldable pub gcd_loop : ℕ → ℕ → ℕ → Option ℕ
gcd_loop zero a b = none
gcd_loop (suc fuel) a b = let rest = gcd_loop fuel b (a % b) in if b == 0 then some a else rest

-- `b` gets smaller in each round.
unfoldable pub gcd : ℕ → ℕ → Option ℕ
gcd a b = gcd_loop (suc b) a b

-- A product of two `nat_t`.
abbrev pub mul_nat : ℕ → ℕ → ℕ
mul_nat a b = a * b % 2 ^ 64

-- The loop of `mod_pow` with fuel.
unfoldable pub pow_loop : ℕ → ℕ → ℕ → ℕ → ℕ → Option ℕ
pow_loop zero base exp modulus result = none
pow_loop (suc fuel) base exp modulus result =
    let result' = if exp % 2 == 1 then mul_nat result base % modulus else result in
    let rest = pow_loop fuel (mul_nat base base % modulus) (exp / 2) modulus result' in
    if ltb 0 exp then rest else some result

-- `exp` is halved in each round.
unfoldable pub mod_pow : ℕ → ℕ → ℕ → Option ℕ
mod_pow base exp modulus =
    if modulus == 1 then some 0 else pow_loop (suc exp) (base % modulus) exp modulus 1
