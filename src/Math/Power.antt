-- ===== src/Math/Power.antt =====
-- `fast_integral_pow` of include/math.hpp: the loop ends, with the power modulo 2 ^ 64.
use de_si_gnar.Prelude.{
  ℕ, zero, suc, ◌+◌, ◌*◌, ◌/◌, ◌<◌, ◌%◌, ◌^◌, ◌==◌, lt→ltb, ==_iff, ==_ne, ◌≡◌, ◌∙◌, refl, sym, ap,
  Bool-cases, inl, inr, some, arith,
}
use native.Mathlib.Nat
use de_si_gnar.NumberTheory.{mul_nat}
use de_si_gnar.NumberTheory.Power.{same_mul, same_pow, square_pow}
use de_si_gnar.Math.{fast_pow_loop, fast_integral_pow}

-- One round keeps `ret_val * base ^ exp` modulo the word.
squared : (base h : ℕ) → mul_nat base base ^ h % 2 ^ 64 ≡ base ^ (h + h) % 2 ^ 64
squared base h =
    same_pow (2 ^ 64) (mul_nat base base) (base * base) h (Nat.mod-mod (base * base) (2 ^ 64))
    ∙ ap (λ n. n % 2 ^ 64) (square_pow base h)

round_odd :
    (r base exp h : ℕ)
    → exp ≡ suc (h + h)
    → mul_nat r base * mul_nat base base ^ h % 2 ^ 64 ≡ r * base ^ exp % 2 ^ 64
round_odd r base exp h e =
    same_mul (2 ^ 64) (mul_nat r base) (r * base) (mul_nat base base ^ h) (base ^ (h + h))
      (Nat.mod-mod (r * base) (2 ^ 64)) (squared base h)
    ∙ ap (λ n. n % 2 ^ 64)
        (Nat.mul_assoc r base (base ^ (h + h))
          ∙ ap (λ n. r * n) (sym (Nat.pow-succ' base (h + h)) ∙ ap (λ n. base ^ n) (sym e)))

round_even :
    (r base exp h : ℕ) → exp ≡ h + h → r * mul_nat base base ^ h % 2 ^ 64 ≡ r * base ^ exp % 2 ^ 64
round_even r base exp h e =
    same_mul (2 ^ 64) r r (mul_nat base base ^ h) (base ^ exp) refl
      (squared base h ∙ ap (λ n. base ^ n % 2 ^ 64) (sym e))

fast_pow_loop_lem :
    (fuel base exp r : ℕ)
    → exp < fuel
    → r < 2 ^ 64
    → fast_pow_loop fuel base exp r ≡ some (r * base ^ exp % 2 ^ 64)
unfolding fast_pow_loop
fast_pow_loop_lem zero base exp r h hr = absurd (omega (arith, h))
fast_pow_loop_lem (suc fuel) base zero r h hr = ap some (
    sym (
      ap (λ n. n % 2 ^ 64) (ap (λ n. r * n) (Nat.pow-zero base) ∙ Nat.mul-one r)
      ∙ Nat.mod-eq_of_lt hr))
fast_pow_loop_lem (suc fuel) base (suc e) r h hr =
    let half = suc e / 2 in
    let less : half < fuel = omega (arith, h) in
    let more = lt→ltb 0 (suc e) (omega arith) in
    let pos : 0 < 2 ^ 64 = omega arith in
    elim (Bool-cases (suc e % 2 == 1)) [
      | inl odd ↦
          let one : suc e % 2 ≡ 1 = (==_iff (suc e % 2) 1).0 odd in
          let split : suc e ≡ suc (half + half) = omega (arith, one) in
          rw (more, odd)
            (fast_pow_loop_lem fuel (mul_nat base base) half (mul_nat r base) less
                (Nat.mod-lt (r * base) pos)
              ∙ ap some (round_odd r base (suc e) half split))
      | inr even ↦
          let not_one : ¬ (suc e % 2 ≡ 1) = ==_ne (suc e % 2) 1 even in
          let split : suc e ≡ half + half = omega (arith, not_one) in
          rw (more, even)
            (fast_pow_loop_lem fuel (mul_nat base base) half r less hr
              ∙ ap some (round_even r base (suc e) half split))
    ]

-- `fast_integral_pow` ends with the power modulo 2 ^ 64.
pub fast_integral_pow_lem : (base exp : ℕ) → fast_integral_pow base exp ≡ some (base ^ exp % 2 ^ 64)
unfolding fast_integral_pow
fast_integral_pow_lem base exp =
    fast_pow_loop_lem (suc exp) base exp 1 (omega arith) (omega arith)
    ∙ ap (λ n. some (n % 2 ^ 64)) (Nat.one-mul (base ^ exp))
