-- ===== src/NumberTheory/Power.antt =====
-- `mod_pow` of include/numbertheory.hpp: the loop ends, with the power modulo the modulus, where no
-- product wraps around.
use de_si_gnar.Prelude.{
  ℕ, zero, suc, ◌+◌, ◌*◌, ◌/◌, ◌<◌, ◌≤◌, ◌%◌, ◌^◌, ◌==◌, ltb, lt→ltb, ==_iff, ==_ne, ◌≡◌, ◌∙◌, refl,
  sym, ap, Bool-cases, true, inl, inr, some, arith,
}
use native.Mathlib.Nat
use de_si_gnar.NumberTheory.{mul_nat, pow_loop, mod_pow}

mul_fits : (a b : ℕ) → a < 2 ^ 32 → b < 2 ^ 32 → a * b < 2 ^ 64
mul_fits a b ha hb =
    let low_a : a ≤ 4294967295 = omega (arith, ha) in
    let low_b : b ≤ 4294967295 = omega (arith, hb) in omega (arith, Nat.mul-le-mul low_a low_b)

module _ (m : ℕ) where
  pub mod_mul : (a b : ℕ) → a % m * b % m ≡ a * b % m
  mod_mul a b = sym (
      ap (λ n. n * b % m) (sym (Nat.mod-add-div a m))
      ∙ ap (λ n. n % m)
          (Nat.add-mul (a % m) (m * (a / m)) b
            ∙ ap (λ n. a % m * b + n) (Nat.mul_assoc m (a / m) b))
      ∙ Nat.add-mul-mod_self_left (a % m * b) m (a / m * b))

  -- Multiplication and powers of numbers with the same remainders.
  pub same_mul : (x x' y y' : ℕ) → x % m ≡ x' % m → y % m ≡ y' % m → x * y % m ≡ x' * y' % m
  same_mul x x' y y' hx hy =
      sym (mod_mul x y)
      ∙ ap (λ n. n * y % m) hx
      ∙ mod_mul x' y
      ∙ ap (λ n. n % m) (Nat.mul_comm x' y)
      ∙ sym (mod_mul y x')
      ∙ ap (λ n. n * x' % m) hy
      ∙ mod_mul y' x'
      ∙ ap (λ n. n % m) (Nat.mul_comm y' x')

  pub same_pow : (x y n : ℕ) → x % m ≡ y % m → x ^ n % m ≡ y ^ n % m
  same_pow x y zero h = ap (λ k. k % m) (Nat.pow-zero x ∙ sym (Nat.pow-zero y))
  same_pow x y (suc n) h =
      ap (λ k. k % m) (Nat.pow-suc x n)
      ∙ same_mul (x ^ n) (y ^ n) x y (same_pow x y n h) h
      ∙ ap (λ k. k % m) (sym (Nat.pow-suc y n))

pub square_pow : (b h : ℕ) → (b * b) ^ h ≡ b ^ (h + h)
square_pow b zero = Nat.pow-zero (b * b) ∙ sym (Nat.pow-zero b)
square_pow b (suc h) =
    let twice : suc h + suc h ≡ suc (suc (h + h)) = omega arith in
    Nat.pow-suc (b * b) h
    ∙ ap (λ n. n * (b * b)) (square_pow b h)
    ∙ sym (Nat.mul_assoc (b ^ (h + h)) b b)
    ∙ sym (ap (λ n. n * b) (Nat.pow-suc b (h + h)))
    ∙ sym (Nat.pow-suc b (suc (h + h)))
    ∙ ap (λ n. b ^ n) (sym twice)

module _ (m : ℕ) (pos : 0 < m) (fits : m ≤ 2 ^ 32) where
  -- A product of two remainders does not wrap around.
  mul_nat-small : (a b : ℕ) → a < m → b < m → mul_nat a b % m ≡ a * b % m
  mul_nat-small a b ha hb =
      let small_a : a < 2 ^ 32 = omega (arith, ha, fits) in
      let small_b : b < 2 ^ 32 = omega (arith, hb, fits) in
      ap (λ n. n % m) (Nat.mod-eq_of_lt (mul_fits a b small_a small_b))

  -- One round keeps `result * base ^ exp` modulo `m`.
  round_even :
      (result base exp h : ℕ)
      → exp ≡ h + h
      → base < m
      → result * (mul_nat base base % m) ^ h % m ≡ result * base ^ exp % m
  round_even result base exp h e hb =
      same_mul m result result ((mul_nat base base % m) ^ h) (base ^ exp) refl (
        same_pow m (mul_nat base base % m) (base * base) h
          (Nat.mod-mod (mul_nat base base) m ∙ mul_nat-small base base hb hb)
        ∙ ap (λ n. n % m) (square_pow base h ∙ ap (λ n. base ^ n) (sym e)))

  round_odd :
      (result base exp h : ℕ)
      → exp ≡ suc (h + h)
      → base < m
      → result < m
      → (mul_nat result base % m) * (mul_nat base base % m) ^ h % m ≡ result * base ^ exp % m
  round_odd result base exp h e hb hr =
      same_mul m (mul_nat result base % m) (result * base) ((mul_nat base base % m) ^ h)
        (base ^ (h + h)) (Nat.mod-mod (mul_nat result base) m ∙ mul_nat-small result base hr hb)
        (same_pow m (mul_nat base base % m) (base * base) h
            (Nat.mod-mod (mul_nat base base) m ∙ mul_nat-small base base hb hb)
          ∙ ap (λ n. n % m) (square_pow base h))
      ∙ ap (λ n. n % m)
          (Nat.mul_assoc result base (base ^ (h + h))
            ∙ ap (λ n. result * n) (sym (Nat.pow-succ' base (h + h)) ∙ ap (λ n. base ^ n) (sym e)))

  pow_loop_lem :
      (fuel base exp result : ℕ)
      → exp < fuel
      → base < m
      → result < m
      → pow_loop fuel base exp m result ≡ some (result * base ^ exp % m)
  unfolding pow_loop
  pow_loop_lem zero base exp result h hb hr = absurd (omega (arith, h))
  pow_loop_lem (suc fuel) base zero result h hb hr = ap some (
      sym (
        ap (λ n. n % m) (ap (λ n. result * n) (Nat.pow-zero base) ∙ Nat.mul-one result)
        ∙ Nat.mod-eq_of_lt hr))
  pow_loop_lem (suc fuel) base (suc e) result h hb hr =
      let half = suc e / 2 in
      let less : half < fuel = omega (arith, h) in
      let next = Nat.mod-lt (mul_nat base base) pos in
      let more : ltb 0 (suc e) ≡ true = lt→ltb 0 (suc e) (omega arith) in
      elim (Bool-cases (suc e % 2 == 1)) [
        | inl odd ↦
            let one : suc e % 2 ≡ 1 = (==_iff (suc e % 2) 1).0 odd in
            let split : suc e ≡ suc (half + half) = omega (arith, one) in
            rw (more, odd)
              (pow_loop_lem fuel (mul_nat base base % m) half (mul_nat result base % m) less next
                  (Nat.mod-lt (mul_nat result base) pos)
                ∙ ap some (round_odd result base (suc e) half split hb hr))
        | inr even ↦
            let zero_left : ¬ (suc e % 2 ≡ 1) = ==_ne (suc e % 2) 1 even in
            let split : suc e ≡ half + half = omega (arith, zero_left) in
            rw (more, even)
              (pow_loop_lem fuel (mul_nat base base % m) half result less next hr
                ∙ ap some (round_even result base (suc e) half split hb))
      ]

-- With a modulus from 1 to 2 ^ 32, `mod_pow` ends with the power modulo the modulus.
pub mod_pow_lem :
    (base exp modulus : ℕ)
    → 0 < modulus
    → modulus ≤ 2 ^ 32
    → mod_pow base exp modulus ≡ some (base ^ exp % modulus)
unfolding mod_pow
mod_pow_lem base exp modulus pos fits = elim (Bool-cases (modulus == 1)) [
  | inl one ↦
      let e : modulus ≡ 1 = (==_iff modulus 1).0 one in
      rw one (ap some (sym (ap (λ n. base ^ exp % n) e ∙ Nat.mod-one (base ^ exp))))
  | inr more ↦
      let apart : ¬ (modulus ≡ 1) = ==_ne modulus 1 more in
      let big : 1 < modulus = omega (arith, apart, pos) in
      rw more (
        pow_loop_lem modulus pos fits (suc exp) (base % modulus) exp 1 (omega arith)
          (Nat.mod-lt base pos) big
        ∙ ap some (
            ap (λ n. n % modulus) (Nat.one-mul ((base % modulus) ^ exp))
            ∙ same_pow modulus (base % modulus) base exp (Nat.mod-mod base modulus)))
]
