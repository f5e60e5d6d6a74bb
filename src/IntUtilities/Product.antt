-- ===== src/IntUtilities/Product.antt =====
-- The products of include/intutilities.hpp, and the number of combinations.
use de_si_gnar.Prelude.{
  ℕ, zero, suc, ◌+◌, ◌-◌, ◌*◌, ◌<◌, ◌≤◌, ◌%◌, ◌^◌, le→leb, le→leb_false, ◌≡◌, ◌∙◌, sym, ap, some,
  arith,
}
use native.Mathlib.Nat
use de_si_gnar.NumberTheory.{mul_nat}
use de_si_gnar.NumberTheory.Power.{mod_mul}
use de_si_gnar.IntUtilities.{forward_loop, backward_loop}

-- (c + 1) * … * (c + r).
abbrev pub product : ℕ → ℕ → ℕ
product c zero = 1
product c (suc r) = (c + suc r) * product c r

-- Pascal's triangle: the ways to choose `r` of `c + r`.
abbrev pub pascal : ℕ → ℕ → ℕ
pascal zero r = 1
pascal (suc c) zero = 1
pascal (suc c) (suc r) = pascal c (suc r) + pascal (suc c) r

mul_swap : (a b x : ℕ) → a * (b * x) ≡ b * (a * x)
mul_swap a b x =
    sym (Nat.mul_assoc a b x) ∙ ap (λ n. n * x) (Nat.mul_comm a b) ∙ Nat.mul_assoc b a x

-- The least factor first.
product_shift : (c r : ℕ) → product c (suc r) ≡ suc c * product (suc c) r
product_shift c zero = let e : c + 1 ≡ suc c = omega arith in ap (λ n. n * 1) e
product_shift c (suc r) =
    let e : c + suc (suc r) ≡ suc c + suc r = omega arith in
    ap (λ n. n * product c (suc r)) e
    ∙ ap (λ n. (suc c + suc r) * n) (product_shift c r)
    ∙ mul_swap (suc c + suc r) (suc c) (product (suc c) r)

pub pascal-product : (c r : ℕ) → pascal c r * product 0 r ≡ product c r
pascal-product zero r = Nat.one-mul (product 0 r)
pascal-product (suc c) zero = Nat.one-mul 1
pascal-product (suc c) (suc r) =
    let x = product (suc c) r in
    let e : 0 + suc r ≡ suc r = omega arith in
    Nat.add-mul (pascal c (suc r)) (pascal (suc c) r) (product 0 (suc r))
    ∙ ap (λ n. n + pascal (suc c) r * product 0 (suc r))
        (pascal-product c (suc r) ∙ product_shift c r)
    ∙ ap (λ n. suc c * x + n)
        (ap (λ n. pascal (suc c) r * (n * product 0 r)) e
          ∙ mul_swap (pascal (suc c) r) (suc r) (product 0 r)
          ∙ ap (λ n. suc r * n) (pascal-product (suc c) r))
    ∙ sym (Nat.add-mul (suc c) (suc r) x)

pub product_pos : (c r : ℕ) → 0 < product c r
product_pos c zero = omega arith
product_pos c (suc r) =
    let more : 0 < c + suc r = omega arith in
    omega (arith, Nat.mul-lt-mul_of_pos_right more (product_pos c r))

pub product_mono : (c r : ℕ) → product 0 r ≤ product c r
product_mono c zero = omega arith
product_mono c (suc r) =
    let e : 0 + suc r ≤ c + suc r = omega arith in Nat.mul-le-mul e (product_mono c r)

-- One round keeps the product of the number so far and the factors left.
kept : (ret a x : ℕ) → mul_nat ret a * x % 2 ^ 64 ≡ ret * (a * x) % 2 ^ 64
kept ret a x = mod_mul (2 ^ 64) (ret * a) x ∙ ap (λ n. n % 2 ^ 64) (Nat.mul_assoc ret a x)

stopped : (ret : ℕ) → ret < 2 ^ 64 → some ret ≡ some (ret * 1 % 2 ^ 64)
stopped ret h = ap some (sym (ap (λ n. n % 2 ^ 64) (Nat.mul-one ret) ∙ Nat.mod-eq_of_lt h))

pub backward_loop_lem :
    (fuel c r ret : ℕ)
    → r < fuel
    → c + r < 2 ^ 64
    → ret < 2 ^ 64
    → backward_loop fuel (c + r) (suc c) ret ≡ some (ret * product c r % 2 ^ 64)
unfolding backward_loop
backward_loop_lem zero c r ret h small fits = absurd (omega (arith, h))
backward_loop_lem (suc fuel) c zero ret h small fits =
    rw (le→leb_false (suc c) (c + 0) (omega arith)) (stopped ret fits)
backward_loop_lem (suc fuel) c (suc r) ret h small fits =
    let next : (c + suc r + 2 ^ 64 - 1) % 2 ^ 64 ≡ c + r = omega (arith, small) in
    let word : 0 < 2 ^ 64 = omega arith in
    rw (le→leb (suc c) (c + suc r) (omega arith), next)
      (backward_loop_lem fuel c r (mul_nat ret (c + suc r)) (omega (arith, h))
          (omega (arith, small)) (Nat.mod-lt (ret * (c + suc r)) word)
        ∙ ap some (kept ret (c + suc r) (product c r)))

pub forward_loop_lem :
    (fuel c r ret : ℕ)
    → r < fuel
    → c + r + 1 < 2 ^ 64
    → ret < 2 ^ 64
    → forward_loop fuel (suc c) (c + r) ret ≡ some (ret * product c r % 2 ^ 64)
unfolding forward_loop
forward_loop_lem zero c r ret h small fits = absurd (omega (arith, h))
forward_loop_lem (suc fuel) c zero ret h small fits =
    rw (le→leb_false (suc c) (c + 0) (omega arith)) (stopped ret fits)
forward_loop_lem (suc fuel) c (suc r) ret h small fits =
    let next : (suc c + 1) % 2 ^ 64 ≡ suc (suc c) = omega (arith, small) in
    let end : c + suc r ≡ suc c + r = omega arith in
    let word : 0 < 2 ^ 64 = omega arith in
    rw (le→leb (suc c) (c + suc r) (omega arith), next)
      (ap (λ b. forward_loop fuel (suc (suc c)) b (mul_nat ret (suc c))) end
        ∙ forward_loop_lem fuel (suc c) r (mul_nat ret (suc c)) (omega (arith, h))
            (omega (arith, small)) (Nat.mod-lt (ret * suc c) word)
        ∙ ap some (
            kept ret (suc c) (product (suc c) r)
            ∙ ap (λ n. ret * n % 2 ^ 64) (sym (product_shift c r))))
