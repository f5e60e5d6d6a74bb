-- ===== src/IntUtilities/Count.antt =====
-- `count_permutations` and `count_combinations` of include/intutilities.hpp.
use de_si_gnar.Prelude.{
  ℕ, suc, ◌+◌, ◌-◌, ◌*◌, ◌/◌, ◌<◌, ◌≤◌, ◌%◌, ◌^◌, ltb, Bool-cases, inl, inr, ltb_false→le,
  le→ltb_false, ◌≡◌, ◌∙◌, refl, sym, ap, true, false, ◌==◌, ◌>>=◌, some, none, arith, if◌then◌else◌,
}
use native.Mathlib.Nat
use de_si_gnar.IntUtilities.{
  forward_loop, forward_prod, backward_prod, factorial, count_permutations, count_combinations,
}
use de_si_gnar.IntUtilities.Product.{
  product, pascal, pascal-product, product_pos, product_mono, backward_loop_lem, forward_loop_lem,
}

one_times : (x : ℕ) → some (1 * x % 2 ^ 64) ≡ some (x % 2 ^ 64)
one_times x = ap (λ n. some (n % 2 ^ 64)) (Nat.one-mul x)

backward_prod-product :
    (c r : ℕ) → c + r + 1 < 2 ^ 64 → backward_prod (c + r) (suc c) ≡ some (product c r % 2 ^ 64)
unfolding backward_prod
backward_prod-product c r h =
    backward_loop_lem (suc (c + r + 1 - suc c)) c r 1 (omega arith) (omega (arith, h)) (omega arith)
    ∙ one_times (product c r)

factorial-product : (r : ℕ) → r + 1 < 2 ^ 64 → factorial r ≡ some (product 0 r % 2 ^ 64)
unfolding factorial forward_prod
factorial-product r h =
    let e : 0 + r ≡ r = omega arith in
    ap (λ b. forward_loop (suc (r + 1 - 1)) 1 b 1) (sym e)
    ∙ forward_loop_lem (suc (r + 1 - 1)) 0 r 1 (omega arith) (omega (arith, h)) (omega arith)
    ∙ one_times (product 0 r)

first_factor : (c r : ℕ) → c + r + 1 < 2 ^ 64 → (c + r - r + 1) % 2 ^ 64 ≡ suc c
first_factor c r h = omega (arith, h)

permutations_of :
    (c r : ℕ) → c + r + 1 < 2 ^ 64 → count_permutations (c + r) r ≡ some (product c r % 2 ^ 64)
unfolding count_permutations
permutations_of c r h =
    rw (le→ltb_false (c + r) r (omega arith), first_factor c r h) (backward_prod-product c r h)

too_many : (n r : ℕ) → ltb n r ≡ true → count_permutations n r ≡ none
unfolding count_permutations
too_many n r over = rw (over, count_permutations) refl

combinations_of :
    (c r : ℕ)
    → c + r + 1 < 2 ^ 64
    → product c r < 2 ^ 64
    → count_combinations (c + r) r ≡ some (pascal c r)
unfolding count_combinations
combinations_of c r h fits =
    let small : product 0 r < 2 ^ 64 = omega (arith, product_mono c r, fits) in
    let low : r + 1 < 2 ^ 64 = omega (arith, h) in
    let top = backward_prod-product c r h ∙ ap some (Nat.mod-eq_of_lt fits) in
    let bottom = factorial-product r low ∙ ap some (Nat.mod-eq_of_lt small) in
    let nonzero : (product 0 r == 0) ≡ false = ground (arith, product_pos 0 r) in
    rw (le→ltb_false (c + r) r (omega arith), first_factor c r h, top, bottom, ◌>>=◌, nonzero)
      (ap some (
        ap (λ n. n / product 0 r) (sym (pascal-product c r))
        ∙ Nat.mul-div_cancel (pascal c r) (product_pos 0 r)))

-- `count_permutations` throws for `r > n`, and otherwise ends with the product of the `r` numbers
-- up to `n`, modulo 2 ^ 64, if `n` is below 2 ^ 64 - 1.
pub count_permutations-product :
    (n r : ℕ)
    → n + 1 < 2 ^ 64
    → count_permutations n r ≡ (if ltb n r then none else some (product (n - r) r % 2 ^ 64))
count_permutations-product n r h = elim (Bool-cases (ltb n r)) [
  | inl over ↦ rw (over) (too_many n r over)
  | inr under ↦
      let le : r ≤ n = ltb_false→le n r under in
      let e : n - r + r ≡ n = omega (arith, le) in
      rw (under) (
        ap (λ m. count_permutations m r) (sym e) ∙ permutations_of (n - r) r (omega (arith, le, h)))
]

-- With `r` up to `n`, where `n` is below 2 ^ 64 - 1 and the product of the `r` numbers up to `n` fits in
-- 64 bits, `count_combinations` ends with the entry of Pascal's triangle.
pub count_combinations-pascal :
    (n r : ℕ)
    → r ≤ n
    → n + 1 < 2 ^ 64
    → product (n - r) r < 2 ^ 64
    → count_combinations n r ≡ some (pascal (n - r) r)
count_combinations-pascal n r le h fits =
    let e : n - r + r ≡ n = omega (arith, le) in
    ap (λ m. count_combinations m r) (sym e) ∙ combinations_of (n - r) r (omega (arith, le, h)) fits
