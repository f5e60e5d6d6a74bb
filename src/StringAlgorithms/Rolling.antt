-- ===== src/StringAlgorithms/Rolling.antt =====
-- The rolling hash of `rabin_karp_search` (include/stringalgorithms.hpp): with symbols below 2 ^ 34
-- no product wraps around, and each hash is the value of its window in base 256, modulo the modulus.
use de_si_gnar.Prelude.{
  ℕ, zero, suc, ◌+◌, ◌-◌, ◌*◌, ◌%◌, ◌^◌, ◌≤◌, ◌<◌, ◌≡◌, ◌∙◌, refl, sym, ap, some, List, [], ◌∷◌,
  ◌++◌, All, length, arith,
}
use native.Mathlib.Nat
use de_si_gnar.NumberTheory.{mul_nat}
use de_si_gnar.NumberTheory.Power.{mod_mul}
use de_si_gnar.StringAlgorithms.{
  base, modulus, push_symbol, add_nat, first_hashes, high_order_loop, roll,
}

-- The value of a window, on top of `v`.
unfoldable pub value : ℕ → List ℕ → ℕ
value v [] = v
value v (c ∷ w) = value (v * 256 + c) w

pub power : ℕ → ℕ
power zero = 1
power (suc n) = power n * 256

abbrev pub AreSmall : List ℕ → Type 0
AreSmall = All (λ c. c < 2 ^ 34)

push_symbol-value : (v c : ℕ) → c < 2 ^ 34 → push_symbol (v % modulus) c ≡ (v * 256 + c) % modulus
push_symbol-value v c h = omega (arith, h)

value_shift : (v : ℕ) (w : List ℕ) → value v w ≡ v * power (length w) + value 0 w
unfolding value power
value_shift v [] = omega (arith, Nat.mul-one v)
value_shift v (c ∷ w) =
    let p = power (length w) in
    let a = value_shift (v * 256 + c) w in let b = value_shift (0 * 256 + c) w in grind arith

pub value_snoc : (v : ℕ) (w : List ℕ) (c : ℕ) → value v (w ++ c ∷ []) ≡ value v w * 256 + c
unfolding value
value_snoc v [] c = refl
value_snoc v (d ∷ w) c = value_snoc (v * 256 + d) w c

pub first_hashes-value :
    (pattern window rest : List ℕ) (u v : ℕ)
    → length window ≡ length pattern
    → AreSmall pattern
    → AreSmall window
    → first_hashes pattern (window ++ rest) (u % modulus) (v % modulus)
      ≡ some (value u pattern % modulus, value v window % modulus)
unfolding first_hashes value
first_hashes-value [] [] rest u v e sp sw = refl
first_hashes-value [] (t ∷ window) rest u v e sp sw = absurd (omega arith)
first_hashes-value (p ∷ pattern) [] rest u v e sp sw = absurd (omega arith)
first_hashes-value (p ∷ pattern) (t ∷ window) rest u v e sp sw =
    rw (push_symbol-value u p sp.0, push_symbol-value v t sw.0)
      (first_hashes-value pattern window rest (u * 256 + p) (v * 256 + t) (omega arith) sp.1 sw.1)

pub high_order_loop-power : (n v : ℕ) → high_order_loop n (v % modulus) ≡ v * power n % modulus
unfolding high_order_loop power
high_order_loop-power zero v = ap (λ k. k % modulus) (sym (Nat.mul-one v))
high_order_loop-power (suc n) v =
    let step : mul_nat (v % modulus) base % modulus ≡ v * 256 % modulus = omega arith in
    rw step (high_order_loop-power n (v * 256) ∙ ap (λ k. k % modulus) (grind arith))

-- The symbol that goes out, times the power of its place.
outgoing : (x p : ℕ) → x < 2 ^ 34 → mul_nat x (p % modulus) % modulus ≡ x * p % modulus
outgoing x p h =
    let low_x : x ≤ 17179869183 = omega (arith, h) in
    let low_p : p % modulus ≤ 1000000006 = omega arith in
    let fits = Nat.mul-le-mul low_x low_p in
    ap (λ k. k % modulus) (Nat.mod-eq_of_lt (omega (arith, fits)))
    ∙ ap (λ k. k % modulus) (Nat.mul_comm x (p % modulus))
    ∙ mod_mul modulus p x
    ∙ ap (λ k. k % modulus) (Nat.mul_comm p x)

value_first : (x : ℕ) (w : List ℕ) → value 0 (x ∷ w) ≡ x * power (length w) + value 0 w
unfolding value
value_first x w =
    value_shift (0 * 256 + x) w ∙ ap (λ k. k * power (length w) + value 0 w) (omega arith)

taken_off :
    (total gone rest : ℕ)
    → total ≡ gone + rest
    → (add_nat (total % modulus) modulus - gone % modulus) % modulus ≡ rest % modulus
taken_off total gone rest e = omega (arith, e)

-- The window moves on by one symbol.
pub roll-value :
    (x : ℕ) (w : List ℕ) (c n : ℕ)
    → x < 2 ^ 34
    → c < 2 ^ 34
    → length w ≡ n
    → roll (power n % modulus) (value 0 (x ∷ w) % modulus) x c ≡ value 0 (w ++ c ∷ []) % modulus
roll-value x w c n hx hc e =
    let total : value 0 (x ∷ w) ≡ x * power n + value 0 w =
      value_first x w ∙ ap (λ k. x * power k + value 0 w) e in
    ap (λ k. push_symbol ((add_nat (value 0 (x ∷ w) % modulus) modulus - k) % modulus) c)
      (outgoing x (power n) hx)
    ∙ ap (λ k. push_symbol k c) (taken_off (value 0 (x ∷ w)) (x * power n) (value 0 w) total)
    ∙ push_symbol-value (value 0 w) c hc
    ∙ ap (λ k. k % modulus) (sym (value_snoc 0 w c))
