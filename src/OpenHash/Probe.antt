-- ===== src/OpenHash/Probe.antt =====
-- The probes of include/openhash.hpp: what a table asks of its policy, and the linear policy, which
-- keeps it. The number of slots is a power of two.
use Prim.Native.Nat.{bit_and, bit_and-bitwise, digits, min, ◌∣◌}
use native.Mathlib.Nat
use de_si_gnar.Prelude.{
  ℕ, zero, suc, ◌+◌, ◌-◌, ◌*◌, ◌/◌, ◌%◌, ◌^◌, ◌<◌, ◌≤◌, ◌≡◌, ◌∙◌, refl, sym, ap, subst, Bool-cases,
  inl, inr, ltb, ltb→lt, ltb_false→le, arith,
}
use de_si_gnar.OpenHash.{linear_probe}

unfoldable pub pow2 : ℕ → ℕ
pow2 zero = 1
pow2 (suc k) = pow2 k * 2

pub pow2-suc : (k : ℕ) → pow2 (suc k) ≡ pow2 k * 2
unfolding pow2
pow2-suc k = refl

pub pow2_pos : (k : ℕ) → 0 < pow2 k
unfolding pow2
pow2_pos zero = omega arith
pow2_pos (suc k) = omega (arith, pow2_pos k)

-- The lowest digit and the others, taken apart.
mod_double : (a p : ℕ) → 0 < p → a % (p * 2) ≡ a / 2 % p * 2 + a % 2
mod_double a p h =
    let q = a / 2 / p in
    let r = a / 2 % p in
    let split : a ≡ (r * 2 + a % 2) + (p * 2) * q =
      (let whole = Nat.mod-add-div (a / 2) p in
        let twice : p * 2 * q ≡ p * q * 2 = grind arith in omega (arith, whole, twice)) in
    let small : r * 2 + a % 2 < p * 2 = omega (arith, Nat.mod-lt (a / 2) h) in
    ap (λ n. n % (p * 2)) split
    ∙ Nat.add-mul-mod_self_left (r * 2 + a % 2) (p * 2) q
    ∙ Nat.mod-eq_of_lt small

ones_none :
    (n a : ℕ)
    → digits (λ b. 0) min n (suc a / 2) (pow2 0 - 1) ≡ suc a / 2 % pow2 0
    → digits (λ b. 0) min (suc n) (suc a) (pow2 0 - 1) ≡ suc a % pow2 0
unfolding pow2
ones_none n a ih = omega (arith, ih)

ones_more :
    (k n a : ℕ)
    → digits (λ b. 0) min n (suc a / 2) (pow2 k - 1) ≡ suc a / 2 % pow2 k
    → digits (λ b. 0) min (suc n) (suc a) (pow2 (suc k) - 1) ≡ suc a % pow2 (suc k)
unfolding pow2
ones_more k n a ih =
    let half : (pow2 k * 2 - 1) / 2 ≡ pow2 k - 1 = omega (arith, pow2_pos k) in
    let odd : (pow2 k * 2 - 1) % 2 ≡ 1 = omega (arith, pow2_pos k) in
    rw (half, odd, ih, mod_double (suc a) (pow2 k) (pow2_pos k)) (omega arith)

-- The digits of a number below a power of two, which the mask of ones keeps.
mask_digits : (k n a : ℕ) → a ≤ n → digits (λ b. 0) min n a (pow2 k - 1) ≡ a % pow2 k
mask_digits k zero zero h = sym (Nat.zero-mod (pow2 k))
mask_digits k zero (suc a) h = absurd (omega (arith, h))
mask_digits k (suc n) zero h = sym (Nat.zero-mod (pow2 k))
mask_digits zero (suc n) (suc a) h =
    ones_none n a (mask_digits zero n (suc a / 2) (omega (arith, h)))
mask_digits (suc k) (suc n) (suc a) h =
    ones_more k n a (mask_digits k n (suc a / 2) (omega (arith, h)))

pub bit_and-mask : (k a : ℕ) → bit_and a (pow2 k - 1) ≡ a % pow2 k
bit_and-mask k a = bit_and-bitwise a (pow2 k - 1) ∙ mask_digits k a a (omega arith)

pub pow2_mono : (j k : ℕ) → j ≤ k → pow2 j ≤ pow2 k
unfolding pow2
pow2_mono zero k h = pow2_pos k
pow2_mono (suc j) zero h = absurd (omega (arith, h))
pow2_mono (suc j) (suc k) h = omega (arith, pow2_mono j k (omega (arith, h)))

pow2-divides : (n k : ℕ) → k ≤ n → pow2 k ∣ pow2 n
unfolding pow2
pow2-divides zero zero h = Nat.dvd_refl 1
pow2-divides zero (suc k) h = absurd (omega (arith, h))
pow2-divides (suc n) k h = elim (Bool-cases (ltb n k)) [
  | inl last ↦
      let same : k ≡ suc n = omega (arith, h, ltb→lt _ _ last) in
      subst (λ m. pow2 k ∣ pow2 m) same (Nat.dvd_refl (pow2 k))
  | inr below ↦ Nat.dvd-mul_right_of_dvd (pow2 k) (pow2-divides n k (ltb_false→le _ _ below)) 2
]

-- The powers of two up to `2 ^ 63` divide the larger ones.
divides : (n k : ℕ) → 63 ≤ n → pow2 k ≤ 2 ^ 63 → pow2 k ∣ pow2 n
divides n k large fits = elim (Bool-cases (ltb 63 k)) [
  | inl above ↦
      let more : 2 ^ 64 ≤ pow2 k = (unfold pow2 in pow2_mono 64 k (ltb→lt _ _ above)) in
      absurd (omega (arith, more, fits))
  | inr below ↦ pow2-divides n k (omega (arith, large, ltb_false→le _ _ below))
]

-- What wraps around at 64 bits, or at 63, has the residue that the exact number has.
pub wrapped : (k a : ℕ) → pow2 k ≤ 2 ^ 63 → a % 2 ^ 64 % pow2 k ≡ a % pow2 k
unfolding pow2
wrapped k a fits = Nat.mod-mod_of_dvd (pow2 k) a (divides 64 k (omega arith) fits)

pub wrapped_half : (k a : ℕ) → pow2 k ≤ 2 ^ 63 → a % 2 ^ 63 % pow2 k ≡ a % pow2 k
unfolding pow2
wrapped_half k a fits = Nat.mod-mod_of_dvd (pow2 k) a (divides 63 k (omega arith) fits)

-- What a policy promises in a table of `pow2 k` slots: its probes stay in the table, and reach each
-- slot of up to `2 ^ 63` from any `h1` with any odd `h2`.
pub record IsProbing (probe : ℕ → ℕ → ℕ → ℕ → ℕ) : Type 0 where
  pub in_range : (k h1 h2 i : ℕ) → probe h1 h2 i (pow2 k) < pow2 k
  pub covers :
      (k h1 h2 s : ℕ)
      → pow2 k ≤ 2 ^ 63
      → h1 < pow2 k
      → h2 % 2 ≡ 1
      → s < pow2 k
      → (i : ℕ) × (i < pow2 k) × (probe h1 h2 i (pow2 k) ≡ s)

-- From `h1` on around the table to `s`.
pub around : (p h1 s : ℕ) → h1 < p → s < p → (i : ℕ) × (i < p) × ((h1 + i) % p ≡ s)
around p h1 s h k = elim (Bool-cases (ltb s h1)) [
  | inl before ↦
      let less = ltb→lt _ _ before in
      let turn : h1 + (s + p - h1) ≡ s + p = omega (arith, h, less) in
      (
        s + p - h1,
        omega (arith, h, less),
        ap (λ n. n % p) turn ∙ Nat.add-mod_right s p ∙ Nat.mod-eq_of_lt k,
      )
  | inr after ↦
      let ahead = ltb_false→le _ _ after in
      let straight : h1 + (s - h1) ≡ s = omega (arith, ahead) in
      (s - h1, omega (arith, k), ap (λ n. n % p) straight ∙ Nat.mod-eq_of_lt k)
]

pub linear-IsProbing : IsProbing linear_probe
unfolding linear_probe
linear-IsProbing = record {
  in_range = λ k h1 h2 i.
      subst (λ n. n < pow2 k) (sym (bit_and-mask k ((h1 + i) % 2 ^ 64)))
        (Nat.mod-lt ((h1 + i) % 2 ^ 64) (pow2_pos k));
  covers = λ k h1 h2 s fits h odd within.
      let (i, small, ends) = around (pow2 k) h1 s h within in
      (i, small, bit_and-mask k ((h1 + i) % 2 ^ 64) ∙ wrapped k (h1 + i) fits ∙ ends);
}
