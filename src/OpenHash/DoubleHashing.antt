-- ===== src/OpenHash/DoubleHashing.antt =====
-- The policy `DoubleHashing` of include/openhash.hpp: an odd step has an inverse modulo each power of
-- two, so the probes reach each slot.
use native.Mathlib.Nat
use de_si_gnar.Prelude.{
  ℕ, zero, suc, ◌+◌, ◌-◌, ◌*◌, ◌/◌, ◌%◌, ◌^◌, ◌<◌, ◌≡◌, ◌∙◌, sym, ap, subst, ◌⊎◌, inl, inr, arith,
}
use de_si_gnar.NumberTheory.Power.{mod_mul}
use de_si_gnar.OpenHash.{double_probe}
use de_si_gnar.OpenHash.Probe.{pow2, pow2-suc, pow2_pos, bit_and-mask, wrapped, around, IsProbing}

-- `u * h ≡ 1` modulo `pow2 k`, with the quotient.
record HasInverse (h k : ℕ) : Type 0 where
  inverse : ℕ
  quotient : ℕ
  product : inverse * h ≡ 1 + pow2 k * quotient

parity : (q : ℕ) → (q % 2 ≡ 0) ⊎ (q % 2 ≡ 1)
parity q = ground arith

-- An odd number has an inverse modulo each power of two.
odd-HasInverse : (h k : ℕ) → h % 2 ≡ 1 → HasInverse h k
odd-HasInverse h zero odd = record {
  inverse = 1;
  quotient = h - 1;
  product = (unfold pow2 in omega (arith, odd));
}
odd-HasInverse h (suc k) odd =
    let i = odd-HasInverse h k odd in
    let p = pow2 k in
    elim (parity i.quotient) [
      | inl even ↦ record {
        inverse = i.inverse;
        quotient = i.quotient / 2;
        product =
            let half : i.quotient ≡ i.quotient / 2 * 2 = omega (arith, even) in
            i.product
            ∙ ap (λ n. 1 + p * n) half
            ∙ ap (λ n. 1 + n) (sym (twice p (i.quotient / 2)))
            ∙ ap (λ n. 1 + n * (i.quotient / 2)) (sym (pow2-suc k));
      }
      | inr uneven ↦ record {
        inverse = i.inverse + p;
        quotient = (i.quotient + h) / 2;
        product =
            let half : i.quotient + h ≡ (i.quotient + h) / 2 * 2 = omega (arith, uneven, odd) in
            Nat.add-mul i.inverse p h
            ∙ ap (λ n. n + p * h) i.product
            ∙ Nat.add_assoc 1 (p * i.quotient) (p * h)
            ∙ ap (λ n. 1 + n)
                (sym (Nat.mul-add p i.quotient h)
                  ∙ ap (λ n. p * n) half
                  ∙ sym (twice p ((i.quotient + h) / 2)))
            ∙ ap (λ n. 1 + n * ((i.quotient + h) / 2)) (sym (pow2-suc k));
      }
    ]
  where
    twice : (p n : ℕ) → p * 2 * n ≡ p * (n * 2)
    twice p n = grind arith

-- The number of steps of length `h` that lead from 0 to `d` modulo `pow2 k`.
steps : (h k d : ℕ) → h % 2 ≡ 1 → d < pow2 k → (i : ℕ) × (i < pow2 k) × (i * h % pow2 k ≡ d)
steps h k d odd small =
    let u = odd-HasInverse h k odd in
    let p = pow2 k in
    let whole : d * u.inverse * h ≡ d + p * (d * u.quotient) =
      Nat.mul_assoc d u.inverse h ∙ ap (λ n. d * n) u.product ∙ spread d p u.quotient in
    (
      d * u.inverse % p,
      Nat.mod-lt (d * u.inverse) (pow2_pos k),
      mod_mul p (d * u.inverse) h
          ∙ ap (λ n. n % p) whole
          ∙ Nat.add-mul-mod_self_left d p (d * u.quotient)
          ∙ Nat.mod-eq_of_lt small,
    )
  where
    spread : (d p q : ℕ) → d * (1 + p * q) ≡ d + p * (d * q)
    spread d p q = grind arith

pub double-IsProbing : IsProbing double_probe
unfolding double_probe
double-IsProbing = record {
  in_range = λ k h1 h2 i.
      subst (λ n. n < pow2 k) (sym (bit_and-mask k ((h1 + i * h2) % 2 ^ 64)))
        (Nat.mod-lt ((h1 + i * h2) % 2 ^ 64) (pow2_pos k));
  covers = λ k h1 h2 s fits h odd within.
      let (d, small, ends) = around (pow2 k) h1 s h within in
      let (i, few, lands) = steps h2 k d odd small in
      (
        i,
        few,
        bit_and-mask k ((h1 + i * h2) % 2 ^ 64)
            ∙ wrapped k (h1 + i * h2) fits
            ∙ sym (Nat.add-mod-mod h1 (i * h2) (pow2 k))
            ∙ ap (λ n. (h1 + n) % pow2 k) lands
            ∙ ends,
      );
}
