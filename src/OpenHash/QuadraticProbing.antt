-- ===== src/OpenHash/QuadraticProbing.antt =====
-- The policy `QuadraticProbing` of include/openhash.hpp: the triangular numbers reach each residue
-- modulo a power of two.
use native.Mathlib.Nat
use de_si_gnar.Prelude.{
  ℕ, zero, suc, ◌+◌, ◌-◌, ◌*◌, ◌/◌, ◌%◌, ◌^◌, ◌<◌, ◌≤◌, ◌≡◌, ◌∙◌, refl, sym, ap, subst, ◌⊎◌, inl,
  inr, arith, Bool-cases, ◌==◌, ==_iff, ==_ne, ltb, ltb→lt, ltb_false→le,
}
use de_si_gnar.OpenHash.{quadratic_probe}
use de_si_gnar.OpenHash.Probe.{
  pow2, pow2-suc, pow2_pos, bit_and-mask, wrapped, wrapped_half, around, IsProbing,
}

triangle : ℕ → ℕ
triangle zero = 0
triangle (suc n) = triangle n + suc n

twice_triangle : (n : ℕ) → n * (n + 1) ≡ triangle n * 2
unfolding triangle
twice_triangle zero = omega (arith, Nat.zero-mul (0 + 1))
twice_triangle (suc n) =
    let expand : suc n * (suc n + 1) ≡ n * (n + 1) + suc n * 2 = grind arith in
    omega (arith, expand, twice_triangle n)

triangle_half : (n : ℕ) → n * (n + 1) % 2 ^ 64 / 2 ≡ triangle n % 2 ^ 63
triangle_half n = omega (arith, twice_triangle n)

-- The triangle of the number that mirrors `i` below `m + 1`.
mirror : (m i : ℕ) → i ≤ m → triangle (m - i) + suc m * i ≡ triangle i + triangle m
unfolding triangle
mirror m zero h =
    let same : triangle (m - 0) ≡ triangle m = ap triangle (omega arith) in
    omega (arith, same, Nat.mul-zero (suc m))
mirror m (suc i) h =
    let less : m - i ≡ suc (m - suc i) = omega (arith, h) in
    omega (arith, mirror m i (omega (arith, h)), ap triangle less, Nat.mul-suc (suc m) i, h)

-- A number below `p * 2` modulo `p`.
one_off : (p r : ℕ) → r < p * 2 → ((r < p) × (r % p ≡ r)) ⊎ ((p ≤ r) × (r % p ≡ r - p))
one_off p r h = elim (Bool-cases (ltb r p)) [
  | inl low ↦ let small = ltb→lt _ _ low in inl (small, Nat.mod-eq_of_lt small)
  | inr high ↦
      let large = ltb_false→le _ _ high in
      inr (large, Nat.mod-eq-sub-mod large ∙ Nat.mod-eq_of_lt (omega (arith, h, large)))
]

-- Two numbers with one residue modulo `p` that differ modulo `p * 2` are `p` apart there.
apart : (p r d : ℕ) → r < p * 2 → d < p * 2 → r % p ≡ d % p → ¬ (r ≡ d) → (r + p) % (p * 2) ≡ d
apart p r d hr hd same other = elim (one_off p r hr) [
  | inl low ↦ elim (one_off p d hd) [
    | inl low' ↦ absurd (other (omega (arith, low, low', same)))
    | inr high' ↦
        let sum : r + p ≡ d = omega (arith, low, high', same) in
        ap (λ n. n % (p * 2)) sum ∙ Nat.mod-eq_of_lt hd
  ]
  | inr high ↦ elim (one_off p d hd) [
    | inl low' ↦
        let sum : r + p ≡ d + p * 2 = omega (arith, high, low', same) in
        ap (λ n. n % (p * 2)) sum ∙ Nat.add-mod_right d (p * 2) ∙ Nat.mod-eq_of_lt hd
    | inr high' ↦ absurd (other (omega (arith, high, high', same)))
  ]
]

triangle_top : (q : ℕ) → triangle (suc q * 2 - 1) ≡ suc q + suc q * 2 * q
triangle_top q =
    let top : suc q * 2 - 1 ≡ suc (q * 2) = omega (arith) in
    let expand : suc (q * 2) * (suc (q * 2) + 1) ≡ (suc q + suc q * 2 * q) * 2 = grind arith in
    ap triangle top ∙ omega (arith, twice_triangle (suc (q * 2)), expand)

last_triangle : (p : ℕ) → 0 < p → triangle (p * 2 - 1) ≡ p + p * 2 * (p - 1)
last_triangle zero h = omega (arith, h)
last_triangle (suc q) _ =
    let less : suc q - 1 ≡ q = omega (arith) in
    triangle_top q ∙ ap (λ n. suc q + suc q * 2 * n) (sym less)

-- The mirrored number is `p` further modulo `p * 2`.
mirrored :
    (p i : ℕ)
    → 0 < p
    → i < p
    → triangle (p * 2 - 1 - i) % (p * 2) ≡ (triangle i % (p * 2) + p) % (p * 2)
mirrored p i hp hi =
    let m = p * 2 - 1 in
    let whole : suc m ≡ p * 2 = omega (arith, hp) in
    let top : triangle m ≡ p + p * 2 * (p - 1) = last_triangle p hp in
    let sum : triangle (m - i) + p * 2 * i ≡ (triangle i + p) + p * 2 * (p - 1) =
      ap (λ n. triangle (m - i) + n * i) (sym whole)
      ∙ mirror m i (omega (arith, hi))
      ∙ omega (arith, top) in
    sym (Nat.add-mul-mod_self_left (triangle (m - i)) (p * 2) i)
    ∙ ap (λ n. n % (p * 2)) sum
    ∙ Nat.add-mul-mod_self_left (triangle i + p) (p * 2) (p - 1)
    ∙ sym (Nat.mod-add-mod (triangle i) (p * 2) p)

-- Modulo the next power of two, one of a number and its mirror gives each of two residues.
reaches : (k d : ℕ) → d < pow2 k → (i : ℕ) × (i < pow2 k) × (triangle i % pow2 k ≡ d)
reaches zero d h =
    let one : pow2 0 ≡ 1 = (unfold pow2 in refl) in
    (0, pow2_pos 0, subst (λ n. triangle 0 % n ≡ d) (sym one) (omega (arith, h, one)))
reaches (suc k) d h =
    let p = pow2 k in
    let small : d < p * 2 = omega (arith, h, pow2-suc k) in
    let (i, below, residue) = reaches k (d % p) (Nat.mod-lt d (pow2_pos k)) in
    let r = triangle i % (p * 2) in
    let r_small : r < p * 2 = Nat.mod-lt (triangle i) (omega (arith, pow2_pos k)) in
    let same : r % p ≡ d % p =
      Nat.mod-mod_of_dvd p (triangle i) (Nat.dvd-mul_right p 2) ∙ residue in
    elim (Bool-cases (r == d)) [
      | inl hit ↦ (
        i,
        omega (arith, below, pow2-suc k),
        subst (λ n. triangle i % n ≡ d) (sym (pow2-suc k)) ((==_iff r d).0 hit),
      )
      | inr miss ↦ (
        p * 2 - 1 - i,
        omega (arith, pow2-suc k, pow2_pos k),
        subst (λ n. triangle (p * 2 - 1 - i) % n ≡ d) (sym (pow2-suc k))
            (mirrored p i (pow2_pos k) below ∙ apart p r d r_small small same (==_ne r d miss)),
      )
    ]

pub quadratic-IsProbing : IsProbing quadratic_probe
unfolding quadratic_probe
quadratic-IsProbing = record {
  in_range = λ k h1 h2 i.
      subst (λ n. n < pow2 k) (sym (bit_and-mask k ((h1 + i * (i + 1) % 2 ^ 64 / 2) % 2 ^ 64)))
        (Nat.mod-lt ((h1 + i * (i + 1) % 2 ^ 64 / 2) % 2 ^ 64) (pow2_pos k));
  covers = λ k h1 h2 s fits h odd within.
      let (d, small, ends) = around (pow2 k) h1 s h within in
      let (i, few, lands) = reaches k d small in
      (
        i,
        few,
        bit_and-mask k ((h1 + i * (i + 1) % 2 ^ 64 / 2) % 2 ^ 64)
            ∙ wrapped k (h1 + i * (i + 1) % 2 ^ 64 / 2) fits
            ∙ ap (λ n. (h1 + n) % pow2 k) (triangle_half i)
            ∙ sym (Nat.add-mod-mod h1 (triangle i % 2 ^ 63) (pow2 k))
            ∙ ap (λ n. (h1 + n) % pow2 k) (wrapped_half k (triangle i) fits)
            ∙ ap (λ n. (h1 + n) % pow2 k) lands
            ∙ ends,
      );
}
