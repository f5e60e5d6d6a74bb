-- ===== src/NumberTheory/Gcd.antt =====
-- `gcd` of include/numbertheory.hpp: the loop ends, with the greatest common divisor.
use de_si_gnar.Prelude.{
  ℕ, zero, suc, ◌<◌, ◌%◌, ◌==◌, ==_iff, ==_ne, ◌≡◌, refl, Bool-cases, inl, inr, Option, some, arith,
}
use Prim.Native.Nat.{◌∣◌}
use native.Mathlib.Nat
use de_si_gnar.NumberTheory.{gcd_loop, gcd}

-- `g` divides both, and what divides both divides `g`.
pub record IsGreatest (a b : ℕ) (res : Option ℕ) : Type 0 where
  pub divisor : ℕ
  pub result : res ≡ some divisor
  pub left : divisor ∣ a
  pub right : divisor ∣ b
  pub greatest : (k : ℕ) → k ∣ a → k ∣ b → k ∣ divisor

gcd_loop-IsGreatest : (fuel a b : ℕ) → b < fuel → IsGreatest a b (gcd_loop fuel a b)
unfolding gcd_loop
gcd_loop-IsGreatest zero a b h = absurd (omega arith)
gcd_loop-IsGreatest (suc fuel) a b h = elim (Bool-cases (b == 0)) [
  | inl e ↦
      let none_left : b ≡ 0 = (==_iff b 0).0 e in
      record {
        divisor = a;
        result = rw (e) refl;
        left = Nat.dvd_refl a;
        right = rw none_left (Nat.dvd-zero a);
        greatest = λ k ha hb. ha;
      }
  | inr e ↦
      let some_left : ¬ (b ≡ 0) = ==_ne b 0 e in
      let less : a % b < b = Nat.mod-lt a (omega (arith, some_left)) in
      let rest = gcd_loop-IsGreatest fuel b (a % b) (omega (arith, less, h)) in
      record {
        divisor = rest.divisor;
        result = rw (e) rest.result;
        left = (Nat.dvd-mod_iff rest.divisor rest.left).0 rest.right;
        right = rest.left;
        greatest = λ k ha hb. rest.greatest k hb ((Nat.dvd-mod_iff k hb).1 ha);
      }
]

-- `gcd` ends, with a common divisor that every common divisor divides.
pub gcd-IsGreatest : (a b : ℕ) → IsGreatest a b (gcd a b)
unfolding gcd
gcd-IsGreatest a b = gcd_loop-IsGreatest (suc b) a b (omega arith)
