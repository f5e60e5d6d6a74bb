-- ===== src/Compare.antt =====
-- The comparison object `Cmp` that every ordered container of include/ takes (by default
-- `std::less<Key>`), which is not code of the repository: a Boolean test with the laws of a strict
-- weak order, which the C++ standard asks of it.
use de_si_gnar.Prelude.{ℕ, ◌≡◌, Bool, true, false, arith, ltb, Bool-cases, inl, inr}

pub record IsStrictWeak {ℓ} {K : Type ℓ} (cmp : K → K → Bool) : Type ℓ where
  pub irrefl : (a : K) → cmp a a ≡ false
  pub trans : (a b c : K) → cmp a b ≡ true → cmp b c ≡ true → cmp a c ≡ true
  pub neg_trans : (a b c : K) → cmp a b ≡ false → cmp b c ≡ false → cmp a c ≡ false

pub record Compare {ℓ} (K : Type ℓ) : Type ℓ where
  pub cmp : K → K → Bool
  pub lawful : IsStrictWeak cmp
  pub open lawful use *

module _ {ℓ} {K : Type ℓ} ⦃o : Compare K⦄ where
  infix 50 ◌≺◌ ◌≼◌
  abbrev pub ◌≺◌ : K → K → Type 0
  a ≺ b = o.cmp a b ≡ true

  -- Not after: `b` does not come strictly before `a`.
  abbrev pub ◌≼◌ : K → K → Type 0
  a ≼ b = o.cmp b a ≡ false

  pub asymm : (a b : K) → a ≺ b → o.cmp b a ≡ false
  asymm a b h = elim (Bool-cases (o.cmp b a)) [
    | inl back ↦ ground (arith, o.trans a b a h back, o.irrefl a)
    | inr no_back ↦ no_back
  ]

  pub lt-le_trans : (a b c : K) → a ≺ b → b ≼ c → a ≺ c
  lt-le_trans a b c h k = elim (Bool-cases (o.cmp a c)) [
    | inl done ↦ done
    | inr stop ↦ ground (arith, o.neg_trans a c b stop k)
  ]

  pub le-lt_trans : (a b c : K) → a ≼ b → b ≺ c → a ≺ c
  le-lt_trans a b c h k = elim (Bool-cases (o.cmp a c)) [
    | inl done ↦ done
    | inr stop ↦ ground (arith, o.neg_trans b a c h stop)
  ]

  pub le_trans : (a b c : K) → a ≼ b → b ≼ c → a ≼ c
  le_trans a b c h k = o.neg_trans c b a k h

pub ltb-IsStrictWeak : IsStrictWeak ltb
ltb-IsStrictWeak = record {
  irrefl = λ a. ground arith;
  trans = λ a b c h k. ground arith;
  neg_trans = λ a b c h k. ground arith;
}

-- `std::less<nat_t>`.
instance abbrev pub nat_less : Compare ℕ
nat_less = record { cmp = ltb; lawful = ltb-IsStrictWeak }
