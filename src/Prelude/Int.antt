-- ===== src/Prelude/Int.antt =====
-- `int_t`: signed integers over the native numbers.
use Prim.Native.Nat.{ℕ, zero, suc, ◌+◌, ◌-◌, max}
use mathlib.Core.Path.{◌≡◌, refl}
use mathlib.Core.Bool.{Bool, true, ◌||◌}
use native.Mathlib.Omega.{arith}
use de_si_gnar.Prelude.Tests.{ltb, leb, ◌==◌, if◌then◌else◌}

-- `negsuc n` is -(n + 1).
pub data ℤ : Type 0 where
  pos : ℕ → ℤ
  negsuc : ℕ → ℤ

abbrev pub pos_part : ℤ → ℕ
pos_part (pos n) = n
pos_part (negsuc n) = 0

abbrev pub neg_part : ℤ → ℕ
neg_part (pos n) = 0
neg_part (negsuc n) = suc n

abbrev pub sub_ℕ : ℕ → ℕ → ℤ
sub_ℕ a b = if leb b a then pos (a - b) else negsuc (b - a - 1)

infixl 65 ◌+ℤ◌ ◌-ℤ◌
unfoldable pub ◌+ℤ◌ : ℤ → ℤ → ℤ
a +ℤ b = sub_ℕ (pos_part a + pos_part b) (neg_part a + neg_part b)

unfoldable pub ◌-ℤ◌ : ℤ → ℤ → ℤ
a -ℤ b = sub_ℕ (pos_part a + neg_part b) (neg_part a + pos_part b)

-- The tests `a < b` and `a == b`, and `std::max`.
unfoldable pub ltb_ℤ : ℤ → ℤ → Bool
ltb_ℤ a b = ltb (pos_part a + neg_part b) (pos_part b + neg_part a)

unfoldable pub eq_ℤ : ℤ → ℤ → Bool
eq_ℤ a b = pos_part a + neg_part b == pos_part b + neg_part a

unfoldable pub max_ℤ : ℤ → ℤ → ℤ
unfolding ltb_ℤ
max_ℤ a b = if ltb_ℤ a b then b else a

-- `std::abs`.
unfoldable pub abs_ℤ : ℤ → ℤ
unfolding ltb_ℤ ◌-ℤ◌
abs_ℤ a = if ltb_ℤ a (pos 0) then pos 0 -ℤ a else a

-- A number, less one: the height that goes with a number of levels.
abbrev pub int_pred : ℕ → ℤ
int_pred zero = negsuc 0
int_pred (suc n) = pos n

pub int_pred-max : (a b : ℕ) → pos 1 +ℤ max_ℤ (int_pred a) (int_pred b) ≡ int_pred (suc (max a b))
unfolding ◌+ℤ◌ max_ℤ
int_pred-max zero zero = refl
int_pred-max zero (suc b) = ground arith
int_pred-max (suc a) zero = ground arith
int_pred-max (suc a) (suc b) = ground arith

-- The tests that balancing makes on a difference of heights, as tests on levels.
pub lt-int_pred_sub : (k a b : ℕ) → ltb_ℤ (pos k) (int_pred a -ℤ int_pred b) ≡ ltb (b + k) a
unfolding ltb_ℤ ◌-ℤ◌
lt-int_pred_sub k zero zero = ground arith
lt-int_pred_sub k zero (suc b) = ground arith
lt-int_pred_sub k (suc a) zero = ground arith
lt-int_pred_sub k (suc a) (suc b) = ground arith

pub int_pred_sub-lt_neg :
    (k a b : ℕ) → ltb_ℤ (int_pred a -ℤ int_pred b) (negsuc k) ≡ ltb (a + suc k) b
unfolding ltb_ℤ ◌-ℤ◌
int_pred_sub-lt_neg k zero zero = ground arith
int_pred_sub-lt_neg k zero (suc b) = ground arith
int_pred_sub-lt_neg k (suc a) zero = ground arith
int_pred_sub-lt_neg k (suc a) (suc b) = ground arith

pub int_pred_sub-lt_zero : (a b : ℕ) → ltb_ℤ (int_pred a -ℤ int_pred b) (pos 0) ≡ ltb a b
unfolding ltb_ℤ ◌-ℤ◌
int_pred_sub-lt_zero zero zero = ground arith
int_pred_sub-lt_zero zero (suc b) = ground arith
int_pred_sub-lt_zero (suc a) zero = ground arith
int_pred_sub-lt_zero (suc a) (suc b) = ground arith

pub abs-int_pred_sub :
    (a b : ℕ) → ltb_ℤ (pos 1) (abs_ℤ (int_pred a -ℤ int_pred b)) ≡ (ltb (b + 1) a || ltb (a + 1) b)
unfolding ltb_ℤ abs_ℤ ◌-ℤ◌
abs-int_pred_sub zero zero = ground arith
abs-int_pred_sub zero (suc b) = ground arith
abs-int_pred_sub (suc a) zero = ground arith
abs-int_pred_sub (suc a) (suc b) = ground arith

pub eq_ℤ→eq : (a b : ℤ) → eq_ℤ a b ≡ true → a ≡ b
unfolding eq_ℤ
eq_ℤ→eq (pos m) (pos n) h = ground arith
eq_ℤ→eq (pos m) (negsuc n) h = ground arith
eq_ℤ→eq (negsuc m) (pos n) h = ground arith
eq_ℤ→eq (negsuc m) (negsuc n) h = ground arith

pub eq_ℤ-refl : (a : ℤ) → eq_ℤ a a ≡ true
unfolding eq_ℤ
eq_ℤ-refl a = ground arith

-- The test with which a join finds the higher side.
pub int_pred-far : (a b : ℕ) → ltb_ℤ (int_pred a +ℤ pos 1) (int_pred b) ≡ ltb (a + 1) b
unfolding ltb_ℤ ◌+ℤ◌
int_pred-far zero zero = ground arith
int_pred-far zero (suc b) = ground arith
int_pred-far (suc a) zero = ground arith
int_pred-far (suc a) (suc b) = ground arith
