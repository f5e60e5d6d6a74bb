-- ===== src/Prelude/Updates.antt =====
-- A write into an array, which is a list: out of range, it changes nothing.
use Prim.Native.Nat.{ℕ, zero, suc, ◌+◌}
use mathlib.Core.Path.{◌≡◌, refl, ap}
use mathlib.Core.Option.{some}
use mathlib.Core.List.{List, [], ◌∷◌}
use native.Mathlib.Omega.{arith}
use de_si_gnar.Prelude.Lists.{get_elem?, length}
use de_si_gnar.Prelude.Options.{some_inj}

module _ {ℓ} {A : Type ℓ} where
  -- `a[i] = x`.
  unfoldable pub set : List A → ℕ → A → List A
  set [] i y = []
  set (x ∷ xs) zero y = y ∷ xs
  set (x ∷ xs) (suc i) y = x ∷ set xs i y

  pub get_elem?-set :
      (xs : List A) (i : ℕ) (x y : A) → get_elem? xs i ≡ some x → get_elem? (set xs i y) i ≡ some y
  unfolding set
  get_elem?-set [] i x y h = cc
  get_elem?-set (a ∷ xs) zero x y h = refl
  get_elem?-set (a ∷ xs) (suc i) x y h = get_elem?-set xs i x y h

  pub get_elem?-set_other :
      (xs : List A) (i j : ℕ) (y : A) → ¬ (j ≡ i) → get_elem? (set xs i y) j ≡ get_elem? xs j
  unfolding set
  get_elem?-set_other [] i j y h = refl
  get_elem?-set_other (a ∷ xs) zero zero y h = absurd (h refl)
  get_elem?-set_other (a ∷ xs) zero (suc j) y h = refl
  get_elem?-set_other (a ∷ xs) (suc i) zero y h = refl
  get_elem?-set_other (a ∷ xs) (suc i) (suc j) y h =
      get_elem?-set_other xs i j y (λ e. h (ap suc e))

  pub length-set : (xs : List A) (i : ℕ) (y : A) → length (set xs i y) ≡ length xs
  unfolding set
  length-set [] i y = refl
  length-set (a ∷ xs) zero y = refl
  length-set (a ∷ xs) (suc i) y = ap suc (length-set xs i y)

  -- The sum of a weight over the members.
  abbrev pub tally : (A → ℕ) → List A → ℕ
  tally f [] = 0
  tally f (x ∷ xs) = f x + tally f xs

  pub tally-set :
      (f : A → ℕ) (xs : List A) (i : ℕ) (x y : A)
      → get_elem? xs i ≡ some x
      → tally f (set xs i y) + f x ≡ tally f xs + f y
  unfolding set
  tally-set f [] i x y h = cc
  tally-set f (a ∷ xs) zero x y h = rw (some_inj h) (omega arith)
  tally-set f (a ∷ xs) (suc i) x y h = omega (arith, tally-set f xs i x y h)
