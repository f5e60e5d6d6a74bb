-- ===== src/Permutation.antt =====
-- Rearrangements: what a permutation of a list keeps.
use de_si_gnar.Prelude.{ℕ, ◌≡◌, ◌∙◌, refl, ap, subst, List, [], ◌∷◌, ◌++◌, All, length, append-nil}
use mathlib.Core.Logic.{∥∥₁_elim}
use mathlib.Core.HLevel.{×_prop, Unit-prop}
use mathlib.Core.List.{Perm, Permᴰ, perm_middle}
use mathlib.Core.List.Perm
use native.Mathlib.Nat.{ℕ_set}

module _ {ℓ} {A : Type ℓ} where
  length_of_permᴰ : {xs ys : List A} → Permᴰ xs ys → length xs ≡ length ys
  length_of_permᴰ Permᴰ.nil = refl
  length_of_permᴰ (Permᴰ.cons e p) = ap ℕ.suc (length_of_permᴰ p)
  length_of_permᴰ (Permᴰ.swap e f) = refl
  length_of_permᴰ (Permᴰ.trans p q) = length_of_permᴰ p ∙ length_of_permᴰ q

  pub length-perm : {xs ys : List A} → Perm xs ys → length xs ≡ length ys
  length-perm p = ∥∥₁_elim p (ℕ_set _ _) length_of_permᴰ

  module _ {κ} (P : A → Type κ) where
    All-of_permᴰ : {xs ys : List A} → Permᴰ xs ys → All P xs → All P ys
    All-of_permᴰ Permᴰ.nil h = tt
    All-of_permᴰ (Permᴰ.cons e p) h = (subst P e h.0, All-of_permᴰ p h.1)
    All-of_permᴰ (Permᴰ.swap e f) h = (subst P f h.1.0, (subst P e h.0, h.1.1))
    All-of_permᴰ (Permᴰ.trans p q) h = All-of_permᴰ q (All-of_permᴰ p h)

    All-prop : ((a : A) → IsProp (P a)) → (xs : List A) → IsProp (All P xs)
    All-prop pP [] = Unit-prop
    All-prop pP (x ∷ xs) = ×_prop (pP x) (All-prop pP xs)

    -- What holds of all members holds of all members of a rearrangement.
    pub All-perm : ((a : A) → IsProp (P a)) → {xs ys : List A} → Perm xs ys → All P xs → All P ys
    All-perm pP {ys = ys} p h = ∥∥₁_elim p (All-prop pP ys) (λ d. All-of_permᴰ d h)

  pub perm_swap_append : (xs ys zs : List A) → Perm (xs ++ (ys ++ zs)) (ys ++ (xs ++ zs))
  perm_swap_append [] ys zs = Perm.rfl
  perm_swap_append (x ∷ xs) ys zs =
      Perm.trans (Perm.cons x (perm_swap_append xs ys zs)) (Perm.symm (perm_middle ys (xs ++ zs)))

  pub perm_append_comm : (xs ys : List A) → Perm (xs ++ ys) (ys ++ xs)
  perm_append_comm [] ys = rw (append-nil ys) Perm.rfl
  perm_append_comm (x ∷ xs) ys =
      Perm.trans (Perm.cons x (perm_append_comm xs ys)) (Perm.symm (perm_middle ys xs))

  pub perm_of_append_nil : (xs l : List A) → Perm xs (l ++ []) → Perm xs l
  perm_of_append_nil xs l p = subst (Perm xs) (append-nil l) p
