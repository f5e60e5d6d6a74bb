-- ===== src/Heaps/Leftist/Merge.antt =====
-- `merge` of include/leftistheap.hpp: the equations of the source, and the keys.
use de_si_gnar.Prelude.{
  ◌≡◌, refl, ap, Bool, true, false, Bool-cases, ◌⊎◌, inl, inr, List, [], ◌∷◌, ◌++◌, append_assoc,
  append-nil, not, if◌then◌else◌,
}
use de_si_gnar.Compare.{Compare}
use de_si_gnar.Permutation.{perm_swap_append, perm_append_comm}
use de_si_gnar.Heaps.Leftist.{LeftistNode, nil, node, attach, stays, merge_flagged, merge}
use de_si_gnar.Prelude.Int.{ℤ, pos, ◌+ℤ◌, ltb_ℤ}
use de_si_gnar.Heaps.Leftist.{npl_of}
use mathlib.Core.List.{Perm, perm_middle}
use mathlib.Core.List.Perm

module _ {ℓ} {K : Type ℓ} where
  abbrev pub keys : LeftistNode K → List K
  keys nil = []
  keys (node n l x r) = x ∷ (keys l ++ keys r)

  -- `attach` changes the sides, or keeps them.
  pub attach_cases :
      (x : K) (l r : LeftistNode K)
      → ((attach x l r ≡ node (npl_of l +ℤ pos 1) r x l) × (ltb_ℤ (npl_of l) (npl_of r) ≡ true))
        ⊎ ((attach x l r ≡ node (npl_of r +ℤ pos 1) l x r) × (ltb_ℤ (npl_of l) (npl_of r) ≡ false))
  unfolding attach
  attach_cases x l r = elim (Bool-cases (ltb_ℤ (npl_of l) (npl_of r))) [
    | inl swap ↦ inl (rw (swap, attach) refl, swap)
    | inr keep ↦ inr (rw (keep, attach) refl, keep)
  ]

  pub keys-attach :
      (x : K) (l r : LeftistNode K) → Perm (keys (attach x l r)) (x ∷ (keys l ++ keys r))
  keys-attach x l r = elim (attach_cases x l r) [
    | inl (e, _) ↦ rw e (Perm.cons x (perm_append_comm (keys r) (keys l)))
    | inr (e, _) ↦ rw e Perm.rfl
  ]

module _ {ℓ} {K : Type ℓ} ⦃o : Compare K⦄ where
  stays-not : (flag : Bool) (x y : K) → stays (not flag) y x ≡ not (stays flag x y)
  stays-not false x y = not_not (o.cmp y x)
    where
      not_not : (b : Bool) → b ≡ not (not b)
      not_not false = refl
      not_not true = refl
  stays-not true x y = refl

  -- The flag stands for the order of the arguments.
  flag-swap :
      (flag : Bool) (a b : LeftistNode K) → merge_flagged flag a b ≡ merge_flagged (not flag) b a
  unfolding merge_flagged
  flag-swap flag nil nil = refl
  flag-swap flag nil (node n e y f) = refl
  flag-swap flag (node m c x d) nil = refl
  flag-swap flag (node m c x d) (node n e y f) = elim (Bool-cases (stays flag x y)) [
    | inl up ↦
        rw (stays-not flag x y, up, merge_flagged)
          (ap (attach x c) (flag-swap false d (node n e y f)))
    | inr down ↦
        rw (stays-not flag x y, down, merge_flagged)
          (ap (attach y e) (flag-swap true (node m c x d) f))
  ]

  -- `merge` satisfies the recursive equations of the source: with `nullptr` on either side it
  -- gives the other heap; otherwise, the second root stays on top where it comes before the
  -- first and the first does where not, and the right child below it is merged with the other
  -- heap, that child first.
  pub merge_equation :
      (m n : ℤ) (c d e f : LeftistNode K) (x y : K)
      → (merge nil (node n e y f) ≡ node n e y f)
        × (merge (node m c x d) nil ≡ node m c x d)
        × (merge (node m c x d) (node n e y f) ≡ (
            if o.cmp y x
            then attach y e (merge f (node m c x d))
            else attach x c (merge d (node n e y f))))
  unfolding merge merge_flagged
  merge_equation m n c d e f x y = (
    refl,
    refl,
    elim (Bool-cases (o.cmp y x)) [
      | inl second ↦ rw (second, merge_flagged) (ap (attach y e) (flag-swap true (node m c x d) f))
      | inr first ↦ rw (first, merge_flagged) refl
    ],
  )

  -- The keys of both heaps, on either side.
  pub flagged-keys :
      (flag : Bool) (a b : LeftistNode K) → Perm (keys (merge_flagged flag a b)) (keys a ++ keys b)
  unfolding merge_flagged
  flagged-keys flag nil b = Perm.rfl
  flagged-keys flag (node m c x d) nil = rw (append-nil (keys (node m c x d))) Perm.rfl
  flagged-keys flag (node m c x d) (node n e y f) = elim (Bool-cases (stays flag x y)) [
    | inl up ↦
        rw (up, merge_flagged)
          (Perm.trans (keys-attach x c (merge_flagged false d (node n e y f))) (
            Perm.cons x (
              rw (append_assoc (keys c) (keys d) (keys (node n e y f)))
                (Perm.append_left (keys c) (flagged-keys false d (node n e y f))))))
    | inr down ↦
        rw (down, merge_flagged)
          (Perm.trans (keys-attach y e (merge_flagged true (node m c x d) f)) (
            Perm.trans
              (Perm.cons y (
                Perm.trans (Perm.append_left (keys e) (flagged-keys true (node m c x d) f))
                  (perm_swap_append (keys e) (keys (node m c x d)) (keys f))))
              (Perm.symm (perm_middle (keys (node m c x d)) (keys e ++ keys f)))))
  ]

  -- `merge` gathers the keys of both heaps.
  pub keys-merge : (a b : LeftistNode K) → Perm (keys (merge a b)) (keys a ++ keys b)
  unfolding merge
  keys-merge a b = flagged-keys false a b
