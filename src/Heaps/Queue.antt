-- ===== src/Heaps/Queue.antt =====
-- The interface of a priority queue, which the mergeable heaps of include/ share, and a client:
-- taking out the least key until none is left.
use de_si_gnar.Prelude.{
  ℕ, zero, suc, ◌≤◌, ◌≡◌, refl, sym, Option, none, some, List, [], ◌∷◌, All, length, arith,
  nil_of_length,
}
use de_si_gnar.Compare.{Compare, ◌≼◌}
use de_si_gnar.Ordered.{IsSortedDup}
use de_si_gnar.Permutation.{length-perm, All-perm}
use mathlib.Core.Bool.{Bool-set}
use mathlib.Core.List.{Perm}
use mathlib.Core.List.Perm

module _ {ℓ} {K : Type ℓ} ⦃o : Compare K⦄ where
  -- `items` lists the keys in any order; `none` is the exception `std::underflow_error`.
  pub record IsPriorityQueue {κ} {Q : Type κ} (IsValid : Q → Type 0) (items : Q → List K)
      (empty : Q) (insert : Q → K → Q) (get_min : Q → Option K) (extract_min : Q → Option (Q × K))
      : Type (ℓ ⊔ κ) where
    pub empty_valid : IsValid empty
    pub empty_items : items empty ≡ []
    pub insert_valid : (q : Q) (k : K) → IsValid q → IsValid (insert q k)
    pub insert_items : (q : Q) (k : K) → IsValid q → Perm (items (insert q k)) (k ∷ items q)
    pub min_none : (q : Q) → IsValid q → items q ≡ [] → (get_min q ≡ none) × (extract_min q ≡ none)
    pub min_some :
        (q : Q) (x : K) (xs : List K)
        → IsValid q
        → items q ≡ x ∷ xs
        → (q' : Q) × (k : K) × (get_min q ≡ some k)
          × (extract_min q ≡ some (q', k))
          × IsValid q'
          × Perm (items q) (k ∷ items q')
          × All (λ y. k ≼ y) (items q')

  module _ {κ} {Q : Type κ} (extract_min : Q → Option (Q × K)) where
    abbrev drain_from : (Q → List K) → Option (Q × K) → List K
    drain_from rest none = []
    drain_from rest (some (q, k)) = k ∷ rest q

    -- `while (!h.is_empty()) out.append(h.extract_min());` with fuel.
    unfoldable pub drain : ℕ → Q → List K
    drain zero q = []
    drain (suc fuel) q = drain_from (drain fuel) (extract_min q)

  module _ {κ} {Q : Type κ} {IsValid : Q → Type 0} {items : Q → List K} {empty : Q}
      {insert : Q → K → Q} {get_min : Q → Option K} {extract_min : Q → Option (Q × K)}
      (p : IsPriorityQueue IsValid items empty insert get_min extract_min) where
    ≼_prop : (k y : K) → IsProp (k ≼ y)
    ≼_prop k y = Bool-set _ _

    abbrev IsDrained : ℕ → Q → Type ℓ
    IsDrained fuel q =
        IsSortedDup (drain extract_min fuel q) × Perm (drain extract_min fuel q) (items q)

    IsDrained-some :
        (fuel : ℕ) (q q' : Q) (k : K)
        → extract_min q ≡ some (q', k)
        → Perm (items q) (k ∷ items q')
        → All (λ y. k ≼ y) (items q')
        → IsDrained fuel q'
        → IsDrained (suc fuel) q
    unfolding drain
    IsDrained-some fuel q q' k out perm least d = rw out (
      (All-perm (λ y. k ≼ y) (≼_prop k) (Perm.symm d.1) least, d.0),
      Perm.trans (Perm.cons k d.1) (Perm.symm perm),
    )

    IsDrained-none : (fuel : ℕ) (q : Q) → items q ≡ [] → extract_min q ≡ none → IsDrained fuel q
    unfolding drain
    IsDrained-none zero q e out = (tt, rw e Perm.rfl)
    IsDrained-none (suc fuel) q e out = rw (out, e) (tt, Perm.rfl)

    drain_step :
        (fuel : ℕ)
        → ((q : Q) → IsValid q → length (items q) ≤ fuel → IsDrained fuel q)
        → (q : Q) (xs : List K) → IsValid q
        → items q ≡ xs
        → length (items q) ≤ suc fuel
        → IsDrained (suc fuel) q
    drain_step fuel rest q [] v e h = IsDrained-none (suc fuel) q e (p.min_none q v e).1
    drain_step fuel rest q (x ∷ xs) v e h =
        let (q', k, found, out, v', perm, least) = p.min_some q x xs v e in
        let shorter = length-perm perm in
        IsDrained-some fuel q q' k out perm least (rest q' v' (omega (arith, shorter, h)))

    -- With fuel for all keys, taking out the least key until none is left gives the keys in
    -- ascending order.
    pub drain_sorts :
        (fuel : ℕ) (q : Q)
        → IsValid q
        → length (items q) ≤ fuel
        → IsSortedDup (drain extract_min fuel q) × Perm (drain extract_min fuel q) (items q)
    drain_sorts zero q v h =
        let e = sym (nil_of_length (items q) (omega arith)) in
        IsDrained-none zero q e (p.min_none q v e).1
    drain_sorts (suc fuel) q v h = drain_step fuel (drain_sorts fuel) q (items q) v refl h
