-- ===== src/Avl/Height.antt =====
-- The height of an `AVLTree` (include/avltree.hpp) against the number of its keys.
use de_si_gnar.Prelude.{
  ℕ, zero, suc, ◌+◌, ◌/◌, ◌^◌, ◌≤◌, ◌≡◌, ap, arith, List, length, length-append, max, ◌∷◌,
  Bool-cases, inl, inr, ltb, ltb→lt, ltb_false→le,
}
use native.Mathlib.Nat.{pow-suc}
use de_si_gnar.Nodes.{null, node, inorder}
use de_si_gnar.Compare.{Compare}
use de_si_gnar.Prelude.Int.{int_pred}
use de_si_gnar.Avl.{AvlNode, height}
use de_si_gnar.Avl.Shape.{levels, IsAvl, height-levels}
use de_si_gnar.Avl.Container.{AvlTree}
use de_si_gnar.Avl.Container.Laws.{IsValid}
use de_si_gnar.Avl.Client.{Op, run, run_refines}

-- The least number of keys of a tree with so many levels.
abbrev least_keys : ℕ → ℕ
least_keys zero = 0
least_keys (suc zero) = 1
least_keys (suc (suc n)) = suc (least_keys (suc n) + least_keys n)

least_keys_step : (n : ℕ) → least_keys n ≤ least_keys (suc n)
least_keys_step zero = omega arith
least_keys_step (suc n) = omega arith

zero_of_le : (m : ℕ) → m ≤ 0 → m ≡ 0
zero_of_le m h = omega arith

least_keys_mono : (m n : ℕ) → m ≤ n → least_keys m ≤ least_keys n
least_keys_mono m zero h = rw (zero_of_le m h) (omega arith)
least_keys_mono m (suc n) h = elim (Bool-cases (ltb n m)) [
  | inl last ↦ let e : m ≡ suc n = omega (arith, ltb→lt _ _ last) in rw e (omega arith)
  | inr low ↦ omega (arith, least_keys_mono m n (ltb_false→le _ _ low), least_keys_step n)
]

-- A root over subtrees of `m` and `n` levels, the first no lower.
least_keys_root : (m n : ℕ) → m ≤ n + 1 → least_keys (suc m) ≤ suc (least_keys m + least_keys n)
least_keys_root zero n h = omega arith
least_keys_root (suc m) n h = omega (arith, least_keys_mono m n (omega arith))

pow-least_keys : (n : ℕ) → 2 ^ (n / 2) ≤ least_keys n + 1
pow-least_keys zero = omega arith
pow-least_keys (suc zero) = omega arith
pow-least_keys (suc (suc n)) =
    let half : suc (suc n) / 2 ≡ suc (n / 2) = omega arith in
    rw half (rw (pow-suc) (omega (arith, pow-least_keys n, least_keys_step n)))

module _ {ℓ} {K : Type ℓ} where
  least_keys-length : (t : AvlNode K) → IsAvl t → least_keys (levels t) ≤ length (inorder t)
  least_keys-length null a = omega arith
  least_keys-length (node h l x r) a =
      let sizes = (length-append (inorder l) (x ∷ inorder r)) in
      let left = least_keys-length l a.3 in
      let right = least_keys-length r a.4 in
      elim (Bool-cases (ltb (levels l) (levels r))) [
        | inl low ↦
            let e : max (levels l) (levels r) ≡ levels r = omega (arith, ltb→lt _ _ low) in
            rw (ap suc e)
              (omega (arith, sizes, left, right, least_keys_root (levels r) (levels l) a.2))
        | inr high ↦
            let e : max (levels l) (levels r) ≡ levels l = omega (arith, ltb_false→le _ _ high) in
            rw (ap suc e)
              (omega (arith, sizes, left, right, least_keys_root (levels l) (levels r) a.1))
      ]

  levels_logarithmic : (t : AvlNode K) → IsAvl t → 2 ^ (levels t / 2) ≤ length (inorder t) + 1
  levels_logarithmic t a = omega (arith, pow-least_keys (levels t), least_keys-length t a)

module _ {ℓ} {K : Type ℓ} ⦃o : Compare K⦄ where
  -- After any sequence of insertions, searches with insertion, removals and clearings from a valid
  -- tree, the height stored at the root is the number of levels less one, and with `h` levels
  -- `num_items` is at least 2 ^ (h / 2) - 1.
  pub height-run :
      (cs : List (Op K)) (t : AvlTree K)
      → IsValid t
      → (height (run cs t).root ≡ int_pred (levels (run cs t).root))
        × (2 ^ (levels (run cs t).root / 2) ≤ (run cs t).num_items + 1)
  height-run cs t v =
      let after = (run_refines cs t v).0 in
      (
        height-levels (run cs t).root after.avl,
        omega (arith, after.counts, levels_logarithmic (run cs t).root after.avl),
      )
