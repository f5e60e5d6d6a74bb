-- ===== src/Avl/Verify.antt =====
-- `AVLTree::verify` (include/avltree.hpp), the check that the tests run, against the balance
-- invariant and the order of the keys.
use de_si_gnar.Prelude.{
  ◌+◌, ◌≡◌, ◌∙◌, refl, true, and-true, true-and, not_or, false_or, ◌||◌, not, ◌∷◌, All,
  All-of_append, arith, ltb, ltb_false→le, le→ltb_false,
}
use de_si_gnar.Prelude.Int.{
  ℤ, pos, ltb_ℤ, abs_ℤ, ◌-ℤ◌, ◌+ℤ◌, max_ℤ, eq_ℤ, abs-int_pred_sub, eq_ℤ→eq, eq_ℤ-refl,
}
use de_si_gnar.Compare.{Compare, ◌≺◌, asymm}
use de_si_gnar.Ordered.{IsSorted}
use de_si_gnar.Ordered.Split.{IsSorted-split}
use de_si_gnar.Nodes.{null, node, inorder}
use de_si_gnar.Avl.{AvlNode, height, balance_factor, verify_node, before_root, after_root}
use de_si_gnar.Avl.Shape.{levels, IsAvl, height-levels, expected_height}

module _ {ℓ} {K : Type ℓ} where
  abs-balance_factor :
      (h : ℤ) (l : AvlNode K) (x : K) (r : AvlNode K)
      → IsAvl l
      → IsAvl r
      → ltb_ℤ (pos 1) (abs_ℤ (balance_factor (node h l x r)))
        ≡ (ltb (levels r + 1) (levels l) || ltb (levels l + 1) (levels r))
  unfolding balance_factor
  abs-balance_factor h l x r al ar =
      rw (height-levels l al, height-levels r ar) (abs-int_pred_sub (levels l) (levels r))

module _ {ℓ} {K : Type ℓ} ⦃o : Compare K⦄ where
  -- The conjuncts of `verify` at a node, as the source tests them in turn.
  verified :
      (h : ℤ) (l : AvlNode K) (x : K) (r : AvlNode K)
      → verify_node (node h l x r) ≡ true
      → (verify_node l ≡ true)
        × (verify_node r ≡ true)
        × (not (ltb_ℤ (pos 1) (abs_ℤ (balance_factor (node h l x r)))) ≡ true)
        × (eq_ℤ h (pos 1 +ℤ max_ℤ (height l) (height r)) ≡ true)
  unfolding verify_node
  verified h l x r v =
      let five = and-true _ (after_root x r) v in
      let four = and-true _ (before_root l x) five.0 in
      let three = and-true _ (eq_ℤ h (pos 1 +ℤ max_ℤ (height l) (height r))) four.0 in
      let two = and-true _ (not (ltb_ℤ (pos 1) (abs_ℤ (balance_factor (node h l x r))))) three.0 in
      let one = and-true (verify_node l) (verify_node r) two.0 in (one.0, one.1, two.1, three.1)

  -- A tree that `verify` accepts is balanced with right heights.
  pub verify-IsAvl : (t : AvlNode K) → verify_node t ≡ true → IsAvl t
  unfolding verify_node
  verify-IsAvl null v = tt
  verify-IsAvl (node h l x r) v =
      let (vl, vr, balanced, measured) = verified h l x r v in
      let al = verify-IsAvl l vl in
      let ar = verify-IsAvl r vr in
      let (left, right) =
        not_or (ltb (levels r + 1) (levels l)) (ltb (levels l + 1) (levels r))
          (rw (abs-balance_factor h l x r al ar) at balanced) in
      (
        eq_ℤ→eq _ _ measured ∙ expected_height l r al ar,
        ltb_false→le _ _ left,
        ltb_false→le _ _ right,
        al,
        ar,
      )

  before_root-true : (l : AvlNode K) (x : K) → All (λ a. a ≺ x) (inorder l) → before_root l x ≡ true
  before_root-true null x b = refl
  before_root-true (node h l y r) x b =
      (All-of_append (λ a. a ≺ x) (inorder l) (y ∷ inorder r) b).1.0

  after_root-true : (x : K) (r : AvlNode K) → All (λ a. x ≺ a) (inorder r) → after_root x r ≡ true
  after_root-true x null b = refl
  after_root-true x (node h l y r) b =
      (All-of_append (λ a. x ≺ a) (inorder l) (y ∷ inorder r) b).1.0

  -- `verify` accepts each tree that is balanced with right heights and whose keys ascend.
  pub verify-accepts : (t : AvlNode K) → IsAvl t → IsSorted (inorder t) → verify_node t ≡ true
  unfolding verify_node
  verify-accepts null a s = refl
  verify-accepts (node h l x r) a s =
      let (below, above, sl, sr) = IsSorted-split (inorder l) x (inorder r) s in
      true-and _ _
        (true-and _ _
          (true-and _ _
            (true-and _ _ (true-and _ _ (verify-accepts l a.3 sl) (verify-accepts r a.4 sr)) (
              rw (abs-balance_factor h l x r a.3 a.4)
                (false_or _ _ (le→ltb_false _ _ a.1) (le→ltb_false _ _ a.2))))
            (rw (a.0, expected_height l r a.3 a.4) (eq_ℤ-refl _)))
          (before_root-true l x below))
        (after_root-true x r above)

  -- For any keys with `a` before `b` and `b` before `c` there is a tree with `c` in the left
  -- subtree of `b`, whose keys do not ascend, that `verify` accepts: it compares each key
  -- with its parent's only.
  pub verify_misses_order :
      (a b c : K)
      → a ≺ b
      → b ≺ c
      → let t =
          node
            (pos 2)
            (node (pos 1) null a (node (pos 0) null c null))
            b
            (node (pos 0) null c null) in
        (verify_node t ≡ true) × ¬ IsSorted (inorder t)
  unfolding verify_node balance_factor ltb_ℤ abs_ℤ ◌-ℤ◌ ◌+ℤ◌ max_ℤ eq_ℤ
  verify_misses_order a b c h k =
      (ground (arith, o.trans a b c h k), λ s. ground (arith, asymm b c k, s.1.0.0))
