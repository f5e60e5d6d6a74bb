-- ===== src/RankedAvl/Verify.antt =====
-- `RankedAVLTree::verify` (include/avltree.hpp), against the balance invariant, the stored counts and
-- the order of the keys.
use de_si_gnar.Prelude.{
  ◌+◌, ◌≡◌, ◌∙◌, refl, sym, Bool, true, and-true, not, ◌&&◌, arith, ◌==◌, ==_iff,
}
use de_si_gnar.Prelude.Int.{pos, ltb_ℤ, abs_ℤ, ◌+ℤ◌, max_ℤ, eq_ℤ}
use de_si_gnar.Compare.{Compare}
use de_si_gnar.Ordered.{IsSorted}
use de_si_gnar.Nodes.{null, node, inorder}
use de_si_gnar.Avl
use de_si_gnar.Avl.Verify.{verify-IsAvl, verify-accepts}
use de_si_gnar.RankedAvl.{
  RkInfo, RkNode, height, count, balance_factor, before_root, after_root, verify_node,
}
use de_si_gnar.RankedAvl.Erase.{erase, inorder-erase, height-erase, balance_factor-erase}
use de_si_gnar.RankedAvl.Count.{IsCounted}
use de_si_gnar.RankedAvl.Join.{IsRankedAvl}

module _ {ℓ} {K : Type ℓ} ⦃o : Compare K⦄ where
  before_root-erase : (l : RkNode K) (x : K) → Avl.before_root (erase l) x ≡ before_root l x
  before_root-erase null x = refl
  before_root-erase (node m l y r) x = refl

  after_root-erase : (x : K) (r : RkNode K) → Avl.after_root x (erase r) ≡ after_root x r
  after_root-erase x null = refl
  after_root-erase x (node m l y r) = refl

  -- With a right count, the checks at a node are those of `AVLTree::verify`.
  verify-erase_root :
      (m : RkInfo) (l : RkNode K) (x : K) (r : RkNode K) (a b : Bool)
      → verify_node l ≡ a
      → verify_node r ≡ b
      → Avl.verify_node (erase l) ≡ a
      → Avl.verify_node (erase r) ≡ b
      → (m.stored_count == count l + count r + 1) ≡ true
      → verify_node (node m l x r) ≡ Avl.verify_node (erase (node m l x r))
  unfolding verify_node Avl.verify_node
  verify-erase_root m l x r a b el er al ar counted =
      rw
        (
          el,
          er,
          al,
          ar,
          counted,
          sym (balance_factor-erase (node m l x r)),
          height-erase l,
          height-erase r,
          before_root-erase l x,
          after_root-erase x r,
        )
        (and_true
          (a
            && b
            && not (ltb_ℤ (pos 1) (abs_ℤ (balance_factor (node m l x r))))
            && eq_ℤ m.stored_height (pos 1 +ℤ max_ℤ (height l) (height r)))
          (before_root l x) (after_root x r))
    where
      and_true : (p q s : Bool) → (p && true && q && s) ≡ (p && q && s)
      and_true p q s = ground arith

  -- At a tree with right counts the check is that of `AVLTree`.
  pub verify-erase : (t : RkNode K) → IsCounted t → verify_node t ≡ Avl.verify_node (erase t)
  unfolding verify_node Avl.verify_node
  verify-erase null c = refl
  verify-erase (node m l x r) c =
      verify-erase_root m l x r _ _ (verify-erase l c.1) (verify-erase r c.2) refl refl
        ((==_iff _ _).1 c.0)

  -- A tree that `verify` accepts stores right counts.
  verify-IsCounted : (t : RkNode K) → verify_node t ≡ true → IsCounted t
  unfolding verify_node
  verify-IsCounted null v = tt
  verify-IsCounted (node m l x r) v =
      let six = and-true _ (after_root x r) v in
      let five = and-true _ (before_root l x) six.0 in
      let four = and-true _ (m.stored_count == count l + count r + 1) five.0 in
      let three = and-true _ (eq_ℤ m.stored_height (pos 1 +ℤ max_ℤ (height l) (height r))) four.0 in
      let two = and-true _ (not (ltb_ℤ (pos 1) (abs_ℤ (balance_factor (node m l x r))))) three.0 in
      let one = and-true (verify_node l) (verify_node r) two.0 in
      ((==_iff _ _).0 four.1, verify-IsCounted l one.0, verify-IsCounted r one.1)

  -- A tree that `verify` of `RankedAVLTree` accepts is balanced with right heights, and
  -- stores right counts.
  pub verify_sound : (t : RkNode K) → verify_node t ≡ true → IsRankedAvl t × IsCounted t
  verify_sound t v =
      let c = verify-IsCounted t v in (verify-IsAvl (erase t) (sym (verify-erase t c) ∙ v), c)

  -- `verify` of `RankedAVLTree` accepts each tree that is balanced with right heights, stores
  -- right counts and has ascending keys.
  pub verify_complete :
      (t : RkNode K) → IsRankedAvl t → IsCounted t → IsSorted (inorder t) → verify_node t ≡ true
  verify_complete t a c s = verify-erase t c ∙ verify-accepts (erase t) a (rw (inorder-erase t) s)
