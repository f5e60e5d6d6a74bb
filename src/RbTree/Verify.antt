-- ===== src/RbTree/Verify.antt =====
-- `RbTree::verify` (include/rbtree.hpp), the check that the tests run, against the red-black
-- invariant and the order of the keys.
use de_si_gnar.Prelude.{
  ℕ, zero, suc, ◌+◌, ◌==◌, ◌≡◌, refl, sym, ap, subst, Bool, true, false, ◌&&◌, ◌||◌, not,
  if◌then◌else◌, ◌∷◌, All, All-of_append, arith, and-true, true-and, not_or, ==_iff,
}
use de_si_gnar.Compare.{Compare, ◌≺◌}
use de_si_gnar.Ordered.{IsSorted}
use de_si_gnar.Ordered.Split.{IsSorted-split}
use de_si_gnar.Nodes.{null, node, inorder}
use de_si_gnar.RbTree.{RbColor, red, black, RbNode, is_red}
use de_si_gnar.RbTree.Shape.{IsRb}
use de_si_gnar.RbTree.Container.{
  RbTree, verify, verify_order, verify_no_red_right, black_height, ordered_left, ordered_right,
}
use de_si_gnar.RbTree.Container.Laws.{IsValid, IsBlack}

flag_off : (b : Bool) → not b ≡ true → b ≡ false
flag_off b h = ground arith

module _ {ℓ} {K : Type ℓ} where
  -- The root of a tree whose tests all hold.
  IsRb-root :
      (c : RbColor) (l : RbNode K) (x : K) (r : RbNode K) (n : ℕ)
      → (is_red (node c l x r) && (is_red l || is_red r)) ≡ false
      → is_red r ≡ false
      → IsRb l n
      → IsRb r n
      → IsRb (node c l x r) (if is_red (node c l x r) then n else n + 1)
  IsRb-root red l x r n calm hr gl gr =
      let both = not_or (is_red l) (is_red r) (rw calm refl) in (both.0, hr, gl, gr)
  IsRb-root black l x r n calm hr gl gr =
      let more : suc n ≡ n + 1 = omega arith in subst (IsRb (node black l x r)) more (hr, gl, gr)

  -- What `black_height` and the flag `ok` say of a subtree without red right links.
  black_height-IsRb :
      (t : RbNode K) (ok : Bool)
      → (black_height t ok).1 ≡ true
      → verify_no_red_right t ≡ true
      → (ok ≡ true) × IsRb t (black_height t ok).0
  unfolding black_height verify_no_red_right
  black_height-IsRb null ok h g = (h, refl)
  black_height-IsRb (node c l x r) ok h g =
      let calm = not (is_red (node c l x r) && (is_red l || is_red r)) in
      let left = black_height l (ok && calm) in
      let right = black_height r left.1 in
      let same = and-true right.1 (left.0 == right.0) h in
      let two = and-true (not (is_red r) && verify_no_red_right l) (verify_no_red_right r) g in
      let one = and-true (not (is_red r)) (verify_no_red_right l) two.0 in
      let at_r = black_height-IsRb r left.1 same.0 two.1 in
      let at_l = black_height-IsRb l (ok && calm) at_r.0 one.1 in
      let here = and-true ok calm at_l.0 in
      let equal : right.0 ≡ left.0 = sym ((==_iff left.0 right.0).0 same.1) in
      (
        here.0,
        IsRb-root c l x r left.0 (flag_off _ here.1) (flag_off _ one.0) at_l.1
            (subst (IsRb r) equal at_r.1),
      )

  -- What `black_height` and `verify_no_red_right` say where the invariant holds.
  black_height-true :
      (t : RbNode K) (n : ℕ)
      → IsRb t n
      → (black_height t true ≡ (n, true)) × (verify_no_red_right t ≡ true)
  unfolding black_height verify_no_red_right
  black_height-true null n h = (ap (λ m. (m, true)) (sym h), refl)
  black_height-true (node red l x r) n h =
      let at_l = black_height-true l n h.2 in
      let at_r = black_height-true r n h.3 in
      (rw (h.0, h.1, at_l.0, at_r.0, (==_iff n n).1 refl) refl, rw (h.1, at_l.1, at_r.1) refl)
  black_height-true (node black l x r) zero h = cc
  black_height-true (node black l x r) (suc n) h =
      let at_l = black_height-true l n h.1 in
      let at_r = black_height-true r n h.2 in
      (
        rw (at_l.0, at_r.0, (==_iff n n).1 refl) (ap (λ m. (m, true)) (omega arith)),
        rw (h.0, at_l.1, at_r.1) refl,
      )

module _ {ℓ} {K : Type ℓ} ⦃o : Compare K⦄ where
  -- A tree that `verify` accepts keeps the red-black invariant, under a black root.
  pub verify-IsBlack : (t : RbTree K) → verify t ≡ true → IsBlack t.root
  unfolding verify
  verify-IsBlack t h =
      let three =
        and-true (not (is_red t.root) && (black_height t.root true).1 && verify_order t.root)
          (verify_no_red_right t.root) h in
      let two =
        and-true (not (is_red t.root) && (black_height t.root true).1) (verify_order t.root)
          three.0 in
      let one = and-true (not (is_red t.root)) (black_height t.root true).1 two.0 in
      let shape = black_height-IsRb t.root true one.1 three.1 in
      ((black_height t.root true).0, shape.1, flag_off _ one.0)

  ordered_left-true :
      (l : RbNode K) (x : K) → All (λ a. a ≺ x) (inorder l) → ordered_left l x ≡ true
  ordered_left-true null x b = refl
  ordered_left-true (node h l y r) x b =
      (All-of_append (λ a. a ≺ x) (inorder l) (y ∷ inorder r) b).1.0

  ordered_right-true :
      (x : K) (r : RbNode K) → All (λ a. x ≺ a) (inorder r) → ordered_right x r ≡ true
  ordered_right-true x null b = refl
  ordered_right-true x (node h l y r) b =
      (All-of_append (λ a. x ≺ a) (inorder l) (y ∷ inorder r) b).1.0

  verify_order-true : (t : RbNode K) → IsSorted (inorder t) → verify_order t ≡ true
  unfolding verify_order
  verify_order-true null s = refl
  verify_order-true (node c l x r) s =
      let (below, above, sl, sr) = IsSorted-split (inorder l) x (inorder r) s in
      rw (ordered_left-true l x below, ordered_right-true x r above)
        (true-and _ _ (verify_order-true l sl) (verify_order-true r sr))

  -- `verify` accepts each valid tree.
  pub verify-accepts_valid : (t : RbTree K) → IsValid t → verify t ≡ true
  unfolding verify
  verify-accepts_valid t v =
      let (n, g, b) = v.colored in
      let heights = black_height-true t.root n g in
      rw (b, heights.0, heights.1, verify_order-true t.root v.sorted) refl
