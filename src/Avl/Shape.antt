-- ===== src/Avl/Shape.antt =====
-- The balance invariant of include/avltree.hpp, and the rotations of `balance` at a root whose
-- two subtrees keep it.
use de_si_gnar.Prelude.{
  ℕ, suc, ◌+◌, ◌≤◌, ◌<◌, ◌≡◌, ◌∙◌, refl, ap, arith, max, ltb, lt→ltb, le→ltb_false,
}
use de_si_gnar.Prelude.Int.{
  ℤ, pos, negsuc, ◌+ℤ◌, max_ℤ, ltb_ℤ, int_pred, int_pred-max, lt-int_pred_sub, int_pred_sub-lt_neg,
  int_pred_sub-lt_zero,
}
use de_si_gnar.Nodes.{null, node, generic_rotate_left, generic_rotate_right}
use de_si_gnar.Avl.{
  AvlNode, height, update_height, balance_factor, rotate_left, rotate_right, rebalance, balance,
}

module _ {ℓ} {K : Type ℓ} where
  -- The nodes on the longest path, whatever the stored heights say.
  abbrev pub levels : AvlNode K → ℕ
  levels null = 0
  levels (node h l x r) = suc (max (levels l) (levels r))

  -- A node's stored height is right, and its subtrees differ by at most one level.
  abbrev pub IsAvl : AvlNode K → Type 0
  IsAvl null = Unit
  IsAvl (node h l x r) =
      (h ≡ int_pred (suc (max (levels l) (levels r))))
      × (levels l ≤ levels r + 1)
      × (levels r ≤ levels l + 1)
      × IsAvl l
      × IsAvl r

  pub height-levels : (t : AvlNode K) → IsAvl t → height t ≡ int_pred (levels t)
  height-levels null h = refl
  height-levels (node h l x r) a = a.0

  pub expected_height :
      (l r : AvlNode K)
      → IsAvl l
      → IsAvl r
      → pos 1 +ℤ max_ℤ (height l) (height r) ≡ int_pred (suc (max (levels l) (levels r)))
  expected_height l r al ar =
      rw (height-levels l al, height-levels r ar) (int_pred-max (levels l) (levels r))

  -- A root with the height that belongs to its subtrees.
  abbrev pub rooted : AvlNode K → K → AvlNode K → AvlNode K
  rooted l x r = node (int_pred (suc (max (levels l) (levels r)))) l x r

  -- Stored heights are right.
  abbrev pub IsMeasured : AvlNode K → Type 0
  IsMeasured t = height t ≡ int_pred (levels t)

  module _ (h : ℤ) (l : AvlNode K) (x : K) (r : AvlNode K) (ml : IsMeasured l)
      (mr : IsMeasured r) where
    pub update_height-rooted : update_height (node h l x r) ≡ rooted l x r
    unfolding update_height
    update_height-rooted = rw (ml, mr, int_pred-max)

    pub left_heavy : ltb_ℤ (pos 1) (balance_factor (node h l x r)) ≡ ltb (levels r + 1) (levels l)
    unfolding balance_factor
    left_heavy = rw (ml, mr) (lt-int_pred_sub 1 (levels l) (levels r))

    pub right_heavy :
        ltb_ℤ (balance_factor (node h l x r)) (negsuc 0) ≡ ltb (levels l + 1) (levels r)
    unfolding balance_factor
    right_heavy = rw (ml, mr) (int_pred_sub-lt_neg 0 (levels l) (levels r))

    pub leans_right : ltb_ℤ (balance_factor (node h l x r)) (pos 0) ≡ ltb (levels l) (levels r)
    unfolding balance_factor
    leans_right = rw (ml, mr) (int_pred_sub-lt_zero (levels l) (levels r))

    pub leans_left : ltb_ℤ (pos 0) (balance_factor (node h l x r)) ≡ ltb (levels r) (levels l)
    unfolding balance_factor
    leans_left =
        rw (ml, mr)
          (lt-int_pred_sub 0 (levels l) (levels r) ∙ ap (λ n. ltb n (levels l)) (omega arith))

  rotate_right-rooted :
      (h hl : ℤ) (a : AvlNode K) (y : K) (b : AvlNode K) (x : K) (r : AvlNode K)
      → IsMeasured a
      → IsMeasured b
      → IsMeasured r
      → rotate_right (node h (node hl a y b) x r) ≡ rooted a y (rooted b x r)
  unfolding rotate_right generic_rotate_right
  rotate_right-rooted h hl a y b x r ma mb mr =
      rw (update_height-rooted h b x r mb mr) (update_height-rooted hl a y (rooted b x r) ma refl)

  rotate_left-rooted :
      (h hr : ℤ) (l : AvlNode K) (x : K) (a : AvlNode K) (y : K) (b : AvlNode K)
      → IsMeasured l
      → IsMeasured a
      → IsMeasured b
      → rotate_left (node h l x (node hr a y b)) ≡ rooted (rooted l x a) y b
  unfolding rotate_left generic_rotate_left
  rotate_left-rooted h hr l x a y b ml ma mb =
      rw (update_height-rooted h l x a ml ma) (update_height-rooted hr (rooted l x a) y b refl mb)

  -- No rotation where the subtrees differ by one level at most.
  pub balance_even :
      (h : ℤ) (l : AvlNode K) (x : K) (r : AvlNode K)
      → IsMeasured l
      → IsMeasured r
      → levels l ≤ levels r + 1
      → levels r ≤ levels l + 1
      → balance (node h l x r) ≡ rooted l x r
  unfolding balance rebalance
  balance_even h l x r ml mr hl hr = rw (update_height-rooted h l x r ml mr) (
      let k = int_pred (suc (max (levels l) (levels r))) in
      rw (left_heavy k l x r ml mr, right_heavy k l x r ml mr)
        (rw (le→ltb_false _ _ hl) (rw (le→ltb_false _ _ hr) refl)))

  -- The left-left and the left-right case.
  pub balance_left_left :
      (h : ℤ) (a : AvlNode K) (y : K) (b : AvlNode K) (x : K) (r : AvlNode K)
      → IsMeasured a
      → IsMeasured b
      → IsMeasured r
      → levels r + 1 < levels (rooted a y b)
      → levels b ≤ levels a
      → balance (node h (rooted a y b) x r) ≡ rooted a y (rooted b x r)
  unfolding balance rebalance
  balance_left_left h a y b x r ma mb mr heavy lean =
      let l = rooted a y b in
      rw (update_height-rooted h l x r refl mr) (
        let k = int_pred (suc (max (levels l) (levels r))) in
        rw (left_heavy k l x r refl mr, leans_right _ a y b ma mb)
          (rw (lt→ltb _ _ heavy)
            (rw (le→ltb_false _ _ lean) (rotate_right-rooted _ _ a y b x r ma mb mr))))

  pub balance_left_right :
      (h hb : ℤ) (a : AvlNode K) (y : K) (c : AvlNode K) (z : K) (d : AvlNode K) (x : K)
      (r : AvlNode K)
      → IsMeasured a
      → IsMeasured (node hb c z d)
      → IsMeasured c
      → IsMeasured d
      → IsMeasured r
      → levels r + 1 < levels (rooted a y (node hb c z d))
      → levels a < levels (node hb c z d)
      → balance (node h (rooted a y (node hb c z d)) x r) ≡ rooted (rooted a y c) z (rooted d x r)
  unfolding balance rebalance
  balance_left_right h hb a y c z d x r ma mb mc md mr heavy lean =
      let l = rooted a y (node hb c z d) in
      rw (update_height-rooted h l x r refl mr) (
        let k = int_pred (suc (max (levels l) (levels r))) in
        rw (left_heavy k l x r refl mr, leans_right _ a y (node hb c z d) ma mb)
          (rw (lt→ltb _ _ heavy) (
            rw (lt→ltb _ _ lean) (
              rw (rotate_left-rooted _ hb a y c z d ma mc md)
                (rotate_right-rooted _ _ (rooted a y c) z d x r refl md mr)))))

  -- The right-right and the right-left case.
  pub balance_right_right :
      (h : ℤ) (l : AvlNode K) (x : K) (a : AvlNode K) (y : K) (b : AvlNode K)
      → IsMeasured l
      → IsMeasured a
      → IsMeasured b
      → levels l + 1 < levels (rooted a y b)
      → levels a ≤ levels b
      → balance (node h l x (rooted a y b)) ≡ rooted (rooted l x a) y b
  unfolding balance rebalance
  balance_right_right h l x a y b ml ma mb heavy lean =
      let r = rooted a y b in
      rw (update_height-rooted h l x r ml refl) (
        let k = int_pred (suc (max (levels l) (levels r))) in
        rw (left_heavy k l x r ml refl, right_heavy k l x r ml refl, leans_left _ a y b ma mb)
          (rw (le→ltb_false (levels r + 1) (levels l) (omega arith)) (
            rw (lt→ltb _ _ heavy)
              (rw (le→ltb_false _ _ lean) (rotate_left-rooted _ _ l x a y b ml ma mb)))))

  pub balance_right_left :
      (h ha : ℤ) (l : AvlNode K) (x : K) (c : AvlNode K) (z : K) (d : AvlNode K) (y : K)
      (b : AvlNode K)
      → IsMeasured l
      → IsMeasured (node ha c z d)
      → IsMeasured c
      → IsMeasured d
      → IsMeasured b
      → levels l + 1 < levels (rooted (node ha c z d) y b)
      → levels b < levels (node ha c z d)
      → balance (node h l x (rooted (node ha c z d) y b)) ≡ rooted (rooted l x c) z (rooted d y b)
  unfolding balance rebalance
  balance_right_left h ha l x c z d y b ml ma mc md mb heavy lean =
      let r = rooted (node ha c z d) y b in
      rw (update_height-rooted h l x r ml refl) (
        let k = int_pred (suc (max (levels l) (levels r))) in
        rw
          (
            left_heavy k l x r ml refl,
            right_heavy k l x r ml refl,
            leans_left _ (node ha c z d) y b ma mb,
          )
          (rw (le→ltb_false (levels r + 1) (levels l) (omega arith)) (
            rw (lt→ltb _ _ heavy) (
              rw (lt→ltb _ _ lean) (
                rw (rotate_right-rooted _ ha c z d y b mc md mb)
                  (rotate_left-rooted _ _ l x c z (rooted d y b) ml mc refl))))))
