-- ===== src/RbTree/Shape.antt =====
-- The red-black invariant of include/rbtree.hpp, and `balance` at a root whose subtrees keep it.
use de_si_gnar.Prelude.{ℕ, zero, suc, ◌≡◌, ◌∙◌, refl, ap, Bool, true, false, ◌&&◌, not}
use de_si_gnar.Nodes.{null, node, left, right, generic_rotate_left, generic_rotate_right}
use de_si_gnar.RbTree.{
  RbColor, red, black, RbNode, is_red, flipped, flip, flip_colors, rotate_left, rotate_right,
  lean_left, lift_reds, split_reds, balance,
}

pub and_false : (a b : Bool) → a ≡ false → (a && b) ≡ false
and_false a b h = rw h refl

pub false_and : (a b : Bool) → b ≡ false → (a && b) ≡ false
false_and false b h = refl
false_and true b h = h

module _ {ℓ} {K : Type ℓ} where
  -- The subtree has `n` black nodes on each path, no red node has a red child, and no right child is
  -- red. The root may be red.
  abbrev pub IsRb : RbNode K → ℕ → Type 0
  IsRb null n = n ≡ 0
  IsRb (node red l x r) n = (is_red l ≡ false) × (is_red r ≡ false) × IsRb l n × IsRb r n
  IsRb (node black l x r) zero = false ≡ true
  IsRb (node black l x r) (suc n) = (is_red r ≡ false) × IsRb l n × IsRb r n

  -- The same, but a red root may have a red left child, as an insertion below it leaves it.
  abbrev pub IsLoose : RbNode K → ℕ → Type 0
  IsLoose null n = n ≡ 0
  IsLoose (node red l x r) n = (is_red r ≡ false) × IsRb l n × IsRb r n
  IsLoose (node black l x r) n = IsRb (node black l x r) n

  pub IsRb-IsLoose : (t : RbNode K) (n : ℕ) → IsRb t n → IsLoose t n
  IsRb-IsLoose null n h = h
  IsRb-IsLoose (node red l x r) n h = (h.1, h.2, h.3)
  IsRb-IsLoose (node black l x r) n h = h

  lean_same : (h : RbNode K) → (is_red (right h) && not (is_red (left h))) ≡ false → lean_left h ≡ h
  unfolding lean_left
  lean_same h e = rw e refl

  lift_same : (h : RbNode K) → (is_red (left h) && is_red (left (left h))) ≡ false → lift_reds h ≡ h
  unfolding lift_reds
  lift_same h e = rw e refl

  split_same : (h : RbNode K) → (is_red (left h) && is_red (right h)) ≡ false → split_reds h ≡ h
  unfolding split_reds
  split_same h e = rw e refl

  staged :
      (h h' h'' t : RbNode K)
      → lean_left h ≡ h'
      → lift_reds h' ≡ h''
      → split_reds h'' ≡ t
      → balance h ≡ t
  unfolding balance
  staged h h' h'' t p q r = ap (λ h. split_reds (lift_reds h)) p ∙ ap split_reds q ∙ r

  -- What `balance` does: nothing, a rotation to the left, a split, or a rotation to the right and a
  -- split.
  module _ (c : RbColor) (x : K) where
    pub balance_same :
        (l r : RbNode K)
        → is_red r ≡ false
        → (is_red l && is_red (left l)) ≡ false
        → balance (node c l x r) ≡ node c l x r
    balance_same l r hr hl =
        let h = node c l x r in
        staged h h h h (lean_same h (and_false _ _ hr)) (lift_same h hl)
          (split_same h (false_and _ _ hr))

    pub balance_lean :
        (l a : RbNode K) (z : K) (d : RbNode K)
        → is_red l ≡ false
        → is_red d ≡ false
        → balance (node c l x (node red a z d)) ≡ node c (node red l x a) z d
    balance_lean l a z d hl hd =
        let h = node c (node red l x a) z d in
        staged (node c l x (node red a z d)) h h h
          (unfold lean_left rotate_left generic_rotate_left in rw hl refl) (lift_same h hl)
          (split_same h hd)

    pub balance_split :
        (a : RbNode K) (y : K) (b d : RbNode K) (z : K) (e : RbNode K)
        → is_red a ≡ false
        → balance (node c (node red a y b) x (node red d z e))
          ≡ node (flipped c) (node black a y b) x (node black d z e)
    balance_split a y b d z e ha =
        let h = node c (node red a y b) x (node red d z e) in
        staged h h h (node (flipped c) (node black a y b) x (node black d z e)) (lean_same h refl)
          (lift_same h ha) (unfold split_reds flip_colors flip in refl)

    pub balance_lift :
        (a : RbNode K) (y : K) (b : RbNode K) (z : K) (e r : RbNode K)
        → is_red r ≡ false
        → balance (node c (node red (node red a y b) z e) x r)
          ≡ node (flipped c) (node black a y b) z (node black e x r)
    balance_lift a y b z e r hr =
        let h = node c (node red (node red a y b) z e) x r in
        staged h h (node c (node red a y b) z (node red e x r))
          (node (flipped c) (node black a y b) z (node black e x r))
          (lean_same h (and_false _ _ hr))
          (unfold lift_reds rotate_right generic_rotate_right in refl)
          (unfold split_reds flip_colors flip in refl)

  -- A black root over two subtrees that keep the invariant, whatever their colors: the root becomes
  -- red where both are.
  pub balance_black :
      (l : RbNode K) (x : K) (r : RbNode K) (n : ℕ)
      → IsRb l n
      → IsRb r n
      → IsRb (balance (node black l x r)) (suc n)
        × (is_red (balance (node black l x r)) ≡ (is_red l && is_red r))
  balance_black (node red a y b) x (node red c z d) n hl hr =
      rw (balance_split black x a y b c z d hl.0)
        ((refl, refl, (hl.1, hl.2, hl.3), (hr.1, hr.2, hr.3)), refl)
  balance_black (node red a y b) x (node black c z d) n hl hr =
      rw (balance_same black x (node red a y b) (node black c z d) refl hl.0) ((refl, hl, hr), refl)
  balance_black (node red a y b) x null n hl hr =
      rw (balance_same black x (node red a y b) null refl hl.0) ((refl, hl, hr), refl)
  balance_black (node black a y b) x (node red c z d) n hl hr =
      rw (balance_lean black x (node black a y b) c z d refl hr.1)
        ((hr.1, (refl, hr.0, hl, hr.2), hr.3), refl)
  balance_black null x (node red c z d) n hl hr =
      rw (balance_lean black x null c z d refl hr.1) ((hr.1, (refl, hr.0, hl, hr.2), hr.3), refl)
  balance_black (node black a y b) x (node black c z d) n hl hr =
      rw (balance_same black x (node black a y b) (node black c z d) refl refl)
        ((refl, hl, hr), refl)
  balance_black (node black a y b) x null n hl hr =
      rw (balance_same black x (node black a y b) null refl refl) ((refl, hl, hr), refl)
  balance_black null x (node black c z d) n hl hr =
      rw (balance_same black x null (node black c z d) refl refl) ((refl, hl, hr), refl)
  balance_black null x null n hl hr =
      rw (balance_same black x null null refl refl) ((refl, hl, hr), refl)
