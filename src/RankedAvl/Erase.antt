-- ===== src/RankedAvl/Erase.antt =====
-- A `RankedAVLTree` without its counts, and the operations on a root, against those of `AVLTree`
-- (include/avltree.hpp).
use de_si_gnar.Prelude.{
  ◌≡◌, ◌∙◌, refl, ap, ap₂, Bool, true, false, Option, none, some, if◌then◌else◌,
}
use de_si_gnar.Prelude.Int.{pos, negsuc, ltb_ℤ}
use de_si_gnar.Nodes.{
  null, node, inorder, left, right, with_left, with_right, generic_rotate_left,
  generic_rotate_right,
}
use de_si_gnar.Avl
use de_si_gnar.Avl.{AvlNode}
use de_si_gnar.RankedAvl.{
  RkInfo, RkNode, height, update, balance_factor, rotate_left, rotate_right, rebalance, balance,
  remove_min, remove_here, rebuilt,
}

module _ {ℓ} {K : Type ℓ} where
  abbrev pub erase : RkNode K → AvlNode K
  erase null = null
  erase (node m l x r) = node m.stored_height (erase l) x (erase r)

  pub inorder-erase : (t : RkNode K) → inorder (erase t) ≡ inorder t
  inorder-erase null = refl
  inorder-erase (node m l x r) = rw (inorder-erase l, inorder-erase r)

  pub height-erase : (t : RkNode K) → Avl.height (erase t) ≡ height t
  height-erase null = refl
  height-erase (node m l x r) = refl

  update-erase : (t : RkNode K) → erase (update t) ≡ Avl.update_height (erase t)
  unfolding update Avl.update_height
  update-erase null = refl
  update-erase (node m l x r) = rw (height-erase l, height-erase r)

  left-erase : (t : RkNode K) → left (erase t) ≡ erase (left t)
  left-erase null = refl
  left-erase (node m l x r) = refl

  right-erase : (t : RkNode K) → right (erase t) ≡ erase (right t)
  right-erase null = refl
  right-erase (node m l x r) = refl

  with_left-erase :
      (f : RkNode K → RkNode K) (g : AvlNode K → AvlNode K) (t : RkNode K)
      → ((s : RkNode K) → erase (f s) ≡ g (erase s))
      → erase (with_left f t) ≡ with_left g (erase t)
  with_left-erase f g null h = refl
  with_left-erase f g (node m l x r) h = rw (h l)

  with_right-erase :
      (f : RkNode K → RkNode K) (g : AvlNode K → AvlNode K) (t : RkNode K)
      → ((s : RkNode K) → erase (f s) ≡ g (erase s))
      → erase (with_right f t) ≡ with_right g (erase t)
  with_right-erase f g null h = refl
  with_right-erase f g (node m l x r) h = rw (h r)

  generic_left-erase :
      (t : RkNode K) → erase (generic_rotate_left t) ≡ generic_rotate_left (erase t)
  unfolding generic_rotate_left
  generic_left-erase null = refl
  generic_left-erase (node m a x null) = refl
  generic_left-erase (node m a x (node n b y c)) = refl

  generic_right-erase :
      (t : RkNode K) → erase (generic_rotate_right t) ≡ generic_rotate_right (erase t)
  unfolding generic_rotate_right
  generic_right-erase null = refl
  generic_right-erase (node m null x a) = refl
  generic_right-erase (node m (node n b y c) x a) = refl

  rotate_left-erase : (t : RkNode K) → erase (rotate_left t) ≡ Avl.rotate_left (erase t)
  unfolding rotate_left Avl.rotate_left
  rotate_left-erase t =
      update-erase _
      ∙ ap Avl.update_height (
          with_left-erase update Avl.update_height (generic_rotate_left t) update-erase
          ∙ ap (with_left Avl.update_height) (generic_left-erase t))

  rotate_right-erase : (t : RkNode K) → erase (rotate_right t) ≡ Avl.rotate_right (erase t)
  unfolding rotate_right Avl.rotate_right
  rotate_right-erase t =
      update-erase _
      ∙ ap Avl.update_height (
          with_right-erase update Avl.update_height (generic_rotate_right t) update-erase
          ∙ ap (with_right Avl.update_height) (generic_right-erase t))

  pub balance_factor-erase : (t : RkNode K) → balance_factor t ≡ Avl.balance_factor (erase t)
  unfolding balance_factor Avl.balance_factor
  balance_factor-erase null = refl
  balance_factor-erase (node m l x r) = rw (height-erase l, height-erase r)

  erase-if :
      (b : Bool) (s t : RkNode K) {s' t' : AvlNode K}
      → erase s ≡ s'
      → erase t ≡ t'
      → erase (if b then s else t) ≡ (if b then s' else t')
  erase-if true s t p q = p
  erase-if false s t p q = q

  rebalance-erase : (t : RkNode K) → erase (rebalance t) ≡ Avl.rebalance (erase t)
  unfolding rebalance Avl.rebalance
  rebalance-erase t =
      rw
        (
          balance_factor-erase t,
          left-erase t,
          right-erase t,
          balance_factor-erase (left t),
          balance_factor-erase (right t),
        )
        (erase-if (ltb_ℤ (pos 1) (Avl.balance_factor (erase t))) _ _
          (rotate_right-erase _
            ∙ ap Avl.rotate_right (
                erase-if (ltb_ℤ (Avl.balance_factor (erase (left t))) (pos 0)) _ _
                  (with_left-erase rotate_left Avl.rotate_left t rotate_left-erase) refl))
          (erase-if (ltb_ℤ (Avl.balance_factor (erase t)) (negsuc 0)) _ _
            (rotate_left-erase _
              ∙ ap Avl.rotate_left (
                  erase-if (ltb_ℤ (pos 0) (Avl.balance_factor (erase (right t)))) _ _
                    (with_right-erase rotate_right Avl.rotate_right t rotate_right-erase) refl))
            refl))

  pub balance-erase : (t : RkNode K) → erase (balance t) ≡ Avl.balance (erase t)
  unfolding balance Avl.balance
  balance-erase t = rebalance-erase (update t) ∙ ap Avl.rebalance (update-erase t)

  pub remove_min-erase :
      (m : RkInfo) (l : RkNode K) (x : K) (r : RkNode K)
      → (erase (remove_min m l x r).0 ≡ (Avl.remove_min m.stored_height (erase l) x (erase r)).0)
        × ((remove_min m l x r).1 ≡ (Avl.remove_min m.stored_height (erase l) x (erase r)).1)
  unfolding remove_min Avl.remove_min
  remove_min-erase m null x r = (refl, refl)
  remove_min-erase m (node n a y b) x r =
      let (tree, least) = remove_min-erase n a y b in
      (balance-erase _ ∙ ap (λ t. Avl.balance (node m.stored_height t x (erase r))) tree, least)

  pub remove_here-erase :
      (m : RkInfo) (l : RkNode K) (x : K) (r : RkNode K)
      → erase (remove_here m l x r) ≡ Avl.remove_here m.stored_height (erase l) x (erase r)
  unfolding remove_here Avl.remove_here
  remove_here-erase m null x r = refl
  remove_here-erase m (node n a y b) x null = refl
  remove_here-erase m (node n a y b) x (node p c z d) =
      let (tree, least) = remove_min-erase p c z d in
      balance-erase _
      ∙ ap₂ (λ k t. Avl.balance (node m.stored_height (erase (node n a y b)) k t)) least tree

  pub rebuilt-erase :
      (f : RkNode K → RkNode K) (g : AvlNode K → AvlNode K) (below : RkNode K × Option K)
      (below' : AvlNode K × Option K)
      → ((t : RkNode K) → erase (f t) ≡ g (erase t))
      → erase below.0 ≡ below'.0
      → below.1 ≡ below'.1
      → (erase (rebuilt f below).0 ≡ (Avl.rebuilt g below').0)
        × ((rebuilt f below).1 ≡ (Avl.rebuilt g below').1)
  rebuilt-erase f g (t, none) (t', none) h e r = (h t ∙ ap g e, refl)
  rebuilt-erase f g (t, some k) (t', some k') h e r =
      (balance-erase (f t) ∙ ap Avl.balance (h t ∙ ap g e), r)
  rebuilt-erase f g (t, none) (t', some k') h e r = cc
  rebuilt-erase f g (t, some k) (t', none) h e r = cc
