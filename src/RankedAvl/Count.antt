-- ===== src/RankedAvl/Count.antt =====
-- The stored counts at the other operations of `RankedAVLTree` (include/avltree.hpp).
use de_si_gnar.Prelude.{
  ℕ, ◌-◌, refl, Bool, true, false, arith, if◌then◌else◌, Bool-cases, inl, inr, ltb, ◌==◌,
}
use de_si_gnar.Prelude.Int.{pos, negsuc, ltb_ℤ, ◌+ℤ◌}
use de_si_gnar.Nodes.{
  null, node, left, right, with_left, with_right, generic_rotate_left, generic_rotate_right,
}
use de_si_gnar.Nodes.Ranked
use de_si_gnar.RankedAvl.{
  RkInfo, RkNode, stored, count, update, balance_factor, rotate_left, rotate_right, rebalance,
  balance, remove_min, remove_here, copy, join, remove_pos, split_pos,
}

module _ {ℓ} {K : Type ℓ} where
  abbrev pub IsCounted : RkNode K → Type 0
  IsCounted t = Ranked.IsCounted stored t

  -- The counts below the root are right.
  abbrev AreCounted : RkNode K → Type 0
  AreCounted null = Unit
  AreCounted (node m l x r) = IsCounted l × IsCounted r

  update-IsCounted : (t : RkNode K) → AreCounted t → IsCounted (update t)
  unfolding update
  update-IsCounted null c = tt
  update-IsCounted (node m l x r) c = (refl, c.0, c.1)

  below : (t : RkNode K) → IsCounted t → AreCounted t
  below null c = tt
  below (node m l x r) c = (c.1, c.2)

  recount : (t : RkNode K) → IsCounted t → IsCounted (update t)
  recount t c = update-IsCounted t (below t c)

  rotate_left-IsCounted : (t : RkNode K) → AreCounted t → IsCounted (rotate_left t)
  unfolding rotate_left generic_rotate_left
  rotate_left-IsCounted null c = recount null tt
  rotate_left-IsCounted (node m a x null) c =
      update-IsCounted (node m (update a) x null) (recount a c.0, tt)
  rotate_left-IsCounted (node m a x (node n b y e)) c =
      update-IsCounted (node n (update (node m a x b)) y e)
        (update-IsCounted (node m a x b) (c.0, c.1.1), c.1.2)

  rotate_right-IsCounted : (t : RkNode K) → AreCounted t → IsCounted (rotate_right t)
  unfolding rotate_right generic_rotate_right
  rotate_right-IsCounted null c = recount null tt
  rotate_right-IsCounted (node m null x a) c =
      update-IsCounted (node m null x (update a)) (tt, recount a c.1)
  rotate_right-IsCounted (node m (node n b y e) x a) c =
      update-IsCounted (node n b y (update (node m e x a)))
        (c.0.1, update-IsCounted (node m e x a) (c.0.2, c.1))

  IsCounted-if :
      (b : Bool) (s t : RkNode K) → IsCounted s → IsCounted t → IsCounted (if b then s else t)
  IsCounted-if true s t p q = p
  IsCounted-if false s t p q = q

  AreCounted-if :
      (b : Bool) (s t : RkNode K) → AreCounted s → AreCounted t → AreCounted (if b then s else t)
  AreCounted-if true s t p q = p
  AreCounted-if false s t p q = q

  rotated_left : (t : RkNode K) → AreCounted t → AreCounted (with_left rotate_left t)
  rotated_left null c = tt
  rotated_left (node m l x r) c = (rotate_left-IsCounted l (below l c.0), c.1)

  rotated_right : (t : RkNode K) → AreCounted t → AreCounted (with_right rotate_right t)
  rotated_right null c = tt
  rotated_right (node m l x r) c = (c.0, rotate_right-IsCounted r (below r c.1))

  rebalance-IsCounted : (t : RkNode K) → IsCounted t → IsCounted (rebalance t)
  unfolding rebalance
  rebalance-IsCounted t c =
      IsCounted-if (ltb_ℤ (pos 1) (balance_factor t)) _ _
        (rotate_right-IsCounted _ (
          AreCounted-if (ltb_ℤ (balance_factor (left t)) (pos 0)) _ _ (rotated_left t (below t c))
            (below t c)))
        (IsCounted-if (ltb_ℤ (balance_factor t) (negsuc 0)) _ _
          (rotate_left-IsCounted _ (
            AreCounted-if (ltb_ℤ (pos 0) (balance_factor (right t))) _ _
              (rotated_right t (below t c)) (below t c)))
          c)

  -- Right counts in the subtrees are enough for right counts in the balanced tree.
  pub balance-IsCounted :
      (m : RkInfo) (l : RkNode K) (x : K) (r : RkNode K)
      → IsCounted l
      → IsCounted r
      → IsCounted (balance (node m l x r))
  unfolding balance
  balance-IsCounted m l x r cl cr = rebalance-IsCounted _ (update-IsCounted (node m l x r) (cl, cr))

  pub join-IsCounted :
      (l : RkNode K) (x : K) (r : RkNode K) → IsCounted l → IsCounted r → IsCounted (join l x r)
  unfolding join
  join-IsCounted null x null cl cr = (refl, cl, cr)
  join-IsCounted null x (node n a z b) cl cr =
      elim (Bool-cases (ltb_ℤ (negsuc 0 +ℤ pos 1) n.stored_height)) [
        | inl far ↦
            rw (far, join) (balance-IsCounted n _ z b (join-IsCounted null x a cl cr.1) cr.2)
        | inr near ↦ rw (near, join) (refl, cl, cr)
      ]
  join-IsCounted (node m c y d) x null cl cr =
      elim (Bool-cases (ltb_ℤ (negsuc 0 +ℤ pos 1) m.stored_height)) [
        | inl far ↦
            rw (far, join) (balance-IsCounted m c y _ cl.1 (join-IsCounted d x null cl.2 cr))
        | inr near ↦ rw (near, join) (refl, cl, cr)
      ]
  join-IsCounted (node m c y d) x (node n a z b) cl cr =
      elim (Bool-cases (ltb_ℤ (n.stored_height +ℤ pos 1) m.stored_height)) [
        | inl left ↦
            rw (left, join)
              (balance-IsCounted m c y _ cl.1 (join-IsCounted d x (node n a z b) cl.2 cr))
        | inr not_left ↦ elim (Bool-cases (ltb_ℤ (m.stored_height +ℤ pos 1) n.stored_height)) [
          | inl right ↦
              rw (not_left, right, join)
                (balance-IsCounted n _ z b (join-IsCounted (node m c y d) x a cl cr.1) cr.2)
          | inr near ↦ rw (not_left, near, join) (refl, cl, cr)
        ]
      ]

  remove_min-IsCounted :
      (m : RkInfo) (l : RkNode K) (x : K) (r : RkNode K)
      → IsCounted l
      → IsCounted r
      → IsCounted (remove_min m l x r).0
  unfolding remove_min
  remove_min-IsCounted m null x r cl cr = cr
  remove_min-IsCounted m (node n a y b) x r cl cr =
      balance-IsCounted m _ x r (remove_min-IsCounted n a y b cl.1 cl.2) cr

  pub remove_here-IsCounted :
      (m : RkInfo) (l : RkNode K) (x : K) (r : RkNode K)
      → IsCounted l
      → IsCounted r
      → IsCounted (remove_here m l x r)
  unfolding remove_here
  remove_here-IsCounted m null x r cl cr = cr
  remove_here-IsCounted m (node n a y b) x null cl cr = cl
  remove_here-IsCounted m (node n a y b) x (node p c z d) cl cr =
      balance-IsCounted m (node n a y b) _ _ cl (remove_min-IsCounted p c z d cr.1 cr.2)

  pub remove_pos-IsCounted : (t : RkNode K) (i : ℕ) → IsCounted t → IsCounted (remove_pos t i).0
  unfolding remove_pos
  remove_pos-IsCounted null i c = tt
  remove_pos-IsCounted (node m l x r) i c = ground (
    arith,
    remove_here-IsCounted m l x r c.1 c.2,
    balance-IsCounted m (remove_pos l i).0 x r,
    balance-IsCounted m l x (remove_pos r (i - count l - 1)).0,
    remove_pos-IsCounted l i c.1,
    remove_pos-IsCounted r (i - count l - 1) c.2,
  )

  pub split_pos-IsCounted :
      (t : RkNode K) (i : ℕ)
      → IsCounted t
      → IsCounted (split_pos t i).0 × IsCounted (split_pos t i).1
  unfolding split_pos
  split_pos-IsCounted null i c = (tt, tt)
  split_pos-IsCounted (node m l x r) i c =
      let j = i - count l - 1 in
      elim (Bool-cases (i == count l)) [
        | inl here ↦ rw (here, split_pos) (c.1, join-IsCounted null x r tt c.2)
        | inr away ↦ elim (Bool-cases (ltb i (count l))) [
          | inl low ↦
              let (cs, cg) = split_pos-IsCounted l i c.1 in
              rw (away, low, split_pos) (cs, join-IsCounted (split_pos l i).1 x r cg c.2)
          | inr high ↦
              let (cs, cg) = split_pos-IsCounted r j c.2 in
              rw (away, high, split_pos) (join-IsCounted l x (split_pos r j).0 c.1 cs, cg)
        ]
      ]

  pub copy-IsCounted : (t : RkNode K) → IsCounted (copy t)
  unfolding copy
  copy-IsCounted null = tt
  copy-IsCounted (node m l x r) = (refl, copy-IsCounted l, copy-IsCounted r)
