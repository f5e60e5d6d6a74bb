-- ===== src/RbTree/PrepareRight.antt =====
-- The preparation of a removal in include/rbtree.hpp for a step down on the right: the rotation of a
-- red left child, and `move_red_right`.
use de_si_gnar.Prelude.{
  ℕ, zero, suc, ◌≡◌, ◌∙◌, refl, sym, true, false, some, ◌⊎◌, inl, inr, Bool-cases, append_assoc,
  ◌∷◌, if◌then◌else◌,
}
use de_si_gnar.Nodes.{null, node, inorder, key?, is_null, generic_rotate_right}
use de_si_gnar.RbTree.{
  RbColor, red, black, RbNode, is_red, balance, flip, flip_colors, rotate_right, move_red_right,
  prepared_right,
}
use de_si_gnar.RbTree.Shape.{IsRb, and_false}
use de_si_gnar.RbTree.Prepare.{IsShrunk, IsReady, IsTurned, red_IsShrunk, black_IsShrunk}

module _ {ℓ} {K : Type ℓ} where
  -- `g` once it is ready for a step down on the right: a root `y` over `a` and `b`, where a key can
  -- go from `b`, and `balance` repairs what that leaves, whatever key the root then has. Either the root is still `x`, or it came up
  -- from the left, and `x` is the root of `b`.
  pub record IsPreparedRight (g : RbNode K) (x : K) (n : ℕ) : Type ℓ where
    pub root_color : RbColor
    pub a : RbNode K
    pub y : K
    pub b : RbNode K
    pub height : ℕ
    pub prepared : prepared_right g ≡ some (node root_color a y b)
    pub same_keys : inorder (node root_color a y b) ≡ inorder g
    pub at :
        ((y ≡ x) × IsReady b height) ⊎ (IsTurned b height × (is_red b ≡ false) × (key? b ≡ some x))
    pub resume :
        (z : K) (b' : RbNode K)
        → IsShrunk b b' height
        → IsShrunk g (balance (node root_color a z b')) n

  -- The shape of `move_red_right` where the left child has a red left child, and where not.
  move_right_deep :
      (p : RbNode K) (u : K) (q : RbNode K) (y : K) (b : RbNode K) (x : K) (c : RbNode K) (z : K)
      (d : RbNode K)
      → move_red_right (node red (node black (node red p u q) y b) x (node black c z d))
        ≡ some (node red (node black p u q) y (node black b x (node red c z d)))
  unfolding move_red_right flip_colors flip rotate_right generic_rotate_right
  move_right_deep p u q y b x c z d = refl

  move_right_flat :
      (a : RbNode K) (y : K) (b : RbNode K) (x : K) (c : RbNode K) (z : K) (d : RbNode K)
      → is_red a ≡ false
      → move_red_right (node red (node black a y b) x (node black c z d))
        ≡ some (node black (node red a y b) x (node red c z d))
  unfolding move_red_right flip_colors flip
  move_right_flat a y b x c z d h = rw h refl

  prepared_moved :
      (l : RbNode K) (x : K) (c : RbNode K) (z : K) (d : RbNode K)
      → is_red c ≡ false
      → prepared_right (node red l x (node black c z d))
        ≡ move_red_right (node red l x (node black c z d))
  unfolding prepared_right
  prepared_moved l x c z d h = rw h refl

  prepared_still :
      (l : RbNode K) (x : K) (c : RbNode K) (z : K) (d : RbNode K)
      → is_red c ≡ true
      → prepared_right (node red l x (node black c z d)) ≡ some (node red l x (node black c z d))
  unfolding prepared_right
  prepared_still l x c z d h = rw h refl

  prepared_red :
      (l : RbNode K) (x : K) (c : RbNode K) (z : K) (d : RbNode K)
      → prepared_right (node black l x (node red c z d)) ≡ some (node black l x (node red c z d))
  unfolding prepared_right
  prepared_red l x c z d = refl

  deep_keys :
      (p : RbNode K) (u : K) (q : RbNode K) (y : K) (b : RbNode K) (x : K) (c : RbNode K) (z : K)
      (d : RbNode K)
      → inorder (node red (node black p u q) y (node black b x (node red c z d)))
        ≡ inorder (node red (node black (node red p u q) y b) x (node black c z d))
  deep_keys p u q y b x c z d = simp append_assoc

  prepare_deep :
      (p : RbNode K) (u : K) (q : RbNode K) (y : K) (b : RbNode K) (x : K) (c : RbNode K) (z : K)
      (d : RbNode K) (n : ℕ)
      → is_red c ≡ false
      → IsRb (node red (node black (node red p u q) y b) x (node black c z d)) (suc n)
      → IsPreparedRight (node red (node black (node red p u q) y b) x (node black c z d)) x (suc n)
  prepare_deep p u q y b x c z d n hc g = record {
    root_color = red;
    a = node black p u q;
    y = y;
    b = node black b x (node red c z d);
    height = suc n;
    prepared = prepared_moved _ x c z d hc ∙ move_right_deep p u q y b x c z d;
    same_keys = deep_keys p u q y b x c z d;
    at = inr ((g.2.0, refl, g.2.2, (hc, g.3.0, g.3.1, g.3.2)), refl, refl);
    resume = λ w t s.
        red_IsShrunk _ (node black p u q) w t (suc n) refl refl (s.strict refl)
          (g.2.1.1, g.2.1.2, g.2.1.3) s.good;
  }

  prepare_flat :
      (a : RbNode K) (y : K) (b : RbNode K) (x : K) (c : RbNode K) (z : K) (d : RbNode K) (n : ℕ)
      → is_red a ≡ false
      → is_red c ≡ false
      → IsRb (node red (node black a y b) x (node black c z d)) (suc n)
      → IsPreparedRight (node red (node black a y b) x (node black c z d)) x (suc n)
  prepare_flat a y b x c z d n ha hc g = record {
    root_color = black;
    a = node red a y b;
    y = x;
    b = node red c z d;
    height = n;
    prepared = prepared_moved _ x c z d hc ∙ move_right_flat a y b x c z d ha;
    same_keys = refl;
    at = inl (refl, ((hc, g.3.0, g.3.1, g.3.2), refl));
    resume =
        λ w t s. black_IsShrunk _ (node red a y b) w t n (λ e. cc) (ha, g.2.0, g.2.1, g.2.2) s.good;
  }

  prepare_thin :
      (a : RbNode K) (y : K) (b : RbNode K) (x : K) (c : RbNode K) (z : K) (d : RbNode K) (n : ℕ)
      → is_red c ≡ false
      → IsRb (node red (node black a y b) x (node black c z d)) (suc n)
      → IsPreparedRight (node red (node black a y b) x (node black c z d)) x (suc n)
  prepare_thin null y b x c z d n hc g = prepare_flat null y b x c z d n refl hc g
  prepare_thin (node black p u q) y b x c z d n hc g =
      prepare_flat (node black p u q) y b x c z d n refl hc g
  prepare_thin (node red p u q) y b x c z d n hc g = prepare_deep p u q y b x c z d n hc g

  pub prepare_right :
      (color : RbColor) (l : RbNode K) (x : K) (r : RbNode K) (n : ℕ)
      → IsTurned (node color l x r) n
      → is_null r ≡ false
      → IsPreparedRight (node color l x r) x n
  prepare_right color l x null n g e = cc
  prepare_right black l x r zero g e = cc
  prepare_right black l x (node black c z d) (suc n) g e = cc
  prepare_right black l x (node red c z d) (suc n) g e = record {
    root_color = black;
    a = l;
    y = x;
    b = node red c z d;
    height = n;
    prepared = prepared_red l x c z d;
    same_keys = refl;
    at = inl (refl, (g.3, refl));
    resume = λ w t s. black_IsShrunk _ l w t n (λ _. and_false _ _ g.0) g.2 s.good;
  }
  prepare_right red l x (node red c z d) n g e = cc
  prepare_right red l x (node black c z d) zero g e = cc
  prepare_right red null x (node black c z d) (suc n) g e = cc
  prepare_right red (node red a y b) x (node black c z d) (suc n) g e = cc
  prepare_right red (node black a y b) x (node black c z d) (suc n) g e =
      elim (Bool-cases (is_red c)) [
        | inl thick ↦ record {
          root_color = red;
          a = node black a y b;
          y = x;
          b = node black c z d;
          height = suc n;
          prepared = prepared_still (node black a y b) x c z d thick;
          same_keys = refl;
          at = inl (refl, (g.3, thick));
          resume = λ w t s.
              red_IsShrunk _ (node black a y b) w t (suc n) refl refl (s.strict refl) g.2 s.good;
        }
        | inr thin ↦ prepare_thin a y b x c z d n thin g
      ]

  -- `h`, a root `x` over `l` and `r`, after the rotation before the step down: the root is still
  -- `x`, or that of `l`.
  pub record IsTurnedFrom (color : RbColor) (l : RbNode K) (x : K) (r : RbNode K) (n : ℕ)
      : Type ℓ where
    pub a : RbNode K
    pub y : K
    pub b : RbNode K
    pub rotated :
        (if is_red l then rotate_right (node color l x r) else node color l x r) ≡ node color a y b
    pub same_keys : inorder (node color a y b) ≡ inorder (node color l x r)
    pub turned : IsTurned (node color a y b) n
    pub at : (y ≡ x) ⊎ (key? l ≡ some y)

  pub turn :
      (color : RbColor) (l : RbNode K) (x : K) (r : RbNode K) (n : ℕ)
      → IsReady (node color l x r) n
      → IsTurnedFrom color l x r n
  unfolding rotate_right generic_rotate_right
  turn red l x r n g = record {
    a = l;
    y = x;
    b = r;
    rotated = rw (g.0.0) refl;
    same_keys = refl;
    turned = g.0;
    at = inl refl;
  }
  turn black null x r n g = cc
  turn black (node black a y b) x r n g = cc
  turn black (node red a y b) x r zero g = cc
  turn black (node red a y b) x r (suc n) g = record {
    a = a;
    y = y;
    b = node red b x r;
    rotated = refl;
    same_keys = sym (append_assoc (inorder a) (y ∷ inorder b) (x ∷ inorder r));
    turned = (g.0.1.0, refl, g.0.1.2, (g.0.1.1, g.0.0, g.0.1.3, g.0.2));
    at = inr refl;
  }
