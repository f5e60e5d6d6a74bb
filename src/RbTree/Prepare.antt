-- ===== src/RbTree/Prepare.antt =====
-- The preparations of a removal in include/rbtree.hpp: `move_red_left`, `move_red_right` and the
-- rotation before a step down, and what `balance` makes of the result on the way back.
use de_si_gnar.Prelude.{
  ℕ, zero, suc, ◌≡◌, ◌∙◌, refl, true, false, ◌&&◌, ◌||◌, some, ◌⊎◌, inl, inr, Bool-cases,
  append_assoc,
}
use de_si_gnar.Nodes.{
  null, node, inorder, left, key?, is_null, generic_rotate_left, generic_rotate_right,
}
use de_si_gnar.RbTree.{
  RbColor, red, black, RbNode, is_red, balance, flip, flip_colors, rotate_left, rotate_right,
  move_red_left, prepared_left,
}
use de_si_gnar.RbTree.Shape.{IsRb, balance_same, balance_black, and_false, false_and}

module _ {ℓ} {K : Type ℓ} where
  -- What a removal from `t` promises of its result `t'`: it turns red only where `t` was.
  pub record IsShrunk (t t' : RbNode K) (n : ℕ) : Type 0 where
    pub good : IsRb t' n
    pub strict : is_red t ≡ false → is_red t' ≡ false

  -- A tree from which a key can go: its root or the left child is red.
  abbrev pub IsReady : RbNode K → ℕ → Type 0
  IsReady t n = IsRb t n × ((is_red t || is_red (left t)) ≡ true)

  -- A tree from which a key can go on the right: its root is red, or the right child is.
  abbrev pub IsTurned : RbNode K → ℕ → Type 0
  IsTurned null n = false ≡ true
  IsTurned (node red l x r) n = IsRb (node red l x r) n
  IsTurned (node black l x r) zero = false ≡ true
  IsTurned (node black l x r) (suc n) = (is_red l ≡ false) × (is_red r ≡ true) × IsRb l n × IsRb r n

  -- `h` once it is ready for a step down on the left: a root `y` over `a` and `b`, where a key can
  -- go from `a`, and `balance` repairs what that leaves. Either the root is still `w`, or it came up
  -- from the right, and `w` is the root of `a`.
  pub record IsPreparedLeft (h : RbNode K) (w : K) (n : ℕ) : Type ℓ where
    pub root_color : RbColor
    pub a : RbNode K
    pub y : K
    pub b : RbNode K
    pub height : ℕ
    pub prepared : prepared_left h ≡ some (node root_color a y b)
    pub same_keys : inorder (node root_color a y b) ≡ inorder h
    pub ready : IsReady a height
    pub at : (y ≡ w) ⊎ (key? a ≡ some w)
    pub resume :
        (a' : RbNode K) → IsShrunk a a' height → IsShrunk h (balance (node root_color a' y b)) n

  -- The shape of `move_red_left` where the right child has a red left child, and where not.
  move_left_deep :
      (a : RbNode K) (y : K) (b : RbNode K) (x : K) (p : RbNode K) (u : K) (q : RbNode K) (z : K)
      (d : RbNode K)
      → move_red_left (node red (node black a y b) x (node black (node red p u q) z d))
        ≡ some (node red (node black (node red a y b) x p) u (node black q z d))
  unfolding move_red_left flip_colors flip rotate_left rotate_right generic_rotate_left
      generic_rotate_right
  move_left_deep a y b x p u q z d = refl

  move_left_flat :
      (a : RbNode K) (y : K) (b : RbNode K) (x : K) (c : RbNode K) (z : K) (d : RbNode K)
      → is_red c ≡ false
      → move_red_left (node red (node black a y b) x (node black c z d))
        ≡ some (node black (node red a y b) x (node red c z d))
  unfolding move_red_left flip_colors flip
  move_left_flat a y b x c z d h = rw h refl

  prepared_moved :
      (a : RbNode K) (y : K) (b : RbNode K) (x : K) (r : RbNode K)
      → is_red a ≡ false
      → prepared_left (node red (node black a y b) x r)
        ≡ move_red_left (node red (node black a y b) x r)
  unfolding prepared_left
  prepared_moved a y b x r h = rw h refl

  prepared_still :
      (a : RbNode K) (y : K) (b : RbNode K) (x : K) (r : RbNode K)
      → is_red a ≡ true
      → prepared_left (node red (node black a y b) x r) ≡ some (node red (node black a y b) x r)
  unfolding prepared_left
  prepared_still a y b x r h = rw h refl

  prepared_black :
      (a : RbNode K) (y : K) (b : RbNode K) (x : K) (r : RbNode K)
      → prepared_left (node black (node red a y b) x r) ≡ some (node black (node red a y b) x r)
  unfolding prepared_left
  prepared_black a y b x r = refl

  -- A red root with black children goes on unchanged.
  pub red_IsShrunk :
      (t l : RbNode K) (x : K) (r : RbNode K) (n : ℕ)
      → is_red t ≡ true
      → is_red l ≡ false
      → is_red r ≡ false
      → IsRb l n
      → IsRb r n
      → IsShrunk t (balance (node red l x r)) n
  red_IsShrunk t l x r n ht hl hr gl gr =
      rw (balance_same red x l r hr (and_false _ _ hl))
        (record { good = (hl, hr, gl, gr); strict = λ e. cc })

  -- A black root over any children.
  pub black_IsShrunk :
      (t l : RbNode K) (x : K) (r : RbNode K) (n : ℕ)
      → (is_red t ≡ false → (is_red l && is_red r) ≡ false)
      → IsRb l n
      → IsRb r n
      → IsShrunk t (balance (node black l x r)) (suc n)
  black_IsShrunk t l x r n h gl gr =
      let (good, color) = balance_black l x r n gl gr in
      record { good = good; strict = λ e. color ∙ h e }

  deep_keys :
      (a : RbNode K) (y : K) (b : RbNode K) (x : K) (p : RbNode K) (u : K) (q : RbNode K) (z : K)
      (d : RbNode K)
      → inorder (node red (node black (node red a y b) x p) u (node black q z d))
        ≡ inorder (node red (node black a y b) x (node black (node red p u q) z d))
  deep_keys a y b x p u q z d = simp append_assoc

  prepare_deep :
      (a : RbNode K) (y : K) (b : RbNode K) (x : K) (p : RbNode K) (u : K) (q : RbNode K) (z : K)
      (d : RbNode K) (n : ℕ)
      → is_red a ≡ false
      → IsRb (node red (node black a y b) x (node black (node red p u q) z d)) (suc n)
      → IsPreparedLeft (node red (node black a y b) x (node black (node red p u q) z d)) x (suc n)
  prepare_deep a y b x p u q z d n ha g = record {
    root_color = red;
    a = node black (node red a y b) x p;
    y = u;
    b = node black q z d;
    height = suc n;
    prepared = prepared_moved a y b x _ ha ∙ move_left_deep a y b x p u q z d;
    same_keys = deep_keys a y b x p u q z d;
    ready = ((g.3.1.0, (ha, g.2.0, g.2.1, g.2.2), g.3.1.2), refl);
    at = inr refl;
    resume = λ t s.
        red_IsShrunk _ t u (node black q z d) (suc n) refl (s.strict refl) refl s.good
          (g.3.0, g.3.1.3, g.3.2);
  }

  prepare_flat :
      (a : RbNode K) (y : K) (b : RbNode K) (x : K) (c : RbNode K) (z : K) (d : RbNode K) (n : ℕ)
      → is_red a ≡ false
      → is_red c ≡ false
      → IsRb (node red (node black a y b) x (node black c z d)) (suc n)
      → IsPreparedLeft (node red (node black a y b) x (node black c z d)) x (suc n)
  prepare_flat a y b x c z d n ha hc g = record {
    root_color = black;
    a = node red a y b;
    y = x;
    b = node red c z d;
    height = n;
    prepared = prepared_moved a y b x _ ha ∙ move_left_flat a y b x c z d hc;
    same_keys = refl;
    ready = ((ha, g.2.0, g.2.1, g.2.2), refl);
    at = inl refl;
    resume =
        λ t s. black_IsShrunk _ t x (node red c z d) n (λ e. cc) s.good (hc, g.3.0, g.3.1, g.3.2);
  }

  prepare_thin :
      (a : RbNode K) (y : K) (b : RbNode K) (x : K) (c : RbNode K) (z : K) (d : RbNode K) (n : ℕ)
      → is_red a ≡ false
      → IsRb (node red (node black a y b) x (node black c z d)) (suc n)
      → IsPreparedLeft (node red (node black a y b) x (node black c z d)) x (suc n)
  prepare_thin a y b x null z d n ha g = prepare_flat a y b x null z d n ha refl g
  prepare_thin a y b x (node black p u q) z d n ha g =
      prepare_flat a y b x (node black p u q) z d n ha refl g
  prepare_thin a y b x (node red p u q) z d n ha g = prepare_deep a y b x p u q z d n ha g

  pub prepare_left :
      (c : RbColor) (l : RbNode K) (x : K) (r : RbNode K) (n : ℕ)
      → IsReady (node c l x r) n
      → is_null l ≡ false
      → IsPreparedLeft (node c l x r) x n
  prepare_left c null x r n g e = cc
  prepare_left black (node black a y b) x r n g e = cc
  prepare_left red (node red a y b) x r n g e = cc
  prepare_left black (node red a y b) x r zero g e = cc
  prepare_left black (node red a y b) x r (suc n) g e = record {
    root_color = black;
    a = node red a y b;
    y = x;
    b = r;
    height = n;
    prepared = prepared_black a y b x r;
    same_keys = refl;
    ready = (g.0.1, refl);
    at = inl refl;
    resume = λ t s.
        black_IsShrunk (node black (node red a y b) x r) t x r n (λ _. false_and _ _ g.0.0) s.good
          g.0.2;
  }
  prepare_left red (node black a y b) x r zero g e = cc
  prepare_left red (node black a y b) x null (suc n) g e = cc
  prepare_left red (node black a y b) x (node red c z d) (suc n) g e = cc
  prepare_left red (node black a y b) x (node black c z d) (suc n) g e =
      elim (Bool-cases (is_red a)) [
        | inl thick ↦ record {
          root_color = red;
          a = node black a y b;
          y = x;
          b = node black c z d;
          height = suc n;
          prepared = prepared_still a y b x (node black c z d) thick;
          same_keys = refl;
          ready = (g.0.2, thick);
          at = inl refl;
          resume = λ t s.
              red_IsShrunk _ t x (node black c z d) (suc n) refl (s.strict refl) refl s.good g.0.3;
        }
        | inr thin ↦ prepare_thin a y b x c z d n thin g.0
      ]
