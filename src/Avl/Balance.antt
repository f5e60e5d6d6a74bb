-- ===== src/Avl/Balance.antt =====
-- `balance` of include/avltree.hpp at a root with a subtree that has grown or shrunk by a level.
use de_si_gnar.Prelude.{
  ℕ, suc, ◌+◌, ◌≤◌, ◌<◌, ◌≡◌, ◌⊎◌, refl, arith, Bool-cases, inl, inr, max, ltb, ltb→lt,
  ltb_false→le,
}
use de_si_gnar.Prelude.Int.{ℤ}
use de_si_gnar.Nodes.{null, node}
use de_si_gnar.Avl.{AvlNode, balance}
use de_si_gnar.Avl.Shape.{
  levels, IsAvl, rooted, height-levels, balance_even, balance_left_left, balance_left_right,
  balance_right_right, balance_right_left,
}

module _ {ℓ} {K : Type ℓ} where
  -- What `balance` promises of its result `t` at subtrees of `m` and `n` levels.
  pub record IsBalanced (m n : ℕ) (t : AvlNode K) : Type 0 where
    pub avl : IsAvl t
    pub most : levels t ≤ suc (max m n)
    pub least : max m n ≤ levels t
    pub even : (levels t ≡ suc (max m n)) ⊎ ((m ≡ n + 2) ⊎ (n ≡ m + 2))

  module _ (h : ℤ) (l : AvlNode K) (x : K) (r : AvlNode K) (al : IsAvl l) (ar : IsAvl r) where
    even-IsBalanced :
        levels l ≤ levels r + 1
        → levels r ≤ levels l + 1
        → IsBalanced (levels l) (levels r) (balance (node h l x r))
    even-IsBalanced hl hr =
        rw (balance_even h l x r (height-levels l al) (height-levels r ar) hl hr) (record {
          avl = (refl, hl, hr, al, ar);
          most = omega arith;
          least = omega arith;
          even = inl refl;
        })

  -- The left subtree is two levels higher.
  module _ (h hl : ℤ) (a : AvlNode K) (y : K) (x : K) (r : AvlNode K) (ar : IsAvl r) where
    left_left-IsBalanced :
        (b : AvlNode K)
        → IsAvl (node hl a y b)
        → levels (node hl a y b) ≡ levels r + 2
        → levels b ≤ levels a
        → IsBalanced (levels (node hl a y b)) (levels r) (balance (node h (rooted a y b) x r))
    left_left-IsBalanced b al e lean =
        rw
          (balance_left_left h a y b x r (height-levels a al.3) (height-levels b al.4)
            (height-levels r ar) (omega arith) lean)
          (record {
            avl =
                (refl, omega arith, omega arith, al.3, (refl, omega arith, omega arith, al.4, ar));
            most = omega arith;
            least = omega arith;
            even = inr (inl e);
          })

    left_right-IsBalanced :
        (b : AvlNode K)
        → IsAvl (node hl a y b)
        → levels (node hl a y b) ≡ levels r + 2
        → levels a < levels b
        → IsBalanced (levels (node hl a y b)) (levels r) (balance (node h (rooted a y b) x r))
    left_right-IsBalanced null al e lean = absurd (omega arith)
    left_right-IsBalanced (node hb c z d) al e lean =
        let (_, _, _, ac, ad) = al.4 in
        rw
          (balance_left_right h hb a y c z d x r (height-levels a al.3) (al.4.0)
            (height-levels c ac) (height-levels d ad) (height-levels r ar) (omega arith) lean)
          (record {
            avl = (
              refl,
              omega arith,
              omega arith,
              (refl, omega arith, omega arith, al.3, ac),
              (refl, omega arith, omega arith, ad, ar),
            );
            most = omega arith;
            least = omega arith;
            even = inr (inl e);
          })

  left-IsBalanced :
      (h : ℤ) (l : AvlNode K) (x : K) (r : AvlNode K)
      → IsAvl l
      → IsAvl r
      → levels l ≡ levels r + 2
      → IsBalanced (levels l) (levels r) (balance (node h l x r))
  left-IsBalanced h null x r al ar e = absurd (omega arith)
  left-IsBalanced h (node hl a y b) x r al ar e =
      rw (al.0) (elim (Bool-cases (ltb (levels a) (levels b))) [
        | inl lean ↦ left_right-IsBalanced h hl a y x r ar b al e (ltb→lt _ _ lean)
        | inr lean ↦ left_left-IsBalanced h hl a y x r ar b al e (ltb_false→le _ _ lean)
      ])

  -- The right subtree is two levels higher.
  module _ (h hr : ℤ) (l : AvlNode K) (x : K) (y : K) (b : AvlNode K) (al : IsAvl l) where
    right_right-IsBalanced :
        (a : AvlNode K)
        → IsAvl (node hr a y b)
        → levels (node hr a y b) ≡ levels l + 2
        → levels a ≤ levels b
        → IsBalanced (levels l) (levels (node hr a y b)) (balance (node h l x (rooted a y b)))
    right_right-IsBalanced a ar e lean =
        rw
          (balance_right_right h l x a y b (height-levels l al) (height-levels a ar.3)
            (height-levels b ar.4) (omega arith) lean)
          (record {
            avl =
                (refl, omega arith, omega arith, (refl, omega arith, omega arith, al, ar.3), ar.4);
            most = omega arith;
            least = omega arith;
            even = inr (inr e);
          })

    right_left-IsBalanced :
        (a : AvlNode K)
        → IsAvl (node hr a y b)
        → levels (node hr a y b) ≡ levels l + 2
        → levels b < levels a
        → IsBalanced (levels l) (levels (node hr a y b)) (balance (node h l x (rooted a y b)))
    right_left-IsBalanced null ar e lean = absurd (omega arith)
    right_left-IsBalanced (node ha c z d) ar e lean =
        let (_, _, _, ac, ad) = ar.3 in
        rw
          (balance_right_left h ha l x c z d y b (height-levels l al) (ar.3.0) (height-levels c ac)
            (height-levels d ad) (height-levels b ar.4) (omega arith) lean)
          (record {
            avl = (
              refl,
              omega arith,
              omega arith,
              (refl, omega arith, omega arith, al, ac),
              (refl, omega arith, omega arith, ad, ar.4),
            );
            most = omega arith;
            least = omega arith;
            even = inr (inr e);
          })

  right-IsBalanced :
      (h : ℤ) (l : AvlNode K) (x : K) (r : AvlNode K)
      → IsAvl l
      → IsAvl r
      → levels r ≡ levels l + 2
      → IsBalanced (levels l) (levels r) (balance (node h l x r))
  right-IsBalanced h l x null al ar e = absurd (omega arith)
  right-IsBalanced h l x (node hr a y b) al ar e =
      rw (ar.0) (elim (Bool-cases (ltb (levels b) (levels a))) [
        | inl lean ↦ right_left-IsBalanced h hr l x y b al a ar e (ltb→lt _ _ lean)
        | inr lean ↦ right_right-IsBalanced h hr l x y b al a ar e (ltb_false→le _ _ lean)
      ])

  -- `balance` repairs a root, whatever height it stores, whose subtrees are balanced with
  -- right heights and differ by two levels at most: the result is balanced with right
  -- heights, its levels are those of the higher subtree or one more, and one more unless the
  -- subtrees differ by two.
  pub balance-IsBalanced :
      (h : ℤ) (l : AvlNode K) (x : K) (r : AvlNode K)
      → IsAvl l
      → IsAvl r
      → levels l ≤ levels r + 2
      → levels r ≤ levels l + 2
      → IsBalanced (levels l) (levels r) (balance (node h l x r))
  balance-IsBalanced h l x r al ar hl hr = elim (Bool-cases (ltb (levels r + 1) (levels l))) [
    | inl left ↦ left-IsBalanced h l x r al ar (omega (arith, ltb→lt _ _ left))
    | inr not_left ↦ elim (Bool-cases (ltb (levels l + 1) (levels r))) [
      | inl right ↦ right-IsBalanced h l x r al ar (omega (arith, ltb→lt _ _ right))
      | inr not_right ↦
          even-IsBalanced h l x r al ar (ltb_false→le _ _ not_left) (ltb_false→le _ _ not_right)
    ]
  ]

  -- One level more at most, or one less at most.
  pub record Grows (t t' : AvlNode K) : Type 0 where
    pub avl : IsAvl t'
    pub no_less : levels t ≤ levels t'
    pub one_more : levels t' ≤ levels t + 1

  pub record Shrinks (t t' : AvlNode K) : Type 0 where
    pub avl : IsAvl t'
    pub no_more : levels t' ≤ levels t
    pub one_less : levels t ≤ levels t' + 1

  pub Grows-left :
      (h : ℤ) {l l' : AvlNode K} (x : K) (r : AvlNode K)
      → IsAvl (node h l x r)
      → Grows l l'
      → Grows (node h l x r) (balance (node h l' x r))
  Grows-left h {l} {l'} x r a g =
      let b = balance-IsBalanced h l' x r g.avl a.4 (omega arith) (omega arith) in
      record { avl = b.avl; no_less = omega arith; one_more = omega arith }

  pub Grows-right :
      (h : ℤ) (l : AvlNode K) (x : K) {r r' : AvlNode K}
      → IsAvl (node h l x r)
      → Grows r r'
      → Grows (node h l x r) (balance (node h l x r'))
  Grows-right h l x {r} {r'} a g =
      let b = balance-IsBalanced h l x r' a.3 g.avl (omega arith) (omega arith) in
      record { avl = b.avl; no_less = omega arith; one_more = omega arith }

  pub Shrinks-left :
      (h : ℤ) {l l' : AvlNode K} (x : K) (r : AvlNode K)
      → IsAvl (node h l x r)
      → Shrinks l l'
      → Shrinks (node h l x r) (balance (node h l' x r))
  Shrinks-left h {l} {l'} x r a g =
      let b = balance-IsBalanced h l' x r g.avl a.4 (omega arith) (omega arith) in
      record { avl = b.avl; no_more = omega arith; one_less = omega arith }

  -- The root may take another key.
  pub Shrinks-right :
      (h : ℤ) (l : AvlNode K) (x y : K) {r r' : AvlNode K}
      → IsAvl (node h l x r)
      → Shrinks r r'
      → Shrinks (node h l x r) (balance (node h l y r'))
  Shrinks-right h l x y {r} {r'} a g =
      let b = balance-IsBalanced h l y r' a.3 g.avl (omega arith) (omega arith) in
      record { avl = b.avl; no_more = omega arith; one_less = omega arith }
