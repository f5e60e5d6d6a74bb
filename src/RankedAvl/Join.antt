-- ===== src/RankedAvl/Join.antt =====
-- `join` of `RankedAVLTree` (include/avltree.hpp): its keys and its balance.
use de_si_gnar.Prelude.{
  ℕ, ◌+◌, ◌≤◌, ◌<◌, ◌≡◌, ◌∙◌, refl, sym, ap, false, arith, max, [], ◌∷◌, ◌++◌, append_assoc,
  Bool-cases, inl, inr, ltb, ltb→lt, ltb_false→le, le→ltb_false,
}
use de_si_gnar.Prelude.Int.{pos, negsuc, ◌+ℤ◌, ltb_ℤ, int_pred, int_pred-max, int_pred-far}
use de_si_gnar.Nodes.{null, node, inorder}
use de_si_gnar.Avl.Shape.{levels, IsAvl, height-levels}
use de_si_gnar.Avl.Balance.{Grows, Grows-left, Grows-right}
use de_si_gnar.Avl.Keys
use de_si_gnar.RankedAvl.{RkInfo, RkNode, height, balance, attached, join}
use de_si_gnar.RankedAvl.Erase.{erase, inorder-erase, height-erase, balance-erase}

module _ {ℓ} {K : Type ℓ} where
  pub inorder-balance : (t : RkNode K) → inorder (balance t) ≡ inorder t
  inorder-balance t =
      sym (inorder-erase (balance t))
      ∙ ap inorder (balance-erase t)
      ∙ Keys.inorder-balance (erase t)
      ∙ inorder-erase t

  -- `join` puts the keys in a row.
  pub inorder-join :
      (l : RkNode K) (x : K) (r : RkNode K) → inorder (join l x r) ≡ inorder l ++ x ∷ inorder r
  unfolding join
  inorder-join null x null = refl
  inorder-join null x (node n a z b) =
      ground (arith, inorder-join null x a, inorder-balance (node n (join null x a) z b))
  inorder-join (node m c y d) x null = ground (
    arith,
    inorder-join d x null,
    inorder-balance (node m c y (join d x null)),
    append_assoc (inorder c) (y ∷ inorder d) (x ∷ []),
  )
  inorder-join (node m c y d) x (node n a z b) = ground (
    arith,
    inorder-join d x (node n a z b),
    inorder-join (node m c y d) x a,
    inorder-balance (node m c y (join d x (node n a z b))),
    inorder-balance (node n (join (node m c y d) x a) z b),
    append_assoc (inorder c) (y ∷ inorder d) (x ∷ (inorder a ++ z ∷ inorder b)),
    append_assoc (inorder c ++ y ∷ inorder d) (x ∷ inorder a) (z ∷ inorder b),
  )

  abbrev pub IsRankedAvl : RkNode K → Type 0
  IsRankedAvl t = IsAvl (erase t)

  abbrev pub tall : RkNode K → ℕ
  tall t = levels (erase t)

  -- What `join` promises of its result `t`.
  pub record IsJoined (m n : ℕ) (t : RkNode K) : Type 0 where
    pub avl : IsRankedAvl t
    pub most : tall t ≤ max m n + 1
    pub least : max m n ≤ tall t

  Grows-join :
      (s : RkNode K) {m n : ℕ} {t : RkNode K}
      → max m n ≡ tall s
      → IsJoined m n t
      → Grows (erase s) (erase t)
  Grows-join s e j = record { avl = j.avl; no_less = omega arith; one_more = omega arith }

  stored_height : (t : RkNode K) → IsRankedAvl t → height t ≡ int_pred (tall t)
  stored_height t a = sym (height-erase t) ∙ height-levels (erase t) a

  far :
      (l r : RkNode K)
      → IsRankedAvl l
      → IsRankedAvl r
      → ltb_ℤ (height r +ℤ pos 1) (height l) ≡ ltb (tall r + 1) (tall l)
  far l r al ar = rw (stored_height l al, stored_height r ar) (int_pred-far (tall r) (tall l))

  never_far :
      (r : RkNode K) → IsRankedAvl r → ltb_ℤ (height r +ℤ pos 1) (height {K = K} null) ≡ false
  never_far r ar = far null r tt ar ∙ le→ltb_false _ _ (omega arith)

  attached-IsJoined :
      (l : RkNode K) (x : K) (r : RkNode K)
      → IsRankedAvl l
      → IsRankedAvl r
      → ltb_ℤ (height r +ℤ pos 1) (height l) ≡ false
      → ltb_ℤ (height l +ℤ pos 1) (height r) ≡ false
      → IsJoined (tall l) (tall r) (attached l x r)
  attached-IsJoined l x r al ar hl hr =
      let near_l = ltb_false→le _ _ (sym (far l r al ar) ∙ hl) in
      let near_r = ltb_false→le _ _ (sym (far r l ar al) ∙ hr) in
      record {
        avl = (
          rw (stored_height l al, stored_height r ar) (int_pred-max (tall l) (tall r)),
          near_l,
          near_r,
          al,
          ar,
        );
        most = omega arith;
        least = omega arith;
      }

  -- One step down the right spine of the left tree, and one down the left spine of the right tree.
  join_right :
      (m : RkInfo) (c : RkNode K) (y : K) (d d' r : RkNode K)
      → IsRankedAvl (node m c y d)
      → tall r + 1 < tall (node m c y d)
      → IsJoined (tall d) (tall r) d'
      → IsJoined (tall (node m c y d)) (tall r) (balance (node m c y d'))
  join_right m c y d d' r a high j =
      let g = Grows-right m.stored_height (erase c) y a (Grows-join d (omega arith) j) in
      record {
        avl = rw (balance-erase (node m c y d')) g.avl;
        most = rw (balance-erase (node m c y d')) (omega arith);
        least = rw (balance-erase (node m c y d')) (omega arith);
      }

  join_left :
      (n : RkInfo) (l a a' : RkNode K) (z : K) (b : RkNode K)
      → IsRankedAvl (node n a z b)
      → tall l + 1 < tall (node n a z b)
      → IsJoined (tall l) (tall a) a'
      → IsJoined (tall l) (tall (node n a z b)) (balance (node n a' z b))
  join_left n l a a' z b ar high j =
      let g = Grows-left n.stored_height z (erase b) ar (Grows-join a (omega arith) j) in
      record {
        avl = rw (balance-erase (node n a' z b)) g.avl;
        most = rw (balance-erase (node n a' z b)) (omega arith);
        least = rw (balance-erase (node n a' z b)) (omega arith);
      }

  -- `join` builds a balanced tree with right heights from two such trees, whatever their
  -- heights: its levels are those of the higher one, or one more.
  pub join-IsJoined :
      (l : RkNode K) (x : K) (r : RkNode K)
      → IsRankedAvl l
      → IsRankedAvl r
      → IsJoined (tall l) (tall r) (join l x r)
  unfolding join
  join-IsJoined null x null al ar =
      attached-IsJoined null x null al ar (far null null al ar) (far null null al ar)
  join-IsJoined null x (node n a z b) al ar =
      elim (Bool-cases (ltb_ℤ (negsuc 0 +ℤ pos 1) n.stored_height)) [
        | inl high ↦
            rw (high, join)
              (join_left n null a _ z b ar (ltb→lt _ _ (sym (far (node n a z b) null ar al) ∙ high))
                (join-IsJoined null x a al ar.3))
        | inr near ↦
            rw (near, join)
              (attached-IsJoined null x (node n a z b) al ar (never_far (node n a z b) ar) near)
      ]
  join-IsJoined (node m c y d) x null al ar =
      elim (Bool-cases (ltb_ℤ (negsuc 0 +ℤ pos 1) m.stored_height)) [
        | inl high ↦
            rw (high, join)
              (join_right m c y d _ null al
                (ltb→lt _ _ (sym (far (node m c y d) null al ar) ∙ high))
                (join-IsJoined d x null al.4 ar))
        | inr near ↦
            rw (near, join)
              (attached-IsJoined (node m c y d) x null al ar near (never_far (node m c y d) al))
      ]
  join-IsJoined (node m c y d) x (node n a z b) al ar =
      elim (Bool-cases (ltb_ℤ (n.stored_height +ℤ pos 1) m.stored_height)) [
        | inl left ↦
            rw (left, join)
              (join_right m c y d _ (node n a z b) al
                (ltb→lt _ _ (sym (far (node m c y d) (node n a z b) al ar) ∙ left))
                (join-IsJoined d x (node n a z b) al.4 ar))
        | inr not_left ↦ elim (Bool-cases (ltb_ℤ (m.stored_height +ℤ pos 1) n.stored_height)) [
          | inl right ↦
              rw (not_left, right, join)
                (join_left n (node m c y d) a _ z b ar
                  (ltb→lt _ _ (sym (far (node n a z b) (node m c y d) ar al) ∙ right))
                  (join-IsJoined (node m c y d) x a al ar.3))
          | inr near ↦
              rw (not_left, near, join)
                (attached-IsJoined (node m c y d) x (node n a z b) al ar not_left near)
        ]
      ]
