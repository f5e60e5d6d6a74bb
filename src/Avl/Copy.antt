-- ===== src/Avl/Copy.antt =====
-- `copy` of `AVLTree` (include/avltree.hpp), which recomputes the heights.
use de_si_gnar.Prelude.{◌≡◌, ◌∙◌, refl, sym, ap}
use de_si_gnar.Compare.{Compare}
use de_si_gnar.Nodes.{null, node}
use de_si_gnar.Avl
use de_si_gnar.Avl.{AvlNode, update_height}
use de_si_gnar.Avl.Shape.{IsAvl, expected_height}
use de_si_gnar.Avl.Container
use de_si_gnar.Avl.Container.{AvlTree}
use de_si_gnar.Avl.Container.Laws.{IsValid}

module _ {ℓ} {K : Type ℓ} where
  copy-same : (t : AvlNode K) → IsAvl t → Avl.copy t ≡ t
  unfolding Avl.copy update_height
  copy-same null a = refl
  copy-same (node h l x r) a =
      rw (copy-same l a.3, copy-same r a.4)
        (ap (λ n. node n l x r) (expected_height l r a.3 a.4 ∙ sym a.0))

module _ {ℓ} {K : Type ℓ} ⦃o : Compare K⦄ where
  -- The copy of a valid tree is equal to it, although the heights are computed anew.
  pub copy-IsValid : (t : AvlTree K) → IsValid t → Container.copy t ≡ t
  unfolding Container.copy
  copy-IsValid t v = ap (λ r. record { root = r; num_items = t.num_items }) (copy-same t.root v.avl)
