-- ===== src/RankedAvl/Copy.antt =====
-- `copy` of `RankedAVLTree` (include/avltree.hpp), which recomputes the heights and the counts.
use de_si_gnar.Prelude.{◌≡◌, ◌∙◌, refl, sym, ap, ap₂}
use de_si_gnar.Nodes.{null, node}
use de_si_gnar.Avl.Shape.{expected_height}
use de_si_gnar.RankedAvl
use de_si_gnar.RankedAvl.{RkInfo, RkNode, info, height}
use de_si_gnar.RankedAvl.Erase.{erase, height-erase}
use de_si_gnar.RankedAvl.Count.{IsCounted}
use de_si_gnar.RankedAvl.Join.{IsRankedAvl}
use de_si_gnar.RankedAvl.Container
use de_si_gnar.RankedAvl.Container.{RankedAvlTree}
use de_si_gnar.RankedAvl.Container.Laws.{IsWell}

module _ {ℓ} {K : Type ℓ} where
  info-same :
      (m : RkInfo) (l : RkNode K) (x : K) (r : RkNode K)
      → IsRankedAvl (node m l x r)
      → IsCounted (node m l x r)
      → info l r ≡ m
  info-same m l x r a c =
      ap₂ (λ h n. record { stored_height = h; stored_count = n })
        (rw (← height-erase l, ← height-erase r) (expected_height (erase l) (erase r) a.3 a.4)
          ∙ sym a.0)
        (sym c.0)

  copy-same : (t : RkNode K) → IsRankedAvl t → IsCounted t → RankedAvl.copy t ≡ t
  unfolding RankedAvl.copy
  copy-same null a c = refl
  copy-same (node m l x r) a c =
      rw (copy-same l a.3 c.1, copy-same r a.4 c.2) (ap (λ i. node i l x r) (info-same m l x r a c))

  -- The copy of a tree that is balanced with right heights and counts is equal to it,
  -- although heights and counts are computed anew.
  pub copy-IsWell : (t : RankedAvlTree K) → IsWell t → Container.copy t ≡ t
  unfolding Container.copy
  copy-IsWell t w = ap (λ r. record { root = r }) (copy-same t.root w.avl w.counts)
