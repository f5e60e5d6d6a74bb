-- ===== src/Avl/Client.antt =====
-- Sequences of calls of a client of `AVLTree` (include/avltree.hpp), on the tree and on the
-- ordered list.
use de_si_gnar.Prelude.{◌≡◌, ◌∙◌, refl, ap, List, [], ◌∷◌}
use de_si_gnar.Compare.{Compare}
use de_si_gnar.Ordered
use de_si_gnar.Avl.Container
use de_si_gnar.Avl.Container.{AvlTree}
use de_si_gnar.Avl.Container.Laws.{
  IsValid, keys, insert-IsValid, keys-insert, search_or_insert_lem, remove_lem,
}

-- The calls of a client.
pub data Op {ℓ} (K : Type ℓ) : Type ℓ where
  insert : K → Op K
  search_or_insert : K → Op K
  remove : K → Op K
  clear : Op K

module _ {ℓ} {K : Type ℓ} ⦃o : Compare K⦄ where
  unfoldable pub step : Op K → AvlTree K → AvlTree K
  step (Op.insert k) t = (Container.insert t k).0
  step (Op.search_or_insert k) t = (Container.search_or_insert t k).0
  step (Op.remove k) t = (Container.remove t k).0
  step Op.clear t = Container.clear t

  unfoldable pub run : List (Op K) → AvlTree K → AvlTree K
  run [] t = t
  run (c ∷ cs) t = run cs (step c t)

  -- The same calls on the ordered list.
  unfoldable pub step_keys : Op K → List K → List K
  step_keys (Op.insert k) xs = Ordered.insert k xs
  step_keys (Op.search_or_insert k) xs = Ordered.insert k xs
  step_keys (Op.remove k) xs = Ordered.remove k xs
  step_keys Op.clear xs = []

  unfoldable pub run_keys : List (Op K) → List K → List K
  run_keys [] xs = xs
  run_keys (c ∷ cs) xs = run_keys cs (step_keys c xs)

  step_lem :
      (c : Op K) (t : AvlTree K)
      → IsValid t
      → IsValid (step c t) × (keys (step c t) ≡ step_keys c (keys t))
  unfolding step step_keys
  step_lem (Op.insert k) t v = (insert-IsValid t k v, keys-insert t k v.sorted)
  step_lem (Op.search_or_insert k) t v = let r = search_or_insert_lem t k v in (r.0, r.1)
  step_lem (Op.remove k) t v = let r = remove_lem t k v in (r.0, r.1)
  step_lem Op.clear t v =
      unfold Container.clear in (record { avl = tt; sorted = tt; counts = refl }, refl)

  -- From a valid tree, any sequence of insertions, searches with insertion, removals and
  -- clearings leads to a valid tree (balanced with right heights, keys strictly ascending,
  -- keys counted), whose keys are what the same calls make of the ordered list.
  pub run_refines :
      (cs : List (Op K)) (t : AvlTree K)
      → IsValid t
      → IsValid (run cs t) × (keys (run cs t) ≡ run_keys cs (keys t))
  unfolding run run_keys
  run_refines [] t v = (v, refl)
  run_refines (c ∷ cs) t v =
      let (valid, content) = step_lem c t v in
      let (valid', content') = run_refines cs (step c t) valid in
      (valid', content' ∙ ap (run_keys cs) content)
