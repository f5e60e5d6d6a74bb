-- ===== src/Avl/Search.antt =====
-- `search` of include/avltree.hpp on the list of keys.
use de_si_gnar.Prelude.{◌≡◌, ◌∙◌, refl, arith}
use de_si_gnar.Compare.{Compare}
use de_si_gnar.Ordered
use de_si_gnar.Ordered.{IsSorted, IsSortedDup, reported, found_or, is_none}
use de_si_gnar.Nodes.{generic_bst_search_by, null, node, inorder}
use de_si_gnar.Nodes.Inorder.{search-inorder}
use de_si_gnar.Avl.{AvlNode, search}

module _ {ℓ} {K : Type ℓ} ⦃o : Compare K⦄ where
  -- The recursive search is the generic descent.
  pub search-generic : (t : AvlNode K) (k : K) → search t k ≡ generic_bst_search_by o.cmp o.cmp t k
  unfolding search generic_bst_search_by
  search-generic null k = refl
  search-generic (node h l x r) k = ground (arith, search-generic l k, search-generic r k)

  pub search-inorder_lem :
      (t : AvlNode K) (k : K) → IsSorted (inorder t) → search t k ≡ Ordered.search k (inorder t)
  search-inorder_lem t k s = search-generic t k ∙ search-inorder t k s
