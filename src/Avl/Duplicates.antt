-- ===== src/Avl/Duplicates.antt =====
-- `insert_dup` of include/avltree.hpp on the list of keys.
use de_si_gnar.Prelude.{◌≡◌, refl, arith}
use de_si_gnar.Compare.{Compare}
use de_si_gnar.Ordered
use de_si_gnar.Ordered.{IsSorted, IsSortedDup, reported, found_or, is_none}
use de_si_gnar.Ordered.Split.{IsSortedDup-split, insert_dup-left, insert_dup-right}
use de_si_gnar.Nodes.{null, node, inorder}
use de_si_gnar.Avl.{AvlNode, insert_dup}
use de_si_gnar.Avl.Keys.{inorder-balance}

module _ {ℓ} {K : Type ℓ} ⦃o : Compare K⦄ where
  -- At a tree whose keys ascend, equivalent ones allowed, `insert_dup` puts the key after all
  -- keys that do not come after it.
  pub insert_dup-inorder :
      (t : AvlNode K) (k : K)
      → IsSortedDup (inorder t)
      → inorder (insert_dup t k) ≡ Ordered.insert_dup k (inorder t)
  unfolding insert_dup Ordered.insert_dup
  insert_dup-inorder null k s = refl
  insert_dup-inorder (node h l x r) k s =
      let (below, above, sl, sr) = IsSortedDup-split (inorder l) x (inorder r) s in
      ground (
        arith,
        insert_dup-inorder l k sl,
        insert_dup-inorder r k sr,
        inorder-balance (node h (insert_dup l k) x r),
        inorder-balance (node h l x (insert_dup r k)),
        insert_dup-left k x (inorder r) (inorder l),
        insert_dup-right k x (inorder r) (inorder l) below,
      )
