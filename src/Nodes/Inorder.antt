-- ===== src/Nodes/Inorder.antt =====
-- What the functions of include/nodesdef.hpp mean for the keys of a tree in order.
use de_si_gnar.Prelude.{
  ◌≡◌, ◌∙◌, refl, sym, [], ◌∷◌, arith, append_assoc, first, last, first-append, last-append,
  last-skip,
}
use de_si_gnar.Compare.{Compare}
use de_si_gnar.Ordered.{IsSorted}
use de_si_gnar.Ordered
use de_si_gnar.Ordered.Split.{IsSorted-split, search-left, search-right, search-found}
use de_si_gnar.Nodes.{
  BinTree, null, node, inorder, generic_rotate_left, generic_rotate_right, min, max,
  generic_bst_search_by,
}

module _ {ℓ κ} {M : Type κ} {K : Type ℓ} where
  pub inorder-generic_rotate_left : (t : BinTree M K) → inorder (generic_rotate_left t) ≡ inorder t
  unfolding generic_rotate_left
  inorder-generic_rotate_left null = refl
  inorder-generic_rotate_left (node m a x null) = refl
  inorder-generic_rotate_left (node m a x (node n b y c)) = simp append_assoc

  pub inorder-generic_rotate_right :
      (t : BinTree M K) → inorder (generic_rotate_right t) ≡ inorder t
  unfolding generic_rotate_right
  inorder-generic_rotate_right null = refl
  inorder-generic_rotate_right (node n null y c) = refl
  inorder-generic_rotate_right (node n (node m a x b) y c) = simp append_assoc

  pub min-inorder : (t : BinTree M K) → min t ≡ first (inorder t)
  unfolding min
  min-inorder null = refl
  min-inorder (node m null x r) = refl
  min-inorder (node m (node n a y b) x r) =
      min-inorder (node n a y b) ∙ sym (first-append (inorder a) y (inorder b) (x ∷ inorder r))

  pub max-inorder : (t : BinTree M K) → max t ≡ last (inorder t)
  unfolding max
  max-inorder null = refl
  max-inorder (node m l x null) = sym (last-append (inorder l) x [])
  max-inorder (node m l x (node n a y b)) =
      max-inorder (node n a y b) ∙ sym (last-skip (inorder l) x (inorder a) y (inorder b))

  -- At an ordered tree the descent finds what a search of the ordered list of its keys finds.
  pub search-inorder :
      ⦃o : Compare K⦄
      → (t : BinTree M K) (k : K) → IsSorted (inorder t)
      → generic_bst_search_by o.cmp o.cmp t k ≡ Ordered.search k (inorder t)
  unfolding generic_bst_search_by Ordered.search
  search-inorder null k s = refl
  search-inorder ⦃o⦄ (node m l x r) k s =
      let (below, above, sl, sr) = IsSorted-split (inorder l) x (inorder r) s in
      ground (
        arith,
        search-inorder l k sl,
        search-inorder r k sr,
        search-left k x (inorder r) (inorder l),
        search-right k x (inorder r) (inorder l) below,
        search-found k x (inorder r) (inorder l) below,
      )
