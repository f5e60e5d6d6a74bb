-- ===== src/RbTree/RemoveBelow.antt =====
-- What a removal from a red-black tree promises (include/rbtree.hpp), and the step of `remove` at a
-- root once the right child is prepared.
use de_si_gnar.Prelude.{
  ℕ, zero, suc, ◌≤◌, ◌≡◌, ◌∙◌, refl, sym, ap, false, Option, some, ◌⊎◌, List, [], ◌∷◌, ◌++◌, length,
  first,
}
use de_si_gnar.Compare.{Compare, ◌≺◌}
use de_si_gnar.Ordered
use de_si_gnar.Ordered.{IsSorted}
use de_si_gnar.Ordered.Split.{
  IsSorted-split, search-right, search-found, remove-right, remove-found,
}
use de_si_gnar.Nodes.{null, node, inorder, key?, min}
use de_si_gnar.Nodes.Inorder.{min-inorder}
use de_si_gnar.RbTree.{
  RbColor, red, black, RbNode, is_red, balance, delete_min, remove, remove_rotated, remove_below,
}
use de_si_gnar.RbTree.Keys.{inorder-balance}
use de_si_gnar.RbTree.Prepare.{IsShrunk, IsReady, IsTurned}
use de_si_gnar.RbTree.DeleteMin.{delete_min_lem}

module _ {ℓ} {K : Type ℓ} ⦃o : Compare K⦄ where
  -- What a removal of `k` from `t`, with the keys `xs`, promises.
  pub record IsRemoved (res : Option (RbNode K × K)) (t : RbNode K) (n : ℕ) (k : K) (xs : List K)
      : Type ℓ where
    pub rest : RbNode K
    pub gone : K
    pub result : res ≡ some (rest, gone)
    pub shrunk : IsShrunk t rest n
    pub content : inorder rest ≡ Ordered.remove k xs
    pub found : Ordered.search k xs ≡ some gone

  -- A tree from which `remove` can take `k`: also where the root is black and the right child red,
  -- if `k` does not come before the root.
  abbrev pub IsRemovable : RbNode K → ℕ → K → Type ℓ
  IsRemovable t n k =
      IsReady t n
      ⊎ (IsTurned t n × (is_red t ≡ false) × ((x : K) → key? t ≡ some x → o.cmp k x ≡ false))

  -- The same removal, told of another root of the same color.
  pub carried :
      (res res' : Option (RbNode K × K)) (t t' : RbNode K) (n : ℕ) (k : K) (xs ys : List K)
      → res' ≡ res
      → is_red t' ≡ is_red t
      → xs ≡ ys
      → IsRemoved res t n k xs
      → IsRemoved res' t' n k ys
  carried res res' t t' n k xs ys p c q h = record {
    rest = h.rest;
    gone = h.gone;
    result = p ∙ h.result;
    shrunk = record { good = h.shrunk.good; strict = λ e. h.shrunk.strict (sym c ∙ e) };
    content = h.content ∙ ap (Ordered.remove k) q;
    found = ap (Ordered.search k) (sym q) ∙ h.found;
  }

  -- The recursive call for a subtree.
  abbrev pub Recursion : ℕ → K → Type ℓ
  Recursion fuel k =
      (t : RbNode K) (n : ℕ) (found : K)
      → length (inorder t) ≤ fuel
      → IsSorted (inorder t)
      → Ordered.search k (inorder t) ≡ some found
      → IsRemovable t n k
      → IsRemoved (remove fuel t k) t n k (inorder t)

  -- The step down on the right, from a root `y` over `a` and `b`.
  module _ (fuel : ℕ) (k : K) (rec : Recursion fuel k) (e : RbColor) (a : RbNode K) (y : K)
      (b : RbNode K) (s : IsSorted (inorder (node e a y b))) where
    -- The key is further down.
    pub below_more :
        (t : RbNode K) (n m : ℕ) (found : K)
        → length (inorder b) ≤ fuel
        → y ≺ k
        → Ordered.search k (inorder (node e a y b)) ≡ some found
        → IsRemovable b m k
        → ((b' : RbNode K) → IsShrunk b b' m → IsShrunk t (balance (node e a y b')) n)
        → IsRemoved
            (remove_below (λ t. remove fuel t k) (delete_min fuel) k (node e a y b))
            t
            n
            k
            (inorder (node e a y b))
    below_more t n m found size more here g resume =
        let (below_y, above_y, sa, sb) = IsSorted-split (inorder a) y (inorder b) s in
        let there = search-right k y (inorder b) (inorder a) below_y more in
        let below = rec b m found size sb (sym there ∙ here) g in
        record {
          rest = balance (node e a y below.rest);
          gone = below.gone;
          result = rw (more, remove_below, below.result) refl;
          shrunk = resume below.rest below.shrunk;
          content =
              inorder-balance (node e a y below.rest)
              ∙ ap (λ xs. inorder a ++ y ∷ xs) below.content
              ∙ sym (remove-right k y (inorder b) (inorder a) below_y more);
          found = there ∙ below.found;
        }

    -- The key is that of the root.
    pub below_here :
        (t : RbNode K) (n m : ℕ)
        → length (inorder b) ≤ fuel
        → o.cmp k y ≡ false
        → o.cmp y k ≡ false
        → IsReady b m
        → ((z : K) (b' : RbNode K) → IsShrunk b b' m → IsShrunk t (balance (node e a z b')) n)
        → IsRemoved
            (remove_below (λ t. remove fuel t k) (delete_min fuel) k (node e a y b))
            t
            n
            k
            (inorder (node e a y b))
    below_here t n m size not_less not_more g resume =
        let (below_y, above_y, sa, sb) = IsSorted-split (inorder a) y (inorder b) s in
        let below = delete_min_lem fuel b m size g in
        let successor : min b ≡ some below.least = min-inorder b ∙ ap first below.content in
        record {
          rest = balance (node e a below.least below.rest);
          gone = y;
          result = rw (not_more, remove_below, successor, below.result) refl;
          shrunk = resume below.least below.rest below.shrunk;
          content =
              inorder-balance (node e a below.least below.rest)
              ∙ ap (λ xs. inorder a ++ xs) (sym below.content)
              ∙ sym (remove-found k y (inorder b) (inorder a) below_y not_less not_more);
          found = search-found k y (inorder b) (inorder a) below_y not_less not_more;
        }

  pub red_leaf :
      (fuel : ℕ) (k : K) (c : RbColor) (l : RbNode K) (x : K) (n : ℕ)
      → o.cmp k x ≡ false
      → o.cmp x k ≡ false
      → IsTurned (node c l x null) n
      → IsRemoved
          (remove_rotated (λ t. remove fuel t k) (delete_min fuel) k (node c l x null))
          (node c l x null)
          n
          k
          (inorder (node c l x null))
  red_leaf fuel k black l x zero not_less not_more g = cc
  red_leaf fuel k black l x (suc n) not_less not_more g = cc
  red_leaf fuel k red (node red a y b) x n not_less not_more g = cc
  red_leaf fuel k red (node black a y b) x zero not_less not_more g = cc
  red_leaf fuel k red (node black a y b) x (suc n) not_less not_more g = cc
  red_leaf fuel k red null x n not_less not_more g = record {
    rest = null;
    gone = x;
    result = rw (not_more, remove_rotated) refl;
    shrunk = record { good = g.2; strict = λ e. refl };
    content = sym (remove-found k x [] [] tt not_less not_more);
    found = search-found k x [] [] tt not_less not_more;
  }
