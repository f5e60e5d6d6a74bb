-- ===== src/Nodes.antt =====
-- include/nodesdef.hpp: the node type that the search trees share, `BaseBinTreeNode`, and the
-- functions that are generic in it. A node owns its children, so a tree of pointers is a tree; the
-- sentinel `Node::null` is `null`. `M` is what a derived node type adds: a height, a color, a
-- priority, a count.
pub mod Inorder
pub mod Ranked
pub mod Iterator
use de_si_gnar.Prelude.{
  ℕ, zero, suc, ◌+◌, ◌-◌, Bool, true, false, Option, none, some, List, [], ◌∷◌, ◌++◌, ltb, ◌==◌,
  if◌then◌else◌,
}
use de_si_gnar.Prelude.Int.{ℤ, pos, negsuc, ◌+ℤ◌, eq_ℤ}
use de_si_gnar.Compare.{Compare}

pub data BinTree {ℓ κ} (M : Type κ) (K : Type ℓ) : Type (ℓ ⊔ κ) where
  null : BinTree M K
  node : M → BinTree M K → K → BinTree M K → BinTree M K

module _ {ℓ κ} {M : Type κ} {K : Type ℓ} where
  -- `L(p)` and `R(p)`, with `null` for the children of the sentinel.
  abbrev pub left : BinTree M K → BinTree M K
  left null = null
  left (node m l x r) = l

  abbrev pub right : BinTree M K → BinTree M K
  right null = null
  right (node m l x r) = r

  abbrev pub key? : BinTree M K → Option K
  key? null = none
  key? (node m l x r) = some x

  abbrev pub is_null : BinTree M K → Bool
  is_null null = true
  is_null (node m l x r) = false

  -- `L(p) = f(L(p))` and `R(p) = f(R(p))`.
  abbrev pub with_left : (BinTree M K → BinTree M K) → BinTree M K → BinTree M K
  with_left f null = null
  with_left f (node m l x r) = node m (f l) x r

  abbrev pub with_right : (BinTree M K → BinTree M K) → BinTree M K → BinTree M K
  with_right f null = null
  with_right f (node m l x r) = node m l x (f r)

  -- The keys from left to right.
  abbrev pub inorder : BinTree M K → List K
  inorder null = []
  inorder (node m l x r) = inorder l ++ x ∷ inorder r

  -- The caller sees to it that the child that moves up is a node.
  unfoldable pub generic_rotate_left : BinTree M K → BinTree M K
  generic_rotate_left (node m a x (node n b y c)) = node n (node m a x b) y c
  generic_rotate_left t = t

  unfoldable pub generic_rotate_right : BinTree M K → BinTree M K
  generic_rotate_right (node n (node m a x b) y c) = node m a x (node n b y c)
  generic_rotate_right t = t

  -- `min(r)` and `max(r)`, the loops down the left and the right spine.
  unfoldable pub min : BinTree M K → Option K
  min null = none
  min (node m null x r) = some x
  min (node m (node n a y b) x r) = min (node n a y b)

  unfoldable pub max : BinTree M K → Option K
  max null = none
  max (node m l x null) = some x
  max (node m l x (node n a y b)) = max (node n a y b)

  -- `generic_bst_search_by`: the probe may be of another type than the keys.
  unfoldable pub generic_bst_search_by {μ} :
      {P : Type μ} → (P → K → Bool) → (K → P → Bool) → BinTree M K → P → Option K
  generic_bst_search_by lt gt null k = none
  generic_bst_search_by lt gt (node m l x r) k = elim (lt k x) [
    | true ↦ generic_bst_search_by lt gt l k
    | false ↦ elim (gt x k) [ true ↦ generic_bst_search_by lt gt r k | false ↦ some x ]
  ]

-- The order statistics read the subtree size that a node stores: `stored` is `get_count()`.
module _ {ℓ κ} {M : Type κ} {K : Type ℓ} (stored : M → ℕ) where
  -- `COUNT(p)`: the sentinel's count is 0.
  abbrev pub count : BinTree M K → ℕ
  count null = 0
  count (node m l x r) = stored m

  unfoldable pub generic_select : BinTree M K → ℕ → Option K
  generic_select null i = none
  generic_select (node m l x r) i = elim (count l == i) [
    | true ↦ some x
    | false ↦ elim (ltb i (count l)) [
      | true ↦ generic_select l i
      | false ↦ generic_select r (i - count l - 1)
    ]
  ]

  -- -1 where the key is absent.
  unfoldable pub generic_position : ⦃o : Compare K⦄ → BinTree M K → K → ℤ
  generic_position null k = negsuc 0
  generic_position ⦃o⦄ (node m l x r) k = elim (o.cmp k x) [
    | true ↦ generic_position l k
    | false ↦ elim (o.cmp x k) [
      | true ↦
          let p = generic_position r k in
          if eq_ℤ p (negsuc 0) then p else p +ℤ pos (count l) +ℤ pos 1
      | false ↦ pos (count l)
    ]
  ]
