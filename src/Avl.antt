-- ===== src/Avl.antt =====
-- include/avltree.hpp, `AVLNode` and `AVLTree`: a height-balanced search tree. A node stores its
-- height, and the sentinel's height is -1. What the source returns as a pointer to a node or to
-- its key is the key; `Node::null` and `nullptr` are `none`.
pub mod Shape
pub mod Balance
pub mod Operations
pub mod Keys
pub mod Duplicates
pub mod Search
pub mod Verify
pub mod Height
pub mod Container
pub mod Copy
pub mod Client
use de_si_gnar.Prelude.{
  ℕ, zero, suc, ◌+◌, ◌-◌, Bool, true, false, Option, none, some, List, [], ◌∷◌, ◌&&◌, ◌||◌, not,
  if◌then◌else◌,
}
use de_si_gnar.Prelude.Int.{ℤ, pos, negsuc, ◌+ℤ◌, ◌-ℤ◌, max_ℤ, abs_ℤ, ltb_ℤ, eq_ℤ}
use de_si_gnar.Compare.{Compare}
use de_si_gnar.Nodes.{
  BinTree, null, node, left, right, key?, with_left, with_right, is_null, generic_rotate_left,
  generic_rotate_right, min, max, generic_bst_search_by,
}

-- A node adds its height to `BaseBinTreeNode`.
abbrev pub AvlNode {ℓ} : Type ℓ → Type ℓ
AvlNode K = BinTree ℤ K

module _ {ℓ} {K : Type ℓ} where
  -- `HEIGHT(p)`.
  abbrev pub height : AvlNode K → ℤ
  height null = negsuc 0
  height (node h l x r) = h

  -- `new Node(k)`.
  abbrev pub new_node : K → AvlNode K
  new_node k = node (pos 0) null k null

  unfoldable pub update_height : AvlNode K → AvlNode K
  update_height null = null
  update_height (node h l x r) = node (pos 1 +ℤ max_ℤ (height l) (height r)) l x r

  unfoldable pub balance_factor : AvlNode K → ℤ
  balance_factor t = height (left t) -ℤ height (right t)

  -- The old root is a child of the new one when the heights are recomputed.
  unfoldable pub rotate_left : AvlNode K → AvlNode K
  rotate_left r = update_height (with_left update_height (generic_rotate_left r))

  unfoldable pub rotate_right : AvlNode K → AvlNode K
  rotate_right r = update_height (with_right update_height (generic_rotate_right r))

  -- `balance` after its call of `update_height`.
  unfoldable pub rebalance : AvlNode K → AvlNode K
  rebalance r =
      if ltb_ℤ (pos 1) (balance_factor r)
      then rotate_right
          (if ltb_ℤ (balance_factor (left r)) (pos 0) then with_left rotate_left r else r)
      else if ltb_ℤ (balance_factor r) (negsuc 0)
      then rotate_left
          (if ltb_ℤ (pos 0) (balance_factor (right r)) then with_right rotate_right r else r)
      else r

  unfoldable pub balance : AvlNode K → AvlNode K
  balance r = rebalance (update_height r)

  -- The function takes the parts of the node `r`, which is not null.
  unfoldable pub remove_min : ℤ → AvlNode K → K → AvlNode K → AvlNode K × K
  remove_min h null x r = (r, x)
  remove_min h (node hl a y b) x r =
      let (l, least) = remove_min hl a y b in (balance (node h l x r), least)

  -- The case of `remove` that has found the node: with two children the node takes the key of its
  -- successor, and the successor's node is unlinked with the key that goes.
  unfoldable pub remove_here : ℤ → AvlNode K → K → AvlNode K → AvlNode K
  remove_here h null x r = r
  remove_here h (node hl a y b) x null = node hl a y b
  remove_here h (node hl a y b) x (node hr c z d) =
      let (r, successor) = remove_min hr c z d in balance (node h (node hl a y b) successor r)

  -- `copy` recomputes the heights.
  unfoldable pub copy : AvlNode K → AvlNode K
  copy null = null
  copy (node h l x r) = update_height (node (pos 0) (copy l) x (copy r))

  -- How `insert` and `remove` go on after their call for a child, which `f` puts in its place: with
  -- no rebalancing where that call reports nothing.
  abbrev pub rebuilt : (AvlNode K → AvlNode K) → AvlNode K × Option K → AvlNode K × Option K
  rebuilt f (t, none) = (f t, none)
  rebuilt f (t, some k) = (balance (f t), some k)

module _ {ℓ} {K : Type ℓ} ⦃o : Compare K⦄ where
  unfoldable pub insert : AvlNode K → K → AvlNode K × Option K
  insert null k = (new_node k, some k)
  insert (node h l x r) k = elim (o.cmp k x) [
    | true ↦ rebuilt (λ t. node h t x r) (insert l k)
    | false ↦ elim (o.cmp x k) [
      | true ↦ rebuilt (λ t. node h l x t) (insert r k)
      | false ↦ (node h l x r, none)
    ]
  ]

  unfoldable pub insert_dup : AvlNode K → K → AvlNode K
  insert_dup null k = new_node k
  insert_dup (node h l x r) k = elim (o.cmp k x) [
    | true ↦ balance (node h (insert_dup l k) x r)
    | false ↦ balance (node h l x (insert_dup r k))
  ]

  unfoldable pub search : AvlNode K → K → Option K
  search null k = none
  search (node h l x r) k = elim (o.cmp k x) [
    | true ↦ search l k
    | false ↦ elim (o.cmp x k) [ true ↦ search r k | false ↦ some x ]
  ]

  -- The key that the node found or inserted holds, and whether that is the new node.
  unfoldable pub search_or_insert : AvlNode K → K → AvlNode K × K × Bool
  search_or_insert null k = (new_node k, k, true)
  search_or_insert (node h l x r) k = elim (o.cmp k x) [
    | true ↦ let (t, found, fresh) = search_or_insert l k in (balance (node h t x r), found, fresh)
    | false ↦ elim (o.cmp x k) [
      | true ↦
          let (t, found, fresh) = search_or_insert r k in (balance (node h l x t), found, fresh)
      | false ↦ (node h l x r, x, false)
    ]
  ]

  unfoldable pub remove : AvlNode K → K → AvlNode K × Option K
  remove null k = (null, none)
  remove (node h l x r) k = elim (o.cmp k x) [
    | true ↦ rebuilt (λ t. node h t x r) (remove l k)
    | false ↦ elim (o.cmp x k) [
      | true ↦ rebuilt (λ t. node h l x t) (remove r k)
      | false ↦ (remove_here h l x r, some x)
    ]
  ]

  abbrev pub before_root : AvlNode K → K → Bool
  before_root null x = true
  before_root (node h l y r) x = o.cmp y x

  abbrev pub after_root : K → AvlNode K → Bool
  after_root x null = true
  after_root x (node h l y r) = o.cmp x y

  -- The static `verify`: it compares a key with those of its children only.
  unfoldable pub verify_node : AvlNode K → Bool
  verify_node null = true
  verify_node (node h l x r) =
      verify_node l
      && verify_node r
      && not (ltb_ℤ (pos 1) (abs_ℤ (balance_factor (node h l x r))))
      && eq_ℤ h (pos 1 +ℤ max_ℤ (height l) (height r))
      && before_root l x
      && after_root x r
