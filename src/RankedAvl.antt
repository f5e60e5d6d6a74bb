-- ===== src/RankedAvl.antt =====
-- include/avltree.hpp, `AVLRkNode` and `RankedAVLTree`: the height-balanced search tree whose nodes
-- also count the keys of their subtrees, with selection, removal and splitting by position.
pub mod Erase
pub mod Count
pub mod CountKeys
pub mod Join
pub mod Simulate
pub mod Position
pub mod Verify
pub mod Copy
pub mod Container
use de_si_gnar.Prelude.{
  ℕ, zero, suc, ◌+◌, ◌-◌, Bool, true, false, Option, none, some, List, [], ◌∷◌, ◌&&◌, not,
  if◌then◌else◌, ltb, ◌==◌,
}
use de_si_gnar.Prelude.Int.{ℤ, pos, negsuc, ◌+ℤ◌, ◌-ℤ◌, max_ℤ, abs_ℤ, ltb_ℤ, eq_ℤ}
use de_si_gnar.Compare.{Compare}
use de_si_gnar.Nodes.{
  BinTree, null, node, left, right, with_left, with_right, generic_rotate_left,
  generic_rotate_right,
}
use de_si_gnar.Nodes

-- What `AVLRkNode` adds to `BaseBinTreeNode`.
pub record RkInfo : Type 0 where
  pub stored_height : ℤ
  pub stored_count : ℕ

abbrev pub RkNode {ℓ} : Type ℓ → Type ℓ
RkNode K = BinTree RkInfo K

abbrev pub stored : RkInfo → ℕ
stored i = i.stored_count

module _ {ℓ} {K : Type ℓ} where
  -- `HEIGHT(p)` and `COUNT(p)`: the sentinel has height -1 and count 0.
  abbrev pub height : RkNode K → ℤ
  height null = negsuc 0
  height (node m l x r) = m.stored_height

  abbrev pub count : RkNode K → ℕ
  count t = Nodes.count stored t

  -- `new Node(k)`.
  abbrev pub new_node : K → RkNode K
  new_node k = node (record { stored_height = pos 0; stored_count = 1 }) null k null

  abbrev pub info : RkNode K → RkNode K → RkInfo
  info l r = record {
    stored_height = pos 1 +ℤ max_ℤ (height l) (height r);
    stored_count = count l + count r + 1;
  }

  unfoldable pub update : RkNode K → RkNode K
  update null = null
  update (node m l x r) = node (info l r) l x r

  unfoldable pub balance_factor : RkNode K → ℤ
  balance_factor t = height (left t) -ℤ height (right t)

  unfoldable pub rotate_left : RkNode K → RkNode K
  rotate_left r = update (with_left update (generic_rotate_left r))

  unfoldable pub rotate_right : RkNode K → RkNode K
  rotate_right r = update (with_right update (generic_rotate_right r))

  -- `balance` after its call of `update`.
  unfoldable pub rebalance : RkNode K → RkNode K
  rebalance r =
      if ltb_ℤ (pos 1) (balance_factor r)
      then rotate_right
          (if ltb_ℤ (balance_factor (left r)) (pos 0) then with_left rotate_left r else r)
      else if ltb_ℤ (balance_factor r) (negsuc 0)
      then rotate_left
          (if ltb_ℤ (pos 0) (balance_factor (right r)) then with_right rotate_right r else r)
      else r

  unfoldable pub balance : RkNode K → RkNode K
  balance r = rebalance (update r)

  -- A node that is given its children, and then updated.
  abbrev pub attached : RkNode K → K → RkNode K → RkNode K
  attached l x r = node (info l r) l x r

  -- `x` is the key of `mid`. The sentinel, of height -1, is never the higher side by two.
  unfoldable pub join : RkNode K → K → RkNode K → RkNode K
  join null x null = attached null x null
  join null x (node n a z b) = elim (ltb_ℤ (negsuc 0 +ℤ pos 1) n.stored_height) [
    | true ↦ balance (node n (join null x a) z b)
    | false ↦ attached null x (node n a z b)
  ]
  join (node m c y d) x null = elim (ltb_ℤ (negsuc 0 +ℤ pos 1) m.stored_height) [
    | true ↦ balance (node m c y (join d x null))
    | false ↦ attached (node m c y d) x null
  ]
  join (node m c y d) x (node n a z b) = elim (ltb_ℤ (n.stored_height +ℤ pos 1) m.stored_height) [
    | true ↦ balance (node m c y (join d x (node n a z b)))
    | false ↦ elim (ltb_ℤ (m.stored_height +ℤ pos 1) n.stored_height) [
      | true ↦ balance (node n (join (node m c y d) x a) z b)
      | false ↦ attached (node m c y d) x (node n a z b)
    ]
  ]

  unfoldable pub remove_min : RkInfo → RkNode K → K → RkNode K → RkNode K × K
  remove_min m null x r = (r, x)
  remove_min m (node n a y b) x r =
      let (l, least) = remove_min n a y b in (balance (node m l x r), least)

  -- The case of `remove` and of `remove_pos` that has found the node.
  unfoldable pub remove_here : RkInfo → RkNode K → K → RkNode K → RkNode K
  remove_here m null x r = r
  remove_here m (node n a y b) x null = node n a y b
  remove_here m (node n a y b) x (node p c z d) =
      let (r, successor) = remove_min p c z d in balance (node m (node n a y b) successor r)

  -- `copy` recomputes the heights and the counts.
  unfoldable pub copy : RkNode K → RkNode K
  copy null = null
  copy (node m l x r) = attached (copy l) x (copy r)

  abbrev pub rebuilt : (RkNode K → RkNode K) → RkNode K × Option K → RkNode K × Option K
  rebuilt f (t, none) = (f t, none)
  rebuilt f (t, some k) = (balance (f t), some k)

  -- The caller sees to it that there is a key at position `i`.
  unfoldable pub remove_pos : RkNode K → ℕ → RkNode K × Option K
  remove_pos null i = (null, none)
  remove_pos (node m l x r) i = elim (count l == i) [
    | true ↦ (remove_here m l x r, some x)
    | false ↦ elim (ltb i (count l)) [
      | true ↦ let (t, gone) = remove_pos l i in (balance (node m t x r), gone)
      | false ↦ let (t, gone) = remove_pos r (i - count l - 1) in (balance (node m l x t), gone)
    ]
  ]

  -- The keys before position `i`, and those from it on.
  unfoldable pub split_pos : RkNode K → ℕ → RkNode K × RkNode K
  split_pos null i = (null, null)
  split_pos (node m l x r) i = elim (i == count l) [
    | true ↦ (l, join null x r)
    | false ↦ elim (ltb i (count l)) [
      | true ↦ let (ts, tg) = split_pos l i in (ts, join tg x r)
      | false ↦ let (ts, tg) = split_pos r (i - count l - 1) in (join l x ts, tg)
    ]
  ]

module _ {ℓ} {K : Type ℓ} ⦃o : Compare K⦄ where
  unfoldable pub insert : RkNode K → K → RkNode K × Option K
  insert null k = (new_node k, some k)
  insert (node m l x r) k = elim (o.cmp k x) [
    | true ↦ rebuilt (λ t. node m t x r) (insert l k)
    | false ↦ elim (o.cmp x k) [
      | true ↦ rebuilt (λ t. node m l x t) (insert r k)
      | false ↦ (node m l x r, none)
    ]
  ]

  unfoldable pub insert_dup : RkNode K → K → RkNode K
  insert_dup null k = new_node k
  insert_dup (node m l x r) k = elim (o.cmp k x) [
    | true ↦ balance (node m (insert_dup l k) x r)
    | false ↦ balance (node m l x (insert_dup r k))
  ]

  unfoldable pub search : RkNode K → K → Option K
  search null k = none
  search (node m l x r) k = elim (o.cmp k x) [
    | true ↦ search l k
    | false ↦ elim (o.cmp x k) [ true ↦ search r k | false ↦ some x ]
  ]

  unfoldable pub search_or_insert : RkNode K → K → RkNode K × K × Bool
  search_or_insert null k = (new_node k, k, true)
  search_or_insert (node m l x r) k = elim (o.cmp k x) [
    | true ↦ let (t, found, fresh) = search_or_insert l k in (balance (node m t x r), found, fresh)
    | false ↦ elim (o.cmp x k) [
      | true ↦
          let (t, found, fresh) = search_or_insert r k in (balance (node m l x t), found, fresh)
      | false ↦ (node m l x r, x, false)
    ]
  ]

  unfoldable pub remove : RkNode K → K → RkNode K × Option K
  remove null k = (null, none)
  remove (node m l x r) k = elim (o.cmp k x) [
    | true ↦ rebuilt (λ t. node m t x r) (remove l k)
    | false ↦ elim (o.cmp x k) [
      | true ↦ rebuilt (λ t. node m l x t) (remove r k)
      | false ↦ (remove_here m l x r, some x)
    ]
  ]

  abbrev pub before_root : RkNode K → K → Bool
  before_root null x = true
  before_root (node m l y r) x = o.cmp y x

  abbrev pub after_root : K → RkNode K → Bool
  after_root x null = true
  after_root x (node m l y r) = o.cmp x y

  -- The static `verify`: it compares a key with those of its children only.
  unfoldable pub verify_node : RkNode K → Bool
  verify_node null = true
  verify_node (node m l x r) =
      verify_node l
      && verify_node r
      && not (ltb_ℤ (pos 1) (abs_ℤ (balance_factor (node m l x r))))
      && eq_ℤ m.stored_height (pos 1 +ℤ max_ℤ (height l) (height r))
      && (m.stored_count == count l + count r + 1)
      && before_root l x
      && after_root x r
