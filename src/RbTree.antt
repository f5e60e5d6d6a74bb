-- ===== src/RbTree.antt =====
-- include/rbtree.hpp, `RbNode` and `RbTree`: a left-leaning red-black search tree. A node stores its
-- color, and the sentinel is black. What the source returns as a pointer to a node or to its key is
-- the key; `Node::null` and `nullptr` are `none`.
pub mod Shape
pub mod Insert
pub mod Keys
pub mod Prepare
pub mod PrepareRight
pub mod DeleteMin
pub mod Remove
pub mod RemoveBelow
pub mod Container
pub mod Verify
pub mod Height
pub mod Client
use de_si_gnar.Prelude.{
  ℕ, zero, suc, ◌+◌, ◌==◌, Bool, true, false, Option, none, some, ◌>>=◌, ◌&&◌, ◌||◌, not,
  if◌then◌else◌,
}
use de_si_gnar.Compare.{Compare}
use de_si_gnar.Nodes.{
  BinTree, null, node, left, right, is_null, with_left, with_right, generic_rotate_left,
  generic_rotate_right, min, max,
}

pub data RbColor : Type 0 where
  red black : RbColor

-- A node adds its color to `BaseBinTreeNode`.
abbrev pub RbNode {ℓ} : Type ℓ → Type ℓ
RbNode K = BinTree RbColor K

abbrev pub is_red_color : RbColor → Bool
is_red_color red = true
is_red_color black = false

abbrev pub flipped : RbColor → RbColor
flipped red = black
flipped black = red

module _ {ℓ} {K : Type ℓ} where
  -- `COLOR(p)` and `is_red(p)`.
  abbrev pub color : RbNode K → RbColor
  color null = black
  color (node c l x r) = c

  abbrev pub is_red : RbNode K → Bool
  is_red t = is_red_color (color t)

  -- `COLOR(p) = c`.
  abbrev pub with_color : RbColor → RbNode K → RbNode K
  with_color c null = null
  with_color c (node d l x r) = node c l x r

  -- `new Node(k)`.
  abbrev pub new_node : K → RbNode K
  new_node k = node red null k null

  -- The old root is a child of the new one.
  unfoldable pub rotate_left : RbNode K → RbNode K
  rotate_left h = with_color (color h) (with_left (with_color red) (generic_rotate_left h))

  unfoldable pub rotate_right : RbNode K → RbNode K
  rotate_right h = with_color (color h) (with_right (with_color red) (generic_rotate_right h))

  unfoldable pub flip : RbNode K → RbNode K
  flip null = null
  flip (node c l x r) = node (flipped c) l x r

  -- `none` where a child is the sentinel, whose color the source would change.
  unfoldable pub flip_colors : RbNode K → Option (RbNode K)
  unfolding flip
  flip_colors (node c (node d a y b) x (node e f z g)) =
      some (node (flipped c) (flip (node d a y b)) x (flip (node e f z g)))
  flip_colors h = none

  -- The three steps of `balance`. The last one finds two red children, which are nodes.
  unfoldable pub lean_left : RbNode K → RbNode K
  lean_left h = if is_red (right h) && not (is_red (left h)) then rotate_left h else h

  unfoldable pub lift_reds : RbNode K → RbNode K
  lift_reds h = if is_red (left h) && is_red (left (left h)) then rotate_right h else h

  abbrev or_same : RbNode K → Option (RbNode K) → RbNode K
  or_same h none = h
  or_same h (some t) = t

  unfoldable pub split_reds : RbNode K → RbNode K
  split_reds h = if is_red (left h) && is_red (right h) then or_same h (flip_colors h) else h

  unfoldable pub balance : RbNode K → RbNode K
  balance h = split_reds (lift_reds (lean_left h))

  -- `none` where a color of the sentinel would change.
  unfoldable pub move_red_left : RbNode K → Option (RbNode K)
  move_red_left h = do
    t ← flip_colors h
    if is_red (left (right t))
        then flip_colors (rotate_left (with_right rotate_right t))
        else some t

  unfoldable pub move_red_right : RbNode K → Option (RbNode K)
  move_red_right h = do
    t ← flip_colors h
    if is_red (left (left t)) then flip_colors (rotate_right t) else some t

  -- The test before a step down on the left: neither the left child nor its left child is red.
  abbrev pub thin_left : RbNode K → Bool
  thin_left h = not (is_red (left h)) && not (is_red (left (left h)))

  abbrev pub thin_right : RbNode K → Bool
  thin_right h = not (is_red (right h)) && not (is_red (left (right h)))

  unfoldable pub prepared_left : RbNode K → Option (RbNode K)
  prepared_left h = if thin_left h then move_red_left h else some h

  unfoldable pub prepared_right : RbNode K → Option (RbNode K)
  prepared_right h = if thin_right h then move_red_right h else some h

  -- `delete_min` with fuel; `none` where it runs out, at the sentinel, and where a color of the
  -- sentinel would change.
  unfoldable pub delete_min : ℕ → RbNode K → Option (RbNode K × K)
  delete_min zero h = none
  delete_min (suc fuel) null = none
  delete_min (suc fuel) (node c null x r) = some (null, x)
  delete_min (suc fuel) (node c (node d a y b) x r) = do
    h ← prepared_left (node c (node d a y b) x r)
    p ← delete_min fuel (left h)
    some (balance (with_left (λ _. p.0) h), p.1)

  unfoldable pub copy : RbNode K → RbNode K
  copy null = null
  copy (node c l x r) = node c (copy l) x (copy r)

  -- How `insert` goes on after its call for a child, which `f` puts in its place.
  abbrev pub rebuilt : (RbNode K → RbNode K) → RbNode K × Option K → RbNode K × Option K
  rebuilt f (t, none) = (f t, none)
  rebuilt f (t, some k) = (balance (f t), some k)

module _ {ℓ} {K : Type ℓ} ⦃o : Compare K⦄ where
  unfoldable pub insert : RbNode K → K → RbNode K × Option K
  insert null k = (new_node k, some k)
  insert (node c l x r) k = elim (o.cmp k x) [
    | true ↦ rebuilt (λ t. node c t x r) (insert l k)
    | false ↦ elim (o.cmp x k) [
      | true ↦ rebuilt (λ t. node c l x t) (insert r k)
      | false ↦ (node c l x r, none)
    ]
  ]

  unfoldable pub insert_dup : RbNode K → K → RbNode K
  insert_dup null k = new_node k
  insert_dup (node c l x r) k = elim (o.cmp k x) [
    | true ↦ balance (node c (insert_dup l k) x r)
    | false ↦ balance (node c l x (insert_dup r k))
  ]

  unfoldable pub search : RbNode K → K → Option K
  search null k = none
  search (node c l x r) k = elim (o.cmp k x) [
    | true ↦ search l k
    | false ↦ elim (o.cmp x k) [ true ↦ search r k | false ↦ some x ]
  ]

  -- The key that the node found or inserted holds, and whether that is the new node.
  unfoldable pub search_or_insert : RbNode K → K → RbNode K × K × Bool
  search_or_insert null k = (new_node k, k, true)
  search_or_insert (node c l x r) k = elim (o.cmp k x) [
    | true ↦ let (t, found, fresh) = search_or_insert l k in (balance (node c t x r), found, fresh)
    | false ↦ elim (o.cmp x k) [
      | true ↦
          let (t, found, fresh) = search_or_insert r k in (balance (node c l x t), found, fresh)
      | false ↦ (node c l x r, x, false)
    ]
  ]

  -- `remove` once `h` is ready for a step down on the right: the node that goes takes the least key
  -- of its right subtree, or the key is further down. `rec` and `del` are the recursive calls.
  abbrev pub remove_below :
      (RbNode K → Option (RbNode K × K))
      → (RbNode K → Option (RbNode K × K))
      → K
      → RbNode K
      → Option (RbNode K × K)
  remove_below rec del k null = none
  remove_below rec del k (node c l x r) = elim (o.cmp x k) [
    | true ↦ do p ← rec r; some (balance (node c l x p.0), p.1)
    | false ↦ do successor ← min r; p ← del r; some (balance (node c l successor p.0), x)
  ]

  -- `remove` after its `rotate_right`.
  abbrev pub remove_rotated :
      (RbNode K → Option (RbNode K × K))
      → (RbNode K → Option (RbNode K × K))
      → K
      → RbNode K
      → Option (RbNode K × K)
  remove_rotated rec del k null = none
  remove_rotated rec del k (node c l x r) = elim (not (o.cmp x k) && is_null r) [
    | true ↦ some (null, x)
    | false ↦ do h ← prepared_right (node c l x r); remove_below rec del k h
  ]

  -- `remove` with fuel; `none` as for `delete_min`.
  unfoldable pub remove : ℕ → RbNode K → K → Option (RbNode K × K)
  remove zero h k = none
  remove (suc fuel) null k = none
  remove (suc fuel) (node c l x r) k = elim (o.cmp k x) [
    | true ↦ do
      h ← prepared_left (node c l x r)
      p ← remove fuel (left h) k
      some (balance (with_left (λ _. p.0) h), p.1)
    | false ↦
        remove_rotated (λ t. remove fuel t k) (delete_min fuel) k
          (if is_red l then rotate_right (node c l x r) else node c l x r)
  ]
