-- ===== src/Nodes/Iterator.antt =====
-- The class `InorderIterator`, which include/avltree.hpp, rbtree.hpp and the other search trees
-- repeat word for word. The stack of node pointers is a list of the trees at those nodes.
pub mod Traverse
use de_si_gnar.Prelude.{
  ℕ, zero, suc, ◌≡◌, ◌∙◌, refl, sym, ap, append-nil, Bool, true, false, Option, none, some, List,
  [], ◌∷◌, ◌++◌, length, append_assoc, arith, not,
}
use de_si_gnar.Nodes.{BinTree, null, node, inorder, is_null}

pub record InorderIterator {ℓ κ} (M : Type κ) (K : Type ℓ) : Type (ℓ ⊔ κ) where
  pub stack : List (BinTree M K)
  pub root : BinTree M K
  pub curr : BinTree M K

module _ {ℓ κ} {M : Type κ} {K : Type ℓ} where
  -- The loop to the leftmost node, which leaves the nodes it passes on the stack.
  unfoldable pub search_min : List (BinTree M K) → BinTree M K → List (BinTree M K) × BinTree M K
  search_min stack null = (stack, null)
  search_min stack (node m null x r) = (stack, node m null x r)
  search_min stack (node m (node n a y b) x r) =
      search_min (node m (node n a y b) x r ∷ stack) (node n a y b)

  search_max : BinTree M K → BinTree M K
  search_max null = null
  search_max (node m l x null) = node m l x null
  search_max (node m l x (node n a y b)) = search_max (node n a y b)

  -- `init`: on an empty tree it leaves the iterator as it is.
  init : InorderIterator M K → InorderIterator M K
  unfolding search_min
  init it = elim (is_null it.root) [
    | true ↦ it
    | false ↦
        let (stack, curr) = search_min it.stack it.root in record it { stack = stack; curr = curr }
  ]

  -- The constructor from a tree, which `begin` calls.
  unfoldable pub begin : BinTree M K → InorderIterator M K
  unfolding init
  begin t = init (record { stack = []; root = t; curr = null })

  unfoldable pub reset_first : InorderIterator M K → InorderIterator M K
  unfolding init
  reset_first it = init (record it { stack = [] })

  unfoldable pub reset_last : InorderIterator M K → InorderIterator M K
  unfolding search_max
  reset_last it = record it { stack = []; curr = search_max it.root }

  abbrev pub has_current : InorderIterator M K → Bool
  has_current it = not (is_null it.curr)

  abbrev pub key_of : BinTree M K → Option K
  key_of null = none
  key_of (node m l x r) = some x

  -- `none` is the exception `std::overflow_error`.
  unfoldable pub get_current : InorderIterator M K → Option K
  get_current it = key_of it.curr

  -- `next` when the current node has no right child: back to the nearest node on the stack.
  abbrev pop_stack : List (BinTree M K) → InorderIterator M K → InorderIterator M K
  pop_stack [] it = record it { stack = []; curr = null }
  pop_stack (p ∷ stack) it = record it { stack = stack; curr = p }

  unfoldable pub next_from : BinTree M K → InorderIterator M K → InorderIterator M K
  unfolding search_min
  next_from null it = pop_stack it.stack it
  next_from (node n a y b) it =
      let (stack, curr) = search_min it.stack (node n a y b) in
      record it { stack = stack; curr = curr }

  abbrev pub next_at : BinTree M K → InorderIterator M K → Option (InorderIterator M K)
  next_at null it = none
  next_at (node m l x r) it = some (next_from r it)

  -- `none` is the exception `std::overflow_error`.
  unfoldable pub next : InorderIterator M K → Option (InorderIterator M K)
  unfolding next_from
  next it = next_at it.curr it

  -- The loop `for (it = begin(); it.has_current(); it.next())` over the keys that it meets.
  unfoldable pub traverse : ℕ → InorderIterator M K → List K
  unfolding next_from
  traverse zero it = []
  traverse (suc fuel) it = elim it.curr [
    | null ↦ []
    | node m l x r ↦ x ∷ traverse fuel (next_from r it)
  ]

  -- The keys that the iterator has still to visit: the current one, its right subtree, and each
  -- node on the stack with its right subtree.
  abbrev pub from_node : BinTree M K → List K
  from_node null = []
  from_node (node m l x r) = x ∷ inorder r

  abbrev pub from_stack : List (BinTree M K) → List K
  from_stack [] = []
  from_stack (p ∷ stack) = from_node p ++ from_stack stack

  abbrev pub pending : InorderIterator M K → List K
  pending it = from_node it.curr ++ from_stack it.stack
