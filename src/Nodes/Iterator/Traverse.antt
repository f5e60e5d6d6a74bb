-- ===== src/Nodes/Iterator/Traverse.antt =====
-- The keys that a traversal with the in-order iterator of include/avltree.hpp visits.
use de_si_gnar.Prelude.{
  ℕ, zero, suc, ◌≡◌, ◌≤◌, ◌∙◌, refl, sym, ap, true, false, List, [], ◌∷◌, ◌++◌, length,
  append_assoc, append-nil, arith, All, first, nil_of_length,
}
use de_si_gnar.Nodes.{BinTree, null, node, inorder, is_null}
use de_si_gnar.Nodes.Iterator.{
  InorderIterator, search_min, begin, pop_stack, next_from, from_node, from_stack, pending,
  traverse, get_current, key_of,
}

module _ {ℓ κ} {M : Type κ} {K : Type ℓ} where
  search_min-pending :
      (stack : List (BinTree M K)) (t : BinTree M K)
      → from_node (search_min stack t).1 ++ from_stack (search_min stack t).0
        ≡ inorder t ++ from_stack stack
  unfolding search_min
  search_min-pending stack null = refl
  search_min-pending stack (node m null x r) = refl
  search_min-pending stack (node m (node n a y b) x r) =
      search_min-pending (node m (node n a y b) x r ∷ stack) (node n a y b)
      ∙ sym (append_assoc (inorder (node n a y b)) (x ∷ inorder r) (from_stack stack))

  -- A new iterator has all keys of the tree before it.
  pub begin-pending : (t : BinTree M K) → pending (begin t) ≡ inorder t
  unfolding begin
  begin-pending null = refl
  begin-pending (node m l x r) =
      search_min-pending [] (node m l x r) ∙ append-nil (inorder (node m l x r))

  next_from-pending :
      (r : BinTree M K) (it : InorderIterator M K)
      → pending (next_from r it) ≡ inorder r ++ from_stack it.stack
  unfolding next_from
  next_from-pending null it = go it.stack
    where
      go : (stack : List (BinTree M K)) → pending (pop_stack stack it) ≡ from_stack stack
      go [] = refl
      go (p ∷ stack) = refl
  next_from-pending (node n a y b) it = search_min-pending it.stack (node n a y b)

  -- The nodes on the stack are nodes, and the stack is empty once there is no current node.
  pub record IsValid (it : InorderIterator M K) : Type (ℓ ⊔ κ) where
    pub nodes : All (λ p. is_null p ≡ false) it.stack
    pub at_end : is_null it.curr ≡ true → it.stack ≡ []

  search_min-IsValid :
      (stack : List (BinTree M K)) (t root : BinTree M K)
      → All (λ p. is_null p ≡ false) stack
      → is_null t ≡ false
      → IsValid
          (record { stack = (search_min stack t).0; root = root; curr = (search_min stack t).1 })
  unfolding search_min
  search_min-IsValid stack null root h n = cc
  search_min-IsValid stack (node m null x r) root h n = record { nodes = h; at_end = λ e. cc }
  search_min-IsValid stack (node m (node k a y b) x r) root h n =
      search_min-IsValid (node m (node k a y b) x r ∷ stack) (node k a y b) root (refl, h) refl

  pub begin-IsValid : (t : BinTree M K) → IsValid (begin t)
  unfolding begin
  begin-IsValid null = record { nodes = tt; at_end = λ e. refl }
  begin-IsValid (node m l x r) = search_min-IsValid [] (node m l x r) (node m l x r) tt refl

  pop_stack-IsValid :
      (stack : List (BinTree M K)) (it : InorderIterator M K)
      → All (λ p. is_null p ≡ false) stack
      → IsValid (pop_stack stack it)
  pop_stack-IsValid [] it h = record { nodes = tt; at_end = λ e. refl }
  pop_stack-IsValid (p ∷ stack) it h = record { nodes = h.1; at_end = λ e. cc (h.0) }

  pub next_from-IsValid :
      (r : BinTree M K) (it : InorderIterator M K) → IsValid it → IsValid (next_from r it)
  unfolding next_from
  next_from-IsValid null it v = pop_stack-IsValid it.stack it v.nodes
  next_from-IsValid (node n a y b) it v =
      search_min-IsValid it.stack (node n a y b) it.root v.nodes refl

  -- The end is where nothing is pending.
  get_current-pending :
      (it : InorderIterator M K) → IsValid it → get_current it ≡ first (pending it)
  unfolding get_current
  get_current-pending it v = go it.curr it.stack v.at_end
    where
      go :
          (curr : BinTree M K) (stack : List (BinTree M K))
          → (is_null curr ≡ true → stack ≡ [])
          → key_of curr ≡ first (from_node curr ++ from_stack stack)
      go null stack e = rw (e refl)
      go (node m l x r) stack e = refl

  abbrev at : List (BinTree M K) → BinTree M K → BinTree M K → InorderIterator M K
  at stack root curr = record { stack = stack; root = root; curr = curr }

  traverse-at :
      (fuel : ℕ) (stack : List (BinTree M K)) (root curr : BinTree M K)
      → IsValid (at stack root curr)
      → length (pending (at stack root curr)) ≤ fuel
      → traverse fuel (at stack root curr) ≡ pending (at stack root curr)
  unfolding traverse
  traverse-at zero stack root curr v h = nil_of_length _ h
  traverse-at (suc fuel) stack root null v h = rw (v.at_end refl)
  traverse-at (suc fuel) stack root (node m l x r) v h =
      let it = at stack root (node m l x r) in
      let rest = next_from-pending r it in
      let it' = next_from r it in
      ap (◌∷◌ x) (
        traverse-at fuel it'.stack it'.root it'.curr (next_from-IsValid r it v)
          (omega (arith, ap (length {ℓ}) rest))
        ∙ rest)

  -- From any valid position, a traversal with enough fuel visits what is pending, in order.
  pub traverse-pending :
      (fuel : ℕ) (it : InorderIterator M K)
      → IsValid it
      → length (pending it) ≤ fuel
      → traverse fuel it ≡ pending it
  traverse-pending fuel it = traverse-at fuel it.stack it.root it.curr

  -- A traversal from `begin`, with fuel for as many steps as the tree has keys at least,
  -- visits all keys of the tree from left to right.
  pub traverse-begin :
      (t : BinTree M K) (fuel : ℕ) → length (inorder t) ≤ fuel → traverse fuel (begin t) ≡ inorder t
  traverse-begin t fuel h =
      traverse-pending fuel (begin t) (begin-IsValid t) (rw (begin-pending t) h) ∙ begin-pending t
