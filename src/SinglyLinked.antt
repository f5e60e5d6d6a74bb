-- ===== src/SinglyLinked.antt =====
-- `NodeSLList` of include/list.hpp: a chain of nodes with pointers to its head and its tail. Each
-- node belongs to one chain at a time, so a chain is the list of the items of its nodes, from the
-- head; a call that takes a node out and puts it into another chain moves its item.
use de_si_gnar.Prelude.{Bool, true, false, Option, none, some, List, [], ◌∷◌, ◌++◌}

module _ {ℓ} {T : Type ℓ} where
  unfoldable pub is_unitarian_or_empty : List T → Bool
  is_unitarian_or_empty [] = true
  is_unitarian_or_empty (x ∷ []) = true
  is_unitarian_or_empty (x ∷ y ∷ l) = false

  abbrev pub append : List T → T → List T
  append l p = l ++ p ∷ []

  -- `nullptr` for an empty chain.
  abbrev pub remove_first : List T → Option T × List T
  remove_first [] = (none, [])
  remove_first (x ∷ l) = (some x, l)

  -- The receiver with the argument's nodes behind its own; the argument is left empty.
  abbrev pub concat : List T → List T → List T
  concat this [] = this
  concat [] (x ∷ l) = x ∷ l
  concat (y ∷ this) (x ∷ l) = y ∷ this ++ x ∷ l

  -- The nodes go to `l` and `r` in turn; the receiver is left empty.
  unfoldable pub split : List T → List T → List T → List T × List T
  split [] l r = (l, r)
  split (x ∷ []) l r = (append l x, r)
  split (x ∷ y ∷ this) l r = split this (append l x) (append r y)
