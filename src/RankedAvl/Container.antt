-- ===== src/RankedAvl/Container.antt =====
-- The class `RankedAVLTree` of include/avltree.hpp: the root alone, whose count is the size. `none`
-- is the exception that a method throws: `std::out_of_range` where a position is past the end,
-- `std::domain_error` for `find`, `std::underflow_error` for `min` and `max`.
pub mod Laws
use de_si_gnar.Prelude.{ℕ, Bool, true, false, Option, none, some, List, [], ◌∷◌, if◌then◌else◌, leb}
use de_si_gnar.Prelude.Int.{ℤ}
use de_si_gnar.Compare.{Compare}
use de_si_gnar.Nodes.{
  null, is_null, min, max, generic_select, generic_position, generic_bst_search_by,
}
use de_si_gnar.RankedAvl
use de_si_gnar.RankedAvl.{RkNode, stored, count}

pub record RankedAvlTree {ℓ} (K : Type ℓ) : Type ℓ where
  pub root : RkNode K

module _ {ℓ} {K : Type ℓ} where
  abbrev tree : RkNode K → RankedAvlTree K
  tree r = record { root = r }

  unfoldable pub empty : RankedAvlTree K
  empty = tree null

  unfoldable pub is_empty : RankedAvlTree K → Bool
  is_empty t = is_null t.root

  unfoldable pub size : RankedAvlTree K → ℕ
  size t = count t.root

  unfoldable pub clear : RankedAvlTree K → RankedAvlTree K
  clear t = tree null

  unfoldable pub copy : RankedAvlTree K → RankedAvlTree K
  copy t = tree (RankedAvl.copy t.root)

  unfoldable pub minimum : RankedAvlTree K → Option K
  minimum t = if is_null t.root then none else min t.root

  unfoldable pub maximum : RankedAvlTree K → Option K
  maximum t = if is_null t.root then none else max t.root

  unfoldable pub select : RankedAvlTree K → ℕ → Option K
  select t i = if leb (size t) i then none else generic_select stored t.root i

  abbrev removed : RkNode K × Option K → Option (RankedAvlTree K × K)
  removed (r, none) = none
  removed (r, some k) = some (tree r, k)

  unfoldable pub remove_pos : RankedAvlTree K → ℕ → Option (RankedAvlTree K × K)
  remove_pos t i = if leb (size t) i then none else removed (RankedAvl.remove_pos t.root i)

  -- The two parts; the tree itself is left empty.
  unfoldable pub split_pos : RankedAvlTree K → ℕ → Option (RankedAvlTree K × RankedAvlTree K)
  split_pos t i =
      let parts = RankedAvl.split_pos t.root i in
      if leb (size t) i then none else some (tree parts.0, tree parts.1)

module _ {ℓ} {K : Type ℓ} ⦃o : Compare K⦄ where
  unfoldable pub insert : RankedAvlTree K → K → RankedAvlTree K × Option K
  insert t k = let (r, found) = RankedAvl.insert t.root k in (tree r, found)

  unfoldable pub insert_dup : RankedAvlTree K → K → RankedAvlTree K × K
  insert_dup t k = (tree (RankedAvl.insert_dup t.root k), k)

  unfoldable pub search : RankedAvlTree K → K → Option K
  search t k = RankedAvl.search t.root k

  unfoldable pub search_by : RankedAvlTree K → K → Option K
  search_by t k = generic_bst_search_by o.cmp o.cmp t.root k

  unfoldable pub search_or_insert : RankedAvlTree K → K → RankedAvlTree K × K
  search_or_insert t k =
      let (r, found, fresh) = RankedAvl.search_or_insert t.root k in (tree r, found)

  unfoldable pub find : RankedAvlTree K → K → Option K
  find t k = elim (search t k) [ none ↦ none | some x ↦ some x ]

  abbrev was_removed : Option K → Bool
  was_removed none = false
  was_removed (some x) = true

  unfoldable pub remove : RankedAvlTree K → K → RankedAvlTree K × Bool
  remove t k = let (r, gone) = RankedAvl.remove t.root k in (tree r, was_removed gone)

  unfoldable pub position : RankedAvlTree K → K → ℤ
  position t k = generic_position stored t.root k
