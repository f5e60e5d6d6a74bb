-- ===== src/Avl/Container.antt =====
-- The class `AVLTree` of include/avltree.hpp: the root and the number of items, with its public
-- methods. The count is `nat_t`; it counts allocated nodes, so its overflow is left out.
pub mod Laws
pub mod Lookup
use de_si_gnar.Prelude.{
  ℕ, ◌+◌, ◌-◌, Bool, true, false, Option, none, some, List, [], ◌∷◌, if◌then◌else◌,
}
use de_si_gnar.Compare.{Compare}
use de_si_gnar.Nodes.{null, is_null, min, max, generic_bst_search_by}
use de_si_gnar.Avl
use de_si_gnar.Avl.{AvlNode}

pub record AvlTree {ℓ} (K : Type ℓ) : Type ℓ where
  pub root : AvlNode K
  pub num_items : ℕ

module _ {ℓ} {K : Type ℓ} where
  unfoldable pub empty : AvlTree K
  empty = record { root = null; num_items = 0 }

  unfoldable pub is_empty : AvlTree K → Bool
  is_empty t = is_null t.root

  unfoldable pub size : AvlTree K → ℕ
  size t = t.num_items

  unfoldable pub clear : AvlTree K → AvlTree K
  clear t = record t { root = null; num_items = 0 }

  -- The copy constructor and the copy assignment give the same content.
  unfoldable pub copy : AvlTree K → AvlTree K
  copy t = record { root = Avl.copy t.root; num_items = t.num_items }

  -- `none` is the exception `std::underflow_error`.
  unfoldable pub minimum : AvlTree K → Option K
  minimum t = if is_null t.root then none else min t.root

  unfoldable pub maximum : AvlTree K → Option K
  maximum t = if is_null t.root then none else max t.root

module _ {ℓ} {K : Type ℓ} ⦃o : Compare K⦄ where
  abbrev counted : ℕ → AvlNode K × Option K → AvlTree K × Option K
  counted n (r, none) = (record { root = r; num_items = n }, none)
  counted n (r, some k) = (record { root = r; num_items = n + 1 }, some k)

  unfoldable pub insert : AvlTree K → K → AvlTree K × Option K
  insert t k = counted t.num_items (Avl.insert t.root k)

  unfoldable pub insert_dup : AvlTree K → K → AvlTree K × K
  insert_dup t k = (record { root = Avl.insert_dup t.root k; num_items = t.num_items + 1 }, k)

  unfoldable pub search : AvlTree K → K → Option K
  search t k = Avl.search t.root k

  unfoldable pub search_by : AvlTree K → K → Option K
  search_by t k = generic_bst_search_by o.cmp o.cmp t.root k

  unfoldable pub search_or_insert : AvlTree K → K → AvlTree K × K
  search_or_insert t k =
      let (r, found, fresh) = Avl.search_or_insert t.root k in
      (record { root = r; num_items = if fresh then t.num_items + 1 else t.num_items }, found)

  -- `none` is the exception `std::domain_error`.
  unfoldable pub find : AvlTree K → K → Option K
  find t k = elim (search t k) [ none ↦ none | some x ↦ some x ]

  abbrev uncounted : ℕ → AvlNode K × Option K → AvlTree K × Bool
  uncounted n (r, none) = (record { root = r; num_items = n }, false)
  uncounted n (r, some k) = (record { root = r; num_items = n - 1 }, true)

  unfoldable pub remove : AvlTree K → K → AvlTree K × Bool
  remove t k = uncounted t.num_items (Avl.remove t.root k)

  append_all : AvlTree K → List K → AvlTree K
  append_all t [] = t
  append_all t (k ∷ ks) = append_all (insert t k).0 ks

  -- The constructor from an initializer list.
  unfoldable pub from_list : List K → AvlTree K
  unfolding append_all empty
  from_list ks = append_all empty ks
