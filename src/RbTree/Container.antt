-- ===== src/RbTree/Container.antt =====
-- The class `RbTree` of include/rbtree.hpp: the root and the number of items, with its public
-- methods. The count is `nat_t`; it counts allocated nodes, so its overflow is left out.
pub mod Laws
pub mod Removal
use de_si_gnar.Prelude.{
  ℕ, ◌+◌, ◌-◌, ◌==◌, Bool, true, false, Option, none, some, List, [], ◌∷◌, ◌>>=◌, ◌&&◌, ◌||◌, not,
  if◌then◌else◌,
}
use de_si_gnar.Compare.{Compare}
use de_si_gnar.Nodes.{null, node, left, right, is_null, min, max, generic_bst_search_by}
use de_si_gnar.RbTree as Rb
use de_si_gnar.RbTree.{red, black, RbNode, is_red, with_color}

pub record RbTree {ℓ} (K : Type ℓ) : Type ℓ where
  pub root : RbNode K
  pub num_items : ℕ

module _ {ℓ} {K : Type ℓ} where
  unfoldable pub empty : RbTree K
  empty = record { root = null; num_items = 0 }

  unfoldable pub is_empty : RbTree K → Bool
  is_empty t = is_null t.root

  unfoldable pub size : RbTree K → ℕ
  size t = t.num_items

  unfoldable pub clear : RbTree K → RbTree K
  clear t = record t { root = null; num_items = 0 }

  -- The copy constructor and the copy assignment give the same content.
  unfoldable pub copy : RbTree K → RbTree K
  copy t = record { root = Rb.copy t.root; num_items = t.num_items }

  -- `none` is the exception `std::underflow_error`.
  unfoldable pub minimum : RbTree K → Option K
  minimum t = if is_null t.root then none else min t.root

  unfoldable pub maximum : RbTree K → Option K
  maximum t = if is_null t.root then none else max t.root

  -- The number of black nodes, and the flag `ok` after the tests of the subtree.
  unfoldable pub black_height : RbNode K → Bool → ℕ × Bool
  black_height null ok = (0, ok)
  black_height (node c l x r) ok =
      let calm = not (is_red (node c l x r) && (is_red l || is_red r)) in
      let (lh, ok_left) = black_height l (ok && calm) in
      let (rh, ok_right) = black_height r ok_left in
      ((if is_red (node c l x r) then lh else lh + 1), ok_right && (lh == rh))

  unfoldable pub verify_no_red_right : RbNode K → Bool
  verify_no_red_right null = true
  verify_no_red_right (node c l x r) =
      not (is_red r) && verify_no_red_right l && verify_no_red_right r

  -- The root as `remove` colors it before the descent.
  abbrev pub reddened : RbNode K → RbNode K
  reddened r = if not (is_red (left r)) && not (is_red (right r)) then with_color red r else r

module _ {ℓ} {K : Type ℓ} ⦃o : Compare K⦄ where
  abbrev pub counted : ℕ → RbNode K × Option K → RbTree K × Option K
  counted n (r, none) = (record { root = r; num_items = n }, none)
  counted n (r, some k) = (record { root = with_color black r; num_items = n + 1 }, some k)

  unfoldable pub insert : RbTree K → K → RbTree K × Option K
  insert t k = counted t.num_items (Rb.insert t.root k)

  unfoldable pub insert_dup : RbTree K → K → RbTree K × K
  insert_dup t k =
      (record { root = with_color black (Rb.insert_dup t.root k); num_items = t.num_items + 1 }, k)

  unfoldable pub search : RbTree K → K → Option K
  search t k = Rb.search t.root k

  unfoldable pub search_by : RbTree K → K → Option K
  search_by t k = generic_bst_search_by o.cmp o.cmp t.root k

  unfoldable pub search_or_insert : RbTree K → K → RbTree K × K
  search_or_insert t k =
      let (r, found, fresh) = Rb.search_or_insert t.root k in
      (
        record {
          root = with_color black r;
          num_items = if fresh then t.num_items + 1 else t.num_items;
        },
        found,
      )

  -- `none` is the exception `std::domain_error`.
  unfoldable pub find : RbTree K → K → Option K
  find t k = elim (search t k) [ none ↦ none | some x ↦ some x ]

  -- The fuel of the descent is the number of items; `none` where it runs out or the color of the
  -- sentinel would change.
  unfoldable pub remove : RbTree K → K → Option (RbTree K × Bool)
  remove t k = elim (Rb.search t.root k) [
    | none ↦ some (t, false)
    | some _ ↦ do
      p ← Rb.remove t.num_items (reddened t.root) k
      some (record { root = with_color black p.0; num_items = t.num_items - 1 }, true)
  ]

  append_all : RbTree K → List K → RbTree K
  append_all t [] = t
  append_all t (k ∷ ks) = append_all (insert t k).0 ks

  -- The constructor from an initializer list.
  unfoldable pub from_list : List K → RbTree K
  unfolding append_all empty
  from_list ks = append_all empty ks

  abbrev pub ordered_left : RbNode K → K → Bool
  ordered_left null x = true
  ordered_left (node c a y b) x = o.cmp y x

  abbrev pub ordered_right : K → RbNode K → Bool
  ordered_right x null = true
  ordered_right x (node c a y b) = o.cmp x y

  unfoldable pub verify_order : RbNode K → Bool
  verify_order null = true
  verify_order (node c l x r) =
      ordered_left l x && ordered_right x r && verify_order l && verify_order r

  unfoldable pub verify : RbTree K → Bool
  verify t =
      not (is_red t.root)
      && (black_height t.root true).1
      && verify_order t.root
      && verify_no_red_right t.root
