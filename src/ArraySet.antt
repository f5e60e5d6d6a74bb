-- ===== src/ArraySet.antt =====
-- include/set.hpp, `GenArraySet` with `SortedArraySetOp`: a set as an ascending array. The array, a
-- `DynArray` of include/array.hpp, is a list, and its capacity is left out. `none` is an exception of
-- the array, or `binary_search` without fuel; what the source returns as a pointer to a key is the
-- key.
pub mod Place
pub mod Laws
use de_si_gnar.Prelude.{
  ℕ, zero, suc, ◌+◌, ◌==◌, leb, Bool, true, false, ◌||◌, not, Option, none, some, ◌>>=◌, List, [],
  ◌∷◌, ◌++◌, get_elem?, length, remove_at, if◌then◌else◌,
}
use de_si_gnar.Compare.{Compare}
use de_si_gnar.Sort.{binary_search}

module _ {ℓ} {A : Type ℓ} where
  abbrev after_first : A → Option (List A) → Option (List A)
  after_first x none = none
  after_first x (some xs) = some (x ∷ xs)

  -- `DynArray::insert(pos, item)`.
  unfoldable pub insert_at : List A → ℕ → A → Option (List A)
  insert_at xs zero y = some (y ∷ xs)
  insert_at [] (suc i) y = none
  insert_at (x ∷ xs) (suc i) y = after_first x (insert_at xs i y)

  -- `DynArray::remove_pos_closing_breach(pos)`: the array without the item.
  unfoldable pub remove_pos_closing_breach : List A → ℕ → Option (List A)
  remove_pos_closing_breach xs i = do x ← get_elem? xs i; some (remove_at xs i)

module _ {ℓ} {K : Type ℓ} ⦃o : Compare K⦄ where
  abbrev pub not_equal_key : K → K → Bool
  not_equal_key a b = o.cmp a b || o.cmp b a

  abbrev pub equal_key : K → K → Bool
  equal_key a b = not (not_equal_key a b)

  -- `SortedArraySetOp::search` on the whole array.
  unfoldable pub search_pos : List K → K → Option ℕ
  search_pos a k = binary_search (suc (length a)) a k 0 (length a)

  -- The new key, or `none` for `nullptr`.
  unfoldable pub insert : List K → K → Option (List K × Option K)
  insert a k = do
    pos ← search_pos a k
    if pos == length a then some (a ++ k ∷ [], some k) else do
      x ← get_elem? a pos
      if equal_key k x then some (a, none) else do b ← insert_at a pos k; some (b, some k)

  unfoldable pub search_or_insert : List K → K → Option (List K × K)
  search_or_insert a k = do
    pos ← search_pos a k
    if pos == length a then some (a ++ k ∷ [], k) else do
      x ← get_elem? a pos
      if equal_key k x then some (a, x) else do b ← insert_at a pos k; some (b, k)

  -- `none` inside is `nullptr`.
  unfoldable pub search : List K → K → Option (Option K)
  search a k = do
    pos ← search_pos a k
    if leb (length a) pos
        then some none
        else do x ← get_elem? a pos; if not_equal_key k x then some none else some (some x)

  unfoldable pub remove : List K → K → Option (List K × Bool)
  remove a k = do
    pos ← search_pos a k
    if leb (length a) pos then some (a, false) else do
      x ← get_elem? a pos
      if not_equal_key x k
          then some (a, false)
          else do b ← remove_pos_closing_breach a pos; some (b, true)
