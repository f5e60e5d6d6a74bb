-- ===== src/Sort/NodeLists/Order.antt =====
-- Ascending lists with equivalent items: what the sorts of include/sort.hpp share.
use de_si_gnar.Prelude.{
  ◌<◌, ◌≡◌, true, false, length, arith, List, [], ◌∷◌, ◌++◌, All, All-append, All-imp,
}
use de_si_gnar.Compare.{Compare, ◌≼◌, le_trans}
use de_si_gnar.Ordered.{IsSortedDup}
use de_si_gnar.SinglyLinked.{is_unitarian_or_empty}

module _ {ℓ} {T : Type ℓ} ⦃o : Compare T⦄ where
  -- No item of the second list comes before one of the first.
  abbrev pub Before : List T → List T → Type 0
  Before xs ys = All (λ x. All (λ y. x ≼ y) ys) xs

  pub IsSortedDup-append :
      (xs ys : List T) → IsSortedDup xs → IsSortedDup ys → Before xs ys → IsSortedDup (xs ++ ys)
  IsSortedDup-append [] ys s t b = t
  IsSortedDup-append (x ∷ xs) ys s t b =
      (All-append (λ y. x ≼ y) xs ys s.0 b.0, IsSortedDup-append xs ys s.1 t b.1)

  pub Before-tail : (xs : List T) (y : T) (ys : List T) → Before xs (y ∷ ys) → Before xs ys
  Before-tail xs y ys b = All-imp (λ x h. h.1) xs b

  pub Before-head : (xs : List T) (y : T) (ys : List T) → Before xs (y ∷ ys) → Before xs (y ∷ [])
  Before-head xs y ys b = All-imp (λ x h. (h.0, tt)) xs b

  -- The next item of one of the lists, taken.
  pub Before-taken :
      (xs : List T) (y : T) (ys : List T)
      → Before xs ys
      → All (λ z. y ≼ z) ys
      → Before (xs ++ y ∷ []) ys
  Before-taken xs y ys b h = All-append (λ x. All (λ z. x ≼ z) ys) xs (y ∷ []) b (h, tt)

  pub above : (x y : T) (ys : List T) → x ≼ y → All (λ z. y ≼ z) ys → All (λ z. x ≼ z) ys
  above x y ys h a = All-imp (λ z k. le_trans x y z h k) ys a

  pub few : (l : List T) → is_unitarian_or_empty l ≡ true → IsSortedDup l
  unfolding is_unitarian_or_empty
  few [] h = tt
  few (x ∷ []) h = (tt, tt)
  few (x ∷ y ∷ l) h = cc

  pub many : (l : List T) → is_unitarian_or_empty l ≡ false → 1 < length l
  unfolding is_unitarian_or_empty
  many [] h = cc
  many (x ∷ []) h = cc
  many (x ∷ y ∷ l) h = omega arith
