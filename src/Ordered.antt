-- ===== src/Ordered.antt =====
-- The abstract ordered container that the search trees of include/ implement: an ascending list of
-- keys. `insert` keeps one key of each equivalence class, `insert_dup` keeps all.
pub mod Split
pub mod Laws
use de_si_gnar.Prelude.{
  ℕ, zero, suc, ◌+◌, Bool, true, false, Option, none, some, List, [], ◌∷◌, All, ℤ, pos, negsuc,
}
use de_si_gnar.Compare.{Compare, ◌≺◌, ◌≼◌}

module _ {ℓ} {K : Type ℓ} ⦃o : Compare K⦄ where
  -- Strictly ascending.
  abbrev pub IsSorted : List K → Type 0
  IsSorted [] = Unit
  IsSorted (x ∷ xs) = All (λ y. x ≺ y) xs × IsSorted xs

  -- Ascending, equivalent keys allowed.
  abbrev pub IsSortedDup : List K → Type 0
  IsSortedDup [] = Unit
  IsSortedDup (x ∷ xs) = All (λ y. x ≼ y) xs × IsSortedDup xs

  unfoldable pub search : K → List K → Option K
  search k [] = none
  search k (x ∷ xs) = elim (o.cmp k x) [
    | true ↦ none
    | false ↦ elim (o.cmp x k) [ true ↦ search k xs | false ↦ some x ]
  ]

  unfoldable pub insert : K → List K → List K
  insert k [] = k ∷ []
  insert k (x ∷ xs) = elim (o.cmp k x) [
    | true ↦ k ∷ x ∷ xs
    | false ↦ elim (o.cmp x k) [ true ↦ x ∷ insert k xs | false ↦ x ∷ xs ]
  ]

  -- After all keys that are not greater.
  unfoldable pub insert_dup : K → List K → List K
  insert_dup k [] = k ∷ []
  insert_dup k (x ∷ xs) = elim (o.cmp k x) [ true ↦ k ∷ x ∷ xs | false ↦ x ∷ insert_dup k xs ]

  unfoldable pub remove : K → List K → List K
  remove k [] = []
  remove k (x ∷ xs) = elim (o.cmp k x) [
    | true ↦ x ∷ xs
    | false ↦ elim (o.cmp x k) [ true ↦ x ∷ remove k xs | false ↦ xs ]
  ]

  -- The number of keys before `k`.
  unfoldable pub rank : K → List K → ℕ
  rank k [] = 0
  rank k (x ∷ xs) = elim (o.cmp x k) [ true ↦ suc (rank k xs) | false ↦ 0 ]

  -- What an insertion reports: the new key, or nothing if an equivalent key was there.
  abbrev pub reported : Option K → K → Option K
  reported none k = some k
  reported (some _) k = none

  abbrev pub found_or : Option K → K → K
  found_or none k = k
  found_or (some x) k = x

  abbrev pub is_none : Option K → Bool
  is_none none = true
  is_none (some x) = false

  -- The index of a key that is present, and -1 otherwise.
  abbrev pub index_or_absent : Option K → ℕ → ℤ
  index_or_absent none n = negsuc 0
  index_or_absent (some _) n = pos n
