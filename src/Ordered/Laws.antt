-- ===== src/Ordered/Laws.antt =====
-- The laws of the abstract container.
use de_si_gnar.Prelude.{
  ℕ, ◌+◌, ◌≡◌, refl, false, Bool, Option, none, some, List, [], ◌∷◌, All, arith, length, All-imp,
  if◌then◌else◌, ◌&&◌, not, get_elem?,
}
use de_si_gnar.Compare.{Compare, ◌≺◌, ◌≼◌, asymm, le-lt_trans, le_trans}
use de_si_gnar.Ordered.{IsSorted, IsSortedDup, search, insert, insert_dup, remove, rank, found_or}

module _ {ℓ} {K : Type ℓ} ⦃o : Compare K⦄ where
  -- Neither key comes before the other.
  abbrev pub equiv : K → K → Bool
  equiv a b = not (o.cmp a b) && not (o.cmp b a)

  -- The laws of the order at three keys.
  abbrev Facts : K → K → K → Type 0
  Facts a b c =
      (a ≺ b → b ≺ c → a ≺ c) × (o.cmp a b ≡ false → o.cmp b c ≡ false → o.cmp a c ≡ false)

  facts : (a b c : K) → Facts a b c
  facts a b c = (o.trans a b c, o.neg_trans a b c)

  pub All-insert {κ} : (P : K → Type κ) (k : K) (xs : List K) → P k → All P xs → All P (insert k xs)
  unfolding insert
  All-insert P k [] h a = (h, tt)
  All-insert P k (x ∷ xs) h a = ground (arith, All-insert P k xs h a.1)

  pub insert-IsSorted : (k : K) (xs : List K) → IsSorted xs → IsSorted (insert k xs)
  unfolding insert
  insert-IsSorted k [] s = (tt, tt)
  insert-IsSorted k (x ∷ xs) s =
      let far : k ≺ x → All (λ y. k ≺ y) xs = λ h. All-imp (λ y g. o.trans k x y h g) xs s.0 in
      ground
        (arith, far, insert-IsSorted k xs s.1, λ (h : x ≺ k). All-insert (λ y. x ≺ y) k xs h s.0)

  All-insert_dup {κ} :
      (P : K → Type κ) (k : K) (xs : List K) → P k → All P xs → All P (insert_dup k xs)
  unfolding insert_dup
  All-insert_dup P k [] h a = (h, tt)
  All-insert_dup P k (x ∷ xs) h a = ground (arith, All-insert_dup P k xs h a.1)

  pub insert_dup-IsSortedDup :
      (k : K) (xs : List K) → IsSortedDup xs → IsSortedDup (insert_dup k xs)
  unfolding insert_dup
  insert_dup-IsSortedDup k [] s = (tt, tt)
  insert_dup-IsSortedDup k (x ∷ xs) s =
      let far : k ≺ x → All (λ y. k ≼ y) xs =
        λ h. All-imp (λ y g. le_trans k x y (asymm k x h) g) xs s.0 in
      ground (
        arith,
        far,
        asymm k x,
        insert_dup-IsSortedDup k xs s.1,
        λ (h : x ≼ k). All-insert_dup (λ y. x ≼ y) k xs h s.0,
      )

  All-remove {κ} : (P : K → Type κ) (k : K) (xs : List K) → All P xs → All P (remove k xs)
  unfolding remove
  All-remove P k [] a = tt
  All-remove P k (x ∷ xs) a = ground (arith, All-remove P k xs a.1)

  pub remove-IsSorted : (k : K) (xs : List K) → IsSorted xs → IsSorted (remove k xs)
  unfolding remove
  remove-IsSorted k [] s = tt
  remove-IsSorted k (x ∷ xs) s =
      ground (arith, remove-IsSorted k xs s.1, All-remove (λ y. x ≺ y) k xs s.0)

  -- Every key that an insertion leaves to find: the one that was there or the new one for the class
  -- of `k`, and what was there for any other.
  pub search-insert :
      (j k : K) (xs : List K)
      → search j (insert k xs)
        ≡ (if equiv j k then some (found_or (search k xs) k) else search j xs)
  unfolding search insert
  search-insert j k [] = ground arith
  search-insert j k (x ∷ xs) = ground (
    arith,
    search-insert j k xs,
    facts j k x,
    facts j x k,
    facts k j x,
    facts k x j,
    facts x j k,
    facts x k j,
    asymm j k,
    asymm k x,
    asymm j x,
  )

  search_below :
      (k : K) (xs : List K) (x : K) → All (λ y. x ≺ y) xs → o.cmp x k ≡ false → search k xs ≡ none
  unfolding search
  search_below k [] x a h = refl
  search_below k (y ∷ xs) x a h = ground (arith, le-lt_trans k x y h a.0)

  pub search-remove :
      (j k : K) (xs : List K)
      → IsSorted xs
      → search j (remove k xs) ≡ (if equiv j k then none else search j xs)
  unfolding search remove
  search-remove j k [] s = ground arith
  search-remove j k (x ∷ xs) s = ground (
    arith,
    search-remove j k xs s.1,
    search_below j xs x s.0,
    facts j k x,
    facts j x k,
    facts k j x,
    facts k x j,
    facts x j k,
    facts x k j,
    asymm j k,
    asymm k x,
    asymm j x,
  )

  pub remove_missing : (k : K) (xs : List K) → search k xs ≡ none → remove k xs ≡ xs
  unfolding search remove
  remove_missing k [] h = refl
  remove_missing k (x ∷ xs) h = ground (arith, remove_missing k xs)

  -- 1 for a hit and 0 for a miss.
  abbrev pub hits : Option K → ℕ
  hits none = 0
  hits (some x) = 1

  pub length-insert :
      (k : K) (xs : List K) → length (insert k xs) + hits (search k xs) ≡ length xs + 1
  unfolding search insert
  length-insert k [] = refl
  length-insert k (x ∷ xs) = ground (arith, length-insert k xs)

  pub length-insert_dup : (k : K) (xs : List K) → length (insert_dup k xs) ≡ length xs + 1
  unfolding insert_dup
  length-insert_dup k [] = refl
  length-insert_dup k (x ∷ xs) = ground (arith, length-insert_dup k xs)

  pub length-remove : (k : K) (xs : List K) → length (remove k xs) + hits (search k xs) ≡ length xs
  unfolding search remove
  length-remove k [] = refl
  length-remove k (x ∷ xs) = ground (arith, length-remove k xs)

  -- A key that is present stands at its rank.
  pub get_elem?-rank :
      (k : K) (xs : List K) {x : K} → search k xs ≡ some x → get_elem? xs (rank k xs) ≡ some x
  unfolding search rank
  get_elem?-rank k [] e = cc
  get_elem?-rank k (y ∷ xs) {x} e = ground (arith, get_elem?-rank k xs {x = x}, asymm y k)
