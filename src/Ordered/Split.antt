-- ===== src/Ordered/Split.antt =====
-- The operations of the abstract container at a list that is split at a key, as a search tree
-- splits its keys at the root.
use de_si_gnar.Prelude.{
  suc, ◌+◌, ◌≡◌, false, some, List, [], ◌∷◌, ◌++◌, All, arith, length, All-append, All-of_append,
  All-imp,
}
use de_si_gnar.Compare.{Compare, ◌≺◌, ◌≼◌, asymm, lt-le_trans, le_trans}
use de_si_gnar.Ordered.{IsSorted, IsSortedDup, search, insert, insert_dup, remove, rank}

module _ {ℓ} {K : Type ℓ} ⦃o : Compare K⦄ where
  -- An ascending list split at a key, and back.
  pub IsSorted-split :
      (xs : List K) (x : K) (ys : List K)
      → IsSorted (xs ++ x ∷ ys)
      → All (λ a. a ≺ x) xs × All (λ b. x ≺ b) ys × IsSorted xs × IsSorted ys
  IsSorted-split [] x ys s = (tt, s.0, tt, s.1)
  IsSorted-split (a ∷ xs) x ys s =
      let (below, above, left, right) = IsSorted-split xs x ys s.1 in
      let parts = All-of_append (λ y. a ≺ y) xs (x ∷ ys) s.0 in
      ((parts.1.0, below), above, (parts.0, left), right)

  pub IsSorted-join :
      (xs : List K) (x : K) (ys : List K)
      → All (λ a. a ≺ x) xs
      → All (λ b. x ≺ b) ys
      → IsSorted xs
      → IsSorted ys
      → IsSorted (xs ++ x ∷ ys)
  IsSorted-join [] x ys below above left right = (above, right)
  IsSorted-join (a ∷ xs) x ys below above left right = (
    All-append (λ y. a ≺ y) xs (x ∷ ys) left.0
        (below.0, All-imp (λ b h. o.trans a x b below.0 h) ys above),
    IsSorted-join xs x ys below.1 above left.1 right,
  )

  -- The same where equivalent keys are allowed.
  pub IsSortedDup-split :
      (xs : List K) (x : K) (ys : List K)
      → IsSortedDup (xs ++ x ∷ ys)
      → All (λ a. a ≼ x) xs × All (λ b. x ≼ b) ys × IsSortedDup xs × IsSortedDup ys
  IsSortedDup-split [] x ys s = (tt, s.0, tt, s.1)
  IsSortedDup-split (a ∷ xs) x ys s =
      let (below, above, left, right) = IsSortedDup-split xs x ys s.1 in
      let parts = All-of_append (λ y. a ≼ y) xs (x ∷ ys) s.0 in
      ((parts.1.0, below), above, (parts.0, left), right)

  module _ (k x : K) (ys : List K) where
    pub search-left : (xs : List K) → k ≺ x → search k (xs ++ x ∷ ys) ≡ search k xs
    unfolding search
    search-left [] h = ground arith
    search-left (a ∷ xs) h = ground (arith, search-left xs h)

    pub search-right :
        (xs : List K) → All (λ a. a ≺ x) xs → x ≺ k → search k (xs ++ x ∷ ys) ≡ search k ys
    unfolding search
    search-right [] b h = ground (arith, asymm x k h)
    search-right (a ∷ xs) b h =
        ground (arith, search-right xs b.1 h, o.trans a x k b.0 h, asymm a k)

    pub search-found :
        (xs : List K)
        → All (λ a. a ≺ x) xs
        → o.cmp k x ≡ false
        → o.cmp x k ≡ false
        → search k (xs ++ x ∷ ys) ≡ some x
    unfolding search
    search-found [] b h g = ground arith
    search-found (a ∷ xs) b h g =
        ground (arith, search-found xs b.1 h g, lt-le_trans a x k b.0 h, asymm a k)

    pub insert-left : (xs : List K) → k ≺ x → insert k (xs ++ x ∷ ys) ≡ insert k xs ++ x ∷ ys
    unfolding insert
    insert-left [] h = ground arith
    insert-left (a ∷ xs) h = ground (arith, insert-left xs h)

    pub insert-right :
        (xs : List K)
        → All (λ a. a ≺ x) xs
        → x ≺ k
        → insert k (xs ++ x ∷ ys) ≡ xs ++ x ∷ insert k ys
    unfolding insert
    insert-right [] b h = ground (arith, asymm x k h)
    insert-right (a ∷ xs) b h =
        ground (arith, insert-right xs b.1 h, o.trans a x k b.0 h, asymm a k)

    pub insert-found :
        (xs : List K)
        → All (λ a. a ≺ x) xs
        → o.cmp k x ≡ false
        → o.cmp x k ≡ false
        → insert k (xs ++ x ∷ ys) ≡ xs ++ x ∷ ys
    unfolding insert
    insert-found [] b h g = ground arith
    insert-found (a ∷ xs) b h g =
        ground (arith, insert-found xs b.1 h g, lt-le_trans a x k b.0 h, asymm a k)

    pub insert_dup-left :
        (xs : List K) → k ≺ x → insert_dup k (xs ++ x ∷ ys) ≡ insert_dup k xs ++ x ∷ ys
    unfolding insert_dup
    insert_dup-left [] h = ground arith
    insert_dup-left (a ∷ xs) h = ground (arith, insert_dup-left xs h)

    pub insert_dup-right :
        (xs : List K)
        → All (λ a. a ≼ x) xs
        → x ≼ k
        → insert_dup k (xs ++ x ∷ ys) ≡ xs ++ x ∷ insert_dup k ys
    unfolding insert_dup
    insert_dup-right [] b h = ground arith
    insert_dup-right (a ∷ xs) b h = ground (arith, insert_dup-right xs b.1 h, le_trans a x k b.0 h)

    pub remove-left : (xs : List K) → k ≺ x → remove k (xs ++ x ∷ ys) ≡ remove k xs ++ x ∷ ys
    unfolding remove
    remove-left [] h = ground arith
    remove-left (a ∷ xs) h = ground (arith, remove-left xs h)

    pub remove-right :
        (xs : List K)
        → All (λ a. a ≺ x) xs
        → x ≺ k
        → remove k (xs ++ x ∷ ys) ≡ xs ++ x ∷ remove k ys
    unfolding remove
    remove-right [] b h = ground (arith, asymm x k h)
    remove-right (a ∷ xs) b h =
        ground (arith, remove-right xs b.1 h, o.trans a x k b.0 h, asymm a k)

    pub remove-found :
        (xs : List K)
        → All (λ a. a ≺ x) xs
        → o.cmp k x ≡ false
        → o.cmp x k ≡ false
        → remove k (xs ++ x ∷ ys) ≡ xs ++ ys
    unfolding remove
    remove-found [] b h g = ground arith
    remove-found (a ∷ xs) b h g =
        ground (arith, remove-found xs b.1 h g, lt-le_trans a x k b.0 h, asymm a k)

    pub rank-left : (xs : List K) → All (λ b. x ≺ b) ys → k ≺ x → rank k (xs ++ x ∷ ys) ≡ rank k xs
    unfolding rank
    rank-left [] b h = ground (arith, asymm k x h)
    rank-left (a ∷ xs) b h = ground (arith, rank-left xs b h)

    pub rank-right :
        (xs : List K)
        → All (λ a. a ≺ x) xs
        → x ≺ k
        → rank k (xs ++ x ∷ ys) ≡ length xs + suc (rank k ys)
    unfolding rank
    rank-right [] b h = ground arith
    rank-right (a ∷ xs) b h = ground (arith, rank-right xs b.1 h, o.trans a x k b.0 h)

    pub rank-found :
        (xs : List K)
        → All (λ a. a ≺ x) xs
        → o.cmp k x ≡ false
        → o.cmp x k ≡ false
        → rank k (xs ++ x ∷ ys) ≡ length xs
    unfolding rank
    rank-found [] b h g = ground arith
    rank-found (a ∷ xs) b h g = ground (arith, rank-found xs b.1 h g, lt-le_trans a x k b.0 h)
