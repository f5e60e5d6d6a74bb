-- ===== src/Avl/Keys.antt =====
-- Each operation of `AVLTree` as an operation on the ordered list of the keys.
use de_si_gnar.Prelude.{
  ◌≡◌, ◌∙◌, refl, sym, ap, true, false, Bool, Option, none, some, List, ◌∷◌, ◌++◌, arith,
  append-nil, if◌then◌else◌,
}
use de_si_gnar.Prelude.Int.{ℤ, pos, negsuc, ltb_ℤ}
use de_si_gnar.Compare.{Compare}
use de_si_gnar.Ordered
use de_si_gnar.Ordered.{IsSorted, IsSortedDup, reported, found_or, is_none}
use de_si_gnar.Ordered.Split.{
  IsSorted-split, search-left, search-right, search-found, insert-left, insert-right, insert-found,
  remove-left, remove-right, remove-found,
}
use de_si_gnar.Nodes.{
  null, node, inorder, with_left, with_right, left, right, generic_rotate_left,
  generic_rotate_right,
}
use de_si_gnar.Nodes.Inorder.{inorder-generic_rotate_left, inorder-generic_rotate_right}
use de_si_gnar.Avl.{
  AvlNode, update_height, rotate_left, rotate_right, rebalance, balance, balance_factor, remove_min,
  remove_here, rebuilt, insert, search_or_insert, remove, copy,
}

module _ {ℓ} {K : Type ℓ} where
  inorder-update_height : (t : AvlNode K) → inorder (update_height t) ≡ inorder t
  unfolding update_height
  inorder-update_height null = refl
  inorder-update_height (node h l x r) = refl

  inorder-with_left :
      (f : AvlNode K → AvlNode K) (t : AvlNode K)
      → ((s : AvlNode K) → inorder (f s) ≡ inorder s)
      → inorder (with_left f t) ≡ inorder t
  inorder-with_left f null h = refl
  inorder-with_left f (node m l x r) h = rw (h l)

  inorder-with_right :
      (f : AvlNode K → AvlNode K) (t : AvlNode K)
      → ((s : AvlNode K) → inorder (f s) ≡ inorder s)
      → inorder (with_right f t) ≡ inorder t
  inorder-with_right f null h = refl
  inorder-with_right f (node m l x r) h = rw (h r)

  inorder-rotate_left : (t : AvlNode K) → inorder (rotate_left t) ≡ inorder t
  unfolding rotate_left
  inorder-rotate_left t =
      inorder-update_height _
      ∙ inorder-with_left update_height (generic_rotate_left t) inorder-update_height
      ∙ inorder-generic_rotate_left t

  inorder-rotate_right : (t : AvlNode K) → inorder (rotate_right t) ≡ inorder t
  unfolding rotate_right
  inorder-rotate_right t =
      inorder-update_height _
      ∙ inorder-with_right update_height (generic_rotate_right t) inorder-update_height
      ∙ inorder-generic_rotate_right t

  inorder-if :
      (b : Bool) (s t : AvlNode K) {xs : List K}
      → inorder s ≡ xs
      → inorder t ≡ xs
      → inorder (if b then s else t) ≡ xs
  inorder-if true s t p q = p
  inorder-if false s t p q = q

  -- Whatever the heights say, balancing moves no key past another.
  inorder-rebalance : (t : AvlNode K) → inorder (rebalance t) ≡ inorder t
  unfolding rebalance
  inorder-rebalance t =
      inorder-if (ltb_ℤ (pos 1) (balance_factor t)) _ _
        (inorder-rotate_right _
          ∙ inorder-if (ltb_ℤ (balance_factor (left t)) (pos 0)) _ _
              (inorder-with_left rotate_left t inorder-rotate_left) refl)
        (inorder-if (ltb_ℤ (balance_factor t) (negsuc 0)) _ _
          (inorder-rotate_left _
            ∙ inorder-if (ltb_ℤ (pos 0) (balance_factor (right t))) _ _
                (inorder-with_right rotate_right t inorder-rotate_right) refl)
          refl)

  pub inorder-balance : (t : AvlNode K) → inorder (balance t) ≡ inorder t
  unfolding balance
  inorder-balance t = inorder-rebalance (update_height t) ∙ inorder-update_height t

  pub inorder-copy : (t : AvlNode K) → inorder (copy t) ≡ inorder t
  unfolding copy
  inorder-copy null = refl
  inorder-copy (node h l x r) = inorder-update_height _ ∙ rw (inorder-copy l, inorder-copy r) refl

  -- `remove_min` takes the first key off.
  pub inorder-remove_min :
      (h : ℤ) (l : AvlNode K) (x : K) (r : AvlNode K)
      → inorder (node h l x r) ≡ (remove_min h l x r).1 ∷ inorder (remove_min h l x r).0
  unfolding remove_min
  inorder-remove_min h null x r = refl
  inorder-remove_min h (node hl a y b) x r = rw (inorder-balance, inorder-remove_min hl a y b) refl

  pub inorder-remove_here :
      (h : ℤ) (l : AvlNode K) (x : K) (r : AvlNode K)
      → inorder (remove_here h l x r) ≡ inorder l ++ inorder r
  unfolding remove_here
  inorder-remove_here h null x r = refl
  inorder-remove_here h (node hl a y b) x null = sym (append-nil _)
  inorder-remove_here h (node hl a y b) x (node hr c z d) =
      inorder-balance _
      ∙ ap (λ xs. inorder (node hl a y b) ++ xs) (sym (inorder-remove_min hr c z d))

  inorder-rebuilt :
      (f : AvlNode K → AvlNode K) (below : AvlNode K × Option K)
      → inorder (rebuilt f below).0 ≡ inorder (f below.0)
  inorder-rebuilt f (t, none) = refl
  inorder-rebuilt f (t, some k) = inorder-balance (f t)

  rebuilt_report :
      (f : AvlNode K → AvlNode K) (below : AvlNode K × Option K) → (rebuilt f below).1 ≡ below.1
  rebuilt_report f (t, none) = refl
  rebuilt_report f (t, some k) = refl

module _ {ℓ} {K : Type ℓ} ⦃o : Compare K⦄ where
  -- `insert` on the tree is `insert` on the ordered list of its keys, and it reports what that does.
  pub insert-inorder :
      (t : AvlNode K) (k : K)
      → IsSorted (inorder t)
      → (inorder (insert t k).0 ≡ Ordered.insert k (inorder t))
        × ((insert t k).1 ≡ reported (Ordered.search k (inorder t)) k)
  unfolding insert Ordered.insert Ordered.search
  insert-inorder null k s = (refl, refl)
  insert-inorder (node h l x r) k s =
      let (below, above, sl, sr) = IsSorted-split (inorder l) x (inorder r) s in
      let xs = inorder l in
      let ys = inorder r in
      ground (
        arith,
        insert-inorder l k sl,
        insert-inorder r k sr,
        inorder-rebuilt (λ t. node h t x r) (insert l k),
        inorder-rebuilt (λ t. node h l x t) (insert r k),
        rebuilt_report (λ t. node h t x r) (insert l k),
        rebuilt_report (λ t. node h l x t) (insert r k),
        insert-left k x ys xs,
        insert-right k x ys xs below,
        insert-found k x ys xs below,
        search-left k x ys xs,
        search-right k x ys xs below,
        search-found k x ys xs below,
      )

  -- `remove` on the tree is `remove` on the ordered list of its keys, and it hands out the key that
  -- a search finds.
  pub remove-inorder :
      (t : AvlNode K) (k : K)
      → IsSorted (inorder t)
      → (inorder (remove t k).0 ≡ Ordered.remove k (inorder t))
        × ((remove t k).1 ≡ Ordered.search k (inorder t))
  unfolding remove Ordered.remove Ordered.search
  remove-inorder null k s = (refl, refl)
  remove-inorder (node h l x r) k s =
      let (below, above, sl, sr) = IsSorted-split (inorder l) x (inorder r) s in
      let xs = inorder l in
      let ys = inorder r in
      ground (
        arith,
        remove-inorder l k sl,
        remove-inorder r k sr,
        inorder-rebuilt (λ t. node h t x r) (remove l k),
        inorder-rebuilt (λ t. node h l x t) (remove r k),
        rebuilt_report (λ t. node h t x r) (remove l k),
        rebuilt_report (λ t. node h l x t) (remove r k),
        inorder-remove_here h l x r,
        remove-left k x ys xs,
        remove-right k x ys xs below,
        remove-found k x ys xs below,
        search-left k x ys xs,
        search-right k x ys xs below,
        search-found k x ys xs below,
      )

  pub search_or_insert-inorder :
      (t : AvlNode K) (k : K)
      → IsSorted (inorder t)
      → (inorder (search_or_insert t k).0 ≡ Ordered.insert k (inorder t))
        × ((search_or_insert t k).1 ≡ found_or (Ordered.search k (inorder t)) k)
        × ((search_or_insert t k).2 ≡ is_none (Ordered.search k (inorder t)))
  unfolding search_or_insert Ordered.insert Ordered.search
  search_or_insert-inorder null k s = (refl, refl, refl)
  search_or_insert-inorder (node h l x r) k s =
      let (below, above, sl, sr) = IsSorted-split (inorder l) x (inorder r) s in
      let xs = inorder l in
      let ys = inorder r in
      ground (
        arith,
        search_or_insert-inorder l k sl,
        search_or_insert-inorder r k sr,
        inorder-balance (node h (search_or_insert l k).0 x r),
        inorder-balance (node h l x (search_or_insert r k).0),
        insert-left k x ys xs,
        insert-right k x ys xs below,
        insert-found k x ys xs below,
        search-left k x ys xs,
        search-right k x ys xs below,
        search-found k x ys xs below,
      )
