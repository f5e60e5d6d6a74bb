-- ===== src/RbTree/Keys.antt =====
-- The insertions and the search of include/rbtree.hpp on the list of keys.
use de_si_gnar.Prelude.{◌≡◌, ◌∙◌, refl, true, false, Bool, Option, none, some, arith, if◌then◌else◌}
use de_si_gnar.Compare.{Compare}
use de_si_gnar.Ordered
use de_si_gnar.Ordered.{IsSorted, IsSortedDup, reported, found_or, is_none}
use de_si_gnar.Ordered.Split.{
  IsSorted-split, IsSortedDup-split, search-left, search-right, search-found, insert-left,
  insert-right, insert-found, insert_dup-left, insert_dup-right,
}
use de_si_gnar.Nodes.{
  null, node, inorder, with_left, with_right, generic_rotate_left, generic_rotate_right,
  generic_bst_search_by,
}
use de_si_gnar.Nodes.Inorder.{
  inorder-generic_rotate_left, inorder-generic_rotate_right, search-inorder,
}
use de_si_gnar.RbTree.{
  RbColor, red, RbNode, with_color, color, flip, flip_colors, rotate_left, rotate_right, lean_left,
  lift_reds, split_reds, or_same, balance, rebuilt, insert, insert_dup, search, search_or_insert,
}

module _ {ℓ} {K : Type ℓ} where
  inorder-with_color : (c : RbColor) (t : RbNode K) → inorder (with_color c t) ≡ inorder t
  inorder-with_color c null = refl
  inorder-with_color c (node d l x r) = refl

  inorder-with_left :
      (f : RbNode K → RbNode K) (t : RbNode K)
      → ((s : RbNode K) → inorder (f s) ≡ inorder s)
      → inorder (with_left f t) ≡ inorder t
  inorder-with_left f null h = refl
  inorder-with_left f (node m l x r) h = rw (h l)

  pub inorder-with_right :
      (f : RbNode K → RbNode K) (t : RbNode K)
      → ((s : RbNode K) → inorder (f s) ≡ inorder s)
      → inorder (with_right f t) ≡ inorder t
  inorder-with_right f null h = refl
  inorder-with_right f (node m l x r) h = rw (h r)

  pub inorder-rotate_left : (t : RbNode K) → inorder (rotate_left t) ≡ inorder t
  unfolding rotate_left
  inorder-rotate_left t =
      inorder-with_color (color t) (with_left (with_color red) (generic_rotate_left t))
      ∙ inorder-with_left (with_color red) (generic_rotate_left t) (inorder-with_color red)
      ∙ inorder-generic_rotate_left t

  pub inorder-rotate_right : (t : RbNode K) → inorder (rotate_right t) ≡ inorder t
  unfolding rotate_right
  inorder-rotate_right t =
      inorder-with_color (color t) (with_right (with_color red) (generic_rotate_right t))
      ∙ inorder-with_right (with_color red) (generic_rotate_right t) (inorder-with_color red)
      ∙ inorder-generic_rotate_right t

  inorder-if :
      (b : Bool) (s t : RbNode K) → inorder s ≡ inorder t → inorder (if b then s else t) ≡ inorder t
  inorder-if true s t h = h
  inorder-if false s t h = refl

  inorder-or_same :
      (h : RbNode K) (f : Option (RbNode K))
      → ((t : RbNode K) → f ≡ some t → inorder t ≡ inorder h)
      → inorder (or_same h f) ≡ inorder h
  inorder-or_same h none same = refl
  inorder-or_same h (some t) same = same t refl

  pub inorder-flip_colors : (h t : RbNode K) → flip_colors h ≡ some t → inorder t ≡ inorder h
  unfolding flip_colors flip
  inorder-flip_colors null t e = cc
  inorder-flip_colors (node c null x r) t e = cc
  inorder-flip_colors (node c (node d a y b) x null) t e = cc
  inorder-flip_colors (node c (node d a y b) x (node f a' z b')) t e = cc

  -- `balance` keeps the keys in order.
  pub inorder-balance : (t : RbNode K) → inorder (balance t) ≡ inorder t
  unfolding balance split_reds lift_reds lean_left
  inorder-balance t =
      let leaned = lean_left t in
      let lifted = lift_reds leaned in
      inorder-if _ (or_same lifted (flip_colors lifted)) lifted
        (inorder-or_same lifted (flip_colors lifted) (inorder-flip_colors lifted))
      ∙ inorder-if _ (rotate_right leaned) leaned (inorder-rotate_right leaned)
      ∙ inorder-if _ (rotate_left t) t (inorder-rotate_left t)

  inorder-rebuilt :
      (f : RbNode K → RbNode K) (below : RbNode K × Option K)
      → inorder (rebuilt f below).0 ≡ inorder (f below.0)
  inorder-rebuilt f (t, none) = refl
  inorder-rebuilt f (t, some k) = inorder-balance (f t)

  rebuilt_report :
      (f : RbNode K → RbNode K) (below : RbNode K × Option K) → (rebuilt f below).1 ≡ below.1
  rebuilt_report f (t, none) = refl
  rebuilt_report f (t, some k) = refl

module _ {ℓ} {K : Type ℓ} ⦃o : Compare K⦄ where
  pub insert-inorder :
      (t : RbNode K) (k : K)
      → IsSorted (inorder t)
      → (inorder (insert t k).0 ≡ Ordered.insert k (inorder t))
        × ((insert t k).1 ≡ reported (Ordered.search k (inorder t)) k)
  unfolding insert Ordered.insert Ordered.search
  insert-inorder null k s = (refl, refl)
  insert-inorder (node c l x r) k s =
      let (below, above, sl, sr) = IsSorted-split (inorder l) x (inorder r) s in
      let xs = inorder l in
      let ys = inorder r in
      ground (
        arith,
        insert-inorder l k sl,
        insert-inorder r k sr,
        inorder-rebuilt (λ t. node c t x r) (insert l k),
        inorder-rebuilt (λ t. node c l x t) (insert r k),
        rebuilt_report (λ t. node c t x r) (insert l k),
        rebuilt_report (λ t. node c l x t) (insert r k),
        insert-left k x ys xs,
        insert-right k x ys xs below,
        insert-found k x ys xs below,
        search-left k x ys xs,
        search-right k x ys xs below,
        search-found k x ys xs below,
      )

  pub search_or_insert-inorder :
      (t : RbNode K) (k : K)
      → IsSorted (inorder t)
      → (inorder (search_or_insert t k).0 ≡ Ordered.insert k (inorder t))
        × ((search_or_insert t k).1 ≡ found_or (Ordered.search k (inorder t)) k)
        × ((search_or_insert t k).2 ≡ is_none (Ordered.search k (inorder t)))
  unfolding search_or_insert Ordered.insert Ordered.search
  search_or_insert-inorder null k s = (refl, refl, refl)
  search_or_insert-inorder (node c l x r) k s =
      let (below, above, sl, sr) = IsSorted-split (inorder l) x (inorder r) s in
      let xs = inorder l in
      let ys = inorder r in
      ground (
        arith,
        search_or_insert-inorder l k sl,
        search_or_insert-inorder r k sr,
        inorder-balance (node c (search_or_insert l k).0 x r),
        inorder-balance (node c l x (search_or_insert r k).0),
        insert-left k x ys xs,
        insert-right k x ys xs below,
        insert-found k x ys xs below,
        search-left k x ys xs,
        search-right k x ys xs below,
        search-found k x ys xs below,
      )

  pub insert_dup-inorder :
      (t : RbNode K) (k : K)
      → IsSortedDup (inorder t)
      → inorder (insert_dup t k) ≡ Ordered.insert_dup k (inorder t)
  unfolding insert_dup Ordered.insert_dup
  insert_dup-inorder null k s = refl
  insert_dup-inorder (node c l x r) k s =
      let (below, above, sl, sr) = IsSortedDup-split (inorder l) x (inorder r) s in
      ground (
        arith,
        insert_dup-inorder l k sl,
        insert_dup-inorder r k sr,
        inorder-balance (node c (insert_dup l k) x r),
        inorder-balance (node c l x (insert_dup r k)),
        insert_dup-left k x (inorder r) (inorder l),
        insert_dup-right k x (inorder r) (inorder l) below,
      )

  search-generic : (t : RbNode K) (k : K) → search t k ≡ generic_bst_search_by o.cmp o.cmp t k
  unfolding search generic_bst_search_by
  search-generic null k = refl
  search-generic (node c l x r) k = ground (arith, search-generic l k, search-generic r k)

  pub search-inorder_lem :
      (t : RbNode K) (k : K) → IsSorted (inorder t) → search t k ≡ Ordered.search k (inorder t)
  search-inorder_lem t k s = search-generic t k ∙ search-inorder t k s
