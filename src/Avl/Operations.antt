-- ===== src/Avl/Operations.antt =====
-- The balance invariant at each operation of `AVLTree` (include/avltree.hpp), and the number of
-- levels after it.
use de_si_gnar.Prelude.{◌≡◌, refl, ap, Option, none, some, arith, Bool-cases, inl, inr}
use de_si_gnar.Prelude.Int.{ℤ}
use de_si_gnar.Compare.{Compare}
use de_si_gnar.Nodes.{null, node}
use de_si_gnar.Avl.{
  AvlNode, balance, remove_min, remove_here, rebuilt, insert, insert_dup, search_or_insert, remove,
}
use de_si_gnar.Avl.Shape.{IsAvl}
use de_si_gnar.Avl.Balance.{Grows, Shrinks, Grows-left, Grows-right, Shrinks-left, Shrinks-right}

module _ {ℓ} {K : Type ℓ} where
  remove_min-Shrinks :
      (h : ℤ) (l : AvlNode K) (x : K) (r : AvlNode K)
      → IsAvl (node h l x r)
      → Shrinks (node h l x r) (remove_min h l x r).0
  unfolding remove_min
  remove_min-Shrinks h null x r a = record {
    avl = a.4;
    no_more = omega arith;
    one_less = omega arith;
  }
  remove_min-Shrinks h (node hl b y c) x r a =
      Shrinks-left h x r a (remove_min-Shrinks hl b y c a.3)

  pub remove_here-Shrinks :
      (h : ℤ) (l : AvlNode K) (x : K) (r : AvlNode K)
      → IsAvl (node h l x r)
      → Shrinks (node h l x r) (remove_here h l x r)
  unfolding remove_here
  remove_here-Shrinks h null x r a = record {
    avl = a.4;
    no_more = omega arith;
    one_less = omega arith;
  }
  remove_here-Shrinks h (node hl b y c) x null a = record {
    avl = a.3;
    no_more = omega arith;
    one_less = omega arith;
  }
  remove_here-Shrinks h (node hl b y c) x (node hr d z e) a =
      Shrinks-right h (node hl b y c) x _ a (remove_min-Shrinks hr d z e a.4)

module _ {ℓ} {K : Type ℓ} ⦃o : Compare K⦄ where
  same_Grows : (t : AvlNode K) → IsAvl t → Grows t t
  same_Grows t a = record { avl = a; no_less = omega arith; one_more = omega arith }

  -- `insert_dup` keeps the invariant, and adds one level at most.
  pub insert_dup-Grows : (t : AvlNode K) (k : K) → IsAvl t → Grows t (insert_dup t k)
  unfolding insert_dup
  insert_dup-Grows null k a = record {
    avl = (refl, omega arith, omega arith, tt, tt);
    no_less = omega arith;
    one_more = omega arith;
  }
  insert_dup-Grows (node h l x r) k a = elim (Bool-cases (o.cmp k x)) [
    | inl less ↦ rw (less, insert_dup) (Grows-left h x r a (insert_dup-Grows l k a.3))
    | inr more ↦ rw (more, insert_dup) (Grows-right h l x a (insert_dup-Grows r k a.4))
  ]

  -- A call that reports nothing leaves its tree as it was.
  rebuilt_unchanged :
      (f : AvlNode K → AvlNode K) (l : AvlNode K) (below : AvlNode K × Option K)
      → (below.1 ≡ none → below.0 ≡ l)
      → (rebuilt f below).1 ≡ none
      → (rebuilt f below).0 ≡ f l
  rebuilt_unchanged f l (t, none) same e = ap f (same refl)
  rebuilt_unchanged f l (t, some k) same e = cc

  -- To show something of a tree that `rebuilt` returns: show it of the old tree and of the balanced.
  rebuilt-elim :
      (P : AvlNode K → Type 0) (f : AvlNode K → AvlNode K) (l : AvlNode K)
      (below : AvlNode K × Option K)
      → (below.1 ≡ none → below.0 ≡ l)
      → P (f l)
      → P (balance (f below.0))
      → P (rebuilt f below).0
  rebuilt-elim P f l (t, none) same old new = rw (same refl) old
  rebuilt-elim P f l (t, some k) same old new = new

  pub insert-none : (t : AvlNode K) (k : K) → (insert t k).1 ≡ none → (insert t k).0 ≡ t
  unfolding insert
  insert-none null k = λ e. cc
  insert-none (node h l x r) k = elim (Bool-cases (o.cmp k x)) [
    | inl less ↦
        rw (less, insert) (rebuilt_unchanged (λ t. node h t x r) l (insert l k) (insert-none l k))
    | inr not_less ↦ elim (Bool-cases (o.cmp x k)) [
      | inl more ↦
          rw (not_less, more, insert)
            (rebuilt_unchanged (λ t. node h l x t) r (insert r k) (insert-none r k))
      | inr here ↦ rw (not_less, here, insert) (λ e. refl)
    ]
  ]

  -- At a balanced tree with right heights, `insert` leaves such a tree, of as many levels or
  -- one more.
  pub insert-Grows : (t : AvlNode K) (k : K) → IsAvl t → Grows t (insert t k).0
  unfolding insert
  insert-Grows null k a = record {
    avl = (refl, omega arith, omega arith, tt, tt);
    no_less = omega arith;
    one_more = omega arith;
  }
  insert-Grows (node h l x r) k a =
      let whole = node h l x r in
      elim (Bool-cases (o.cmp k x)) [
        | inl less ↦
            rw (less, insert)
              (rebuilt-elim (Grows whole) (λ t. node h t x r) l (insert l k) (insert-none l k)
                (same_Grows whole a) (Grows-left h x r a (insert-Grows l k a.3)))
        | inr not_less ↦ elim (Bool-cases (o.cmp x k)) [
          | inl more ↦
              rw (not_less, more, insert)
                (rebuilt-elim (Grows whole) (λ t. node h l x t) r (insert r k) (insert-none r k)
                  (same_Grows whole a) (Grows-right h l x a (insert-Grows r k a.4)))
          | inr here ↦ rw (not_less, here, insert) (same_Grows whole a)
        ]
      ]

  -- `search_or_insert` rebalances even where it has found the key.
  pub search_or_insert-Grows : (t : AvlNode K) (k : K) → IsAvl t → Grows t (search_or_insert t k).0
  unfolding search_or_insert
  search_or_insert-Grows null k a = record {
    avl = (refl, omega arith, omega arith, tt, tt);
    no_less = omega arith;
    one_more = omega arith;
  }
  search_or_insert-Grows (node h l x r) k a = elim (Bool-cases (o.cmp k x)) [
    | inl less ↦ rw (less, search_or_insert) (Grows-left h x r a (search_or_insert-Grows l k a.3))
    | inr not_less ↦ elim (Bool-cases (o.cmp x k)) [
      | inl more ↦
          rw (not_less, more, search_or_insert)
            (Grows-right h l x a (search_or_insert-Grows r k a.4))
      | inr here ↦ rw (not_less, here, search_or_insert) (same_Grows (node h l x r) a)
    ]
  ]

  pub remove-none : (t : AvlNode K) (k : K) → (remove t k).1 ≡ none → (remove t k).0 ≡ t
  unfolding remove
  remove-none null k = λ e. refl
  remove-none (node h l x r) k = elim (Bool-cases (o.cmp k x)) [
    | inl less ↦
        rw (less, remove) (rebuilt_unchanged (λ t. node h t x r) l (remove l k) (remove-none l k))
    | inr not_less ↦ elim (Bool-cases (o.cmp x k)) [
      | inl more ↦
          rw (not_less, more, remove)
            (rebuilt_unchanged (λ t. node h l x t) r (remove r k) (remove-none r k))
      | inr here ↦ rw (not_less, here, remove) (λ e. cc)
    ]
  ]

  -- At a balanced tree with right heights, `remove` leaves such a tree, of as many levels or
  -- one less.
  pub remove-Shrinks : (t : AvlNode K) (k : K) → IsAvl t → Shrinks t (remove t k).0
  unfolding remove
  remove-Shrinks null k a = record { avl = tt; no_more = omega arith; one_less = omega arith }
  remove-Shrinks (node h l x r) k a =
      let whole = node h l x r in
      let same : Shrinks whole whole = record {
        avl = a;
        no_more = omega arith;
        one_less = omega arith;
      } in
      elim (Bool-cases (o.cmp k x)) [
        | inl less ↦
            rw (less, remove)
              (rebuilt-elim (Shrinks whole) (λ t. node h t x r) l (remove l k) (remove-none l k)
                same (Shrinks-left h x r a (remove-Shrinks l k a.3)))
        | inr not_less ↦ elim (Bool-cases (o.cmp x k)) [
          | inl more ↦
              rw (not_less, more, remove)
                (rebuilt-elim (Shrinks whole) (λ t. node h l x t) r (remove r k) (remove-none r k)
                  same (Shrinks-right h l x x a (remove-Shrinks r k a.4)))
          | inr here ↦ rw (not_less, here, remove) (remove_here-Shrinks h l x r a)
        ]
      ]
