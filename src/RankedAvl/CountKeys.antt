-- ===== src/RankedAvl/CountKeys.antt =====
-- The stored counts at the insertions and removals by key of `RankedAVLTree`
-- (include/avltree.hpp).
use de_si_gnar.Prelude.{◌≡◌, refl, ap, Option, none, some, Bool-cases, inl, inr}
use de_si_gnar.Compare.{Compare}
use de_si_gnar.Nodes.{null, node}
use de_si_gnar.RankedAvl.{RkNode, balance, rebuilt, insert, insert_dup, search_or_insert, remove}
use de_si_gnar.RankedAvl.Count.{IsCounted, balance-IsCounted, remove_here-IsCounted}

module _ {ℓ} {K : Type ℓ} where
  -- A call that reports nothing leaves its tree as it was.
  rebuilt_unchanged :
      (f : RkNode K → RkNode K) (l : RkNode K) (below : RkNode K × Option K)
      → (below.1 ≡ none → below.0 ≡ l)
      → (rebuilt f below).1 ≡ none
      → (rebuilt f below).0 ≡ f l
  rebuilt_unchanged f l (t, none) same e = ap f (same refl)
  rebuilt_unchanged f l (t, some k) same e = cc

  rebuilt-elim :
      (P : RkNode K → Type 0) (f : RkNode K → RkNode K) (l : RkNode K) (below : RkNode K × Option K)
      → (below.1 ≡ none → below.0 ≡ l)
      → P (f l)
      → P (balance (f below.0))
      → P (rebuilt f below).0
  rebuilt-elim P f l (t, none) same old new = rw (same refl) old
  rebuilt-elim P f l (t, some k) same old new = new

module _ {ℓ} {K : Type ℓ} ⦃o : Compare K⦄ where
  insert-none : (t : RkNode K) (k : K) → (insert t k).1 ≡ none → (insert t k).0 ≡ t
  unfolding insert
  insert-none null k = λ e. cc
  insert-none (node m l x r) k = elim (Bool-cases (o.cmp k x)) [
    | inl less ↦
        rw (less, insert) (rebuilt_unchanged (λ t. node m t x r) l (insert l k) (insert-none l k))
    | inr not_less ↦ elim (Bool-cases (o.cmp x k)) [
      | inl more ↦
          rw (not_less, more, insert)
            (rebuilt_unchanged (λ t. node m l x t) r (insert r k) (insert-none r k))
      | inr here ↦ rw (not_less, here, insert) (λ e. refl)
    ]
  ]

  -- `insert` leaves right counts.
  pub insert-IsCounted : (t : RkNode K) (k : K) → IsCounted t → IsCounted (insert t k).0
  unfolding insert
  insert-IsCounted null k c = (refl, tt, tt)
  insert-IsCounted (node m l x r) k c = elim (Bool-cases (o.cmp k x)) [
    | inl less ↦
        rw (less, insert)
          (rebuilt-elim IsCounted (λ t. node m t x r) l (insert l k) (insert-none l k) c
            (balance-IsCounted m (insert l k).0 x r (insert-IsCounted l k c.1) c.2))
    | inr not_less ↦ elim (Bool-cases (o.cmp x k)) [
      | inl more ↦
          rw (not_less, more, insert)
            (rebuilt-elim IsCounted (λ t. node m l x t) r (insert r k) (insert-none r k) c
              (balance-IsCounted m l x (insert r k).0 c.1 (insert-IsCounted r k c.2)))
      | inr here ↦ rw (not_less, here, insert) c
    ]
  ]

  remove-none : (t : RkNode K) (k : K) → (remove t k).1 ≡ none → (remove t k).0 ≡ t
  unfolding remove
  remove-none null k = λ e. refl
  remove-none (node m l x r) k = elim (Bool-cases (o.cmp k x)) [
    | inl less ↦
        rw (less, remove) (rebuilt_unchanged (λ t. node m t x r) l (remove l k) (remove-none l k))
    | inr not_less ↦ elim (Bool-cases (o.cmp x k)) [
      | inl more ↦
          rw (not_less, more, remove)
            (rebuilt_unchanged (λ t. node m l x t) r (remove r k) (remove-none r k))
      | inr here ↦ rw (not_less, here, remove) (λ e. cc)
    ]
  ]

  -- `remove` leaves right counts.
  pub remove-IsCounted : (t : RkNode K) (k : K) → IsCounted t → IsCounted (remove t k).0
  unfolding remove
  remove-IsCounted null k c = tt
  remove-IsCounted (node m l x r) k c = elim (Bool-cases (o.cmp k x)) [
    | inl less ↦
        rw (less, remove)
          (rebuilt-elim IsCounted (λ t. node m t x r) l (remove l k) (remove-none l k) c
            (balance-IsCounted m (remove l k).0 x r (remove-IsCounted l k c.1) c.2))
    | inr not_less ↦ elim (Bool-cases (o.cmp x k)) [
      | inl more ↦
          rw (not_less, more, remove)
            (rebuilt-elim IsCounted (λ t. node m l x t) r (remove r k) (remove-none r k) c
              (balance-IsCounted m l x (remove r k).0 c.1 (remove-IsCounted r k c.2)))
      | inr here ↦ rw (not_less, here, remove) (remove_here-IsCounted m l x r c.1 c.2)
    ]
  ]

  pub insert_dup-IsCounted : (t : RkNode K) (k : K) → IsCounted t → IsCounted (insert_dup t k)
  unfolding insert_dup
  insert_dup-IsCounted null k c = (refl, tt, tt)
  insert_dup-IsCounted (node m l x r) k c = elim (Bool-cases (o.cmp k x)) [
    | inl less ↦
        rw (less, insert_dup) (balance-IsCounted m _ x r (insert_dup-IsCounted l k c.1) c.2)
    | inr more ↦
        rw (more, insert_dup) (balance-IsCounted m l x _ c.1 (insert_dup-IsCounted r k c.2))
  ]

  pub search_or_insert-IsCounted :
      (t : RkNode K) (k : K) → IsCounted t → IsCounted (search_or_insert t k).0
  unfolding search_or_insert
  search_or_insert-IsCounted null k c = (refl, tt, tt)
  search_or_insert-IsCounted (node m l x r) k c = elim (Bool-cases (o.cmp k x)) [
    | inl less ↦
        rw (less, search_or_insert)
          (balance-IsCounted m _ x r (search_or_insert-IsCounted l k c.1) c.2)
    | inr not_less ↦ elim (Bool-cases (o.cmp x k)) [
      | inl more ↦
          rw (not_less, more, search_or_insert)
            (balance-IsCounted m l x _ c.1 (search_or_insert-IsCounted r k c.2))
      | inr here ↦ rw (not_less, here, search_or_insert) c
    ]
  ]
