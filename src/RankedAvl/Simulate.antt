-- ===== src/RankedAvl/Simulate.antt =====
-- The searches, insertions and removals by key of `RankedAVLTree`, against those of `AVLTree`
-- (include/avltree.hpp).
use de_si_gnar.Prelude.{◌≡◌, refl, Bool-cases, inl, inr, arith}
use de_si_gnar.Compare.{Compare}
use de_si_gnar.Nodes.{null, node}
use de_si_gnar.Avl
use de_si_gnar.RankedAvl.{RkNode, insert, insert_dup, search, search_or_insert, remove}
use de_si_gnar.RankedAvl.Erase.{erase, balance-erase, remove_here-erase, rebuilt-erase}

module _ {ℓ} {K : Type ℓ} ⦃o : Compare K⦄ where
  pub search-erase : (t : RkNode K) (k : K) → search t k ≡ Avl.search (erase t) k
  unfolding search Avl.search
  search-erase null k = refl
  search-erase (node m l x r) k = ground (arith, search-erase l k, search-erase r k)

  -- Without its counts, the tree that `insert` of `RankedAVLTree` builds is the one that
  -- `insert` of `AVLTree` builds from the tree without its counts, and they report the same.
  pub insert-erase :
      (t : RkNode K) (k : K)
      → (erase (insert t k).0 ≡ (Avl.insert (erase t) k).0)
        × ((insert t k).1 ≡ (Avl.insert (erase t) k).1)
  unfolding insert Avl.insert
  insert-erase null k = (refl, refl)
  insert-erase (node m l x r) k =
      let (tl, rl) = insert-erase l k in
      let (tr, rr) = insert-erase r k in
      let h = m.stored_height in
      elim (Bool-cases (o.cmp k x)) [
        | inl less ↦
            rw (less, insert, Avl.insert)
              (rebuilt-erase (λ t. node m t x r) (λ t. node h t x (erase r)) _ _ (λ t. refl) tl rl)
        | inr not_less ↦ elim (Bool-cases (o.cmp x k)) [
          | inl more ↦
              rw (not_less, more, insert, Avl.insert)
                (rebuilt-erase (λ t. node m l x t) (λ t. node h (erase l) x t) _ _ (λ t. refl) tr
                  rr)
          | inr here ↦ rw (not_less, here, insert, Avl.insert) (refl, refl)
        ]
      ]

  -- Without its counts, the tree that `remove` of `RankedAVLTree` leaves is the one that
  -- `remove` of `AVLTree` leaves of the tree without its counts, and they report the same.
  pub remove-erase :
      (t : RkNode K) (k : K)
      → (erase (remove t k).0 ≡ (Avl.remove (erase t) k).0)
        × ((remove t k).1 ≡ (Avl.remove (erase t) k).1)
  unfolding remove Avl.remove
  remove-erase null k = (refl, refl)
  remove-erase (node m l x r) k =
      let (tl, rl) = remove-erase l k in
      let (tr, rr) = remove-erase r k in
      let h = m.stored_height in
      elim (Bool-cases (o.cmp k x)) [
        | inl less ↦
            rw (less, remove, Avl.remove)
              (rebuilt-erase (λ t. node m t x r) (λ t. node h t x (erase r)) _ _ (λ t. refl) tl rl)
        | inr not_less ↦ elim (Bool-cases (o.cmp x k)) [
          | inl more ↦
              rw (not_less, more, remove, Avl.remove)
                (rebuilt-erase (λ t. node m l x t) (λ t. node h (erase l) x t) _ _ (λ t. refl) tr
                  rr)
          | inr here ↦ rw (not_less, here, remove, Avl.remove) (remove_here-erase m l x r, refl)
        ]
      ]

  pub insert_dup-erase :
      (t : RkNode K) (k : K) → erase (insert_dup t k) ≡ Avl.insert_dup (erase t) k
  unfolding insert_dup Avl.insert_dup
  insert_dup-erase null k = refl
  insert_dup-erase (node m l x r) k = ground (
    arith,
    insert_dup-erase l k,
    insert_dup-erase r k,
    balance-erase (node m (insert_dup l k) x r),
    balance-erase (node m l x (insert_dup r k)),
  )

  pub search_or_insert-erase :
      (t : RkNode K) (k : K)
      → (erase (search_or_insert t k).0 ≡ (Avl.search_or_insert (erase t) k).0)
        × ((search_or_insert t k).1 ≡ (Avl.search_or_insert (erase t) k).1)
        × ((search_or_insert t k).2 ≡ (Avl.search_or_insert (erase t) k).2)
  unfolding search_or_insert Avl.search_or_insert
  search_or_insert-erase null k = (refl, refl, refl)
  search_or_insert-erase (node m l x r) k = ground (
    arith,
    search_or_insert-erase l k,
    search_or_insert-erase r k,
    balance-erase (node m (search_or_insert l k).0 x r),
    balance-erase (node m l x (search_or_insert r k).0),
  )
