-- ===== src/Heaps/Pairing/Laws.antt =====
-- `PairingHeap` of include/pairingheap.hpp, at the interface of a priority queue.
use de_si_gnar.Prelude.{
  ℕ, ◌+◌, ◌-◌, ◌≡◌, refl, ap, none, some, List, [], ◌∷◌, ◌++◌, All, append-nil, length,
  length-append, arith,
}
use de_si_gnar.Compare.{Compare, ◌≼◌}
use de_si_gnar.Permutation.{length-perm, perm_append_comm, All-perm}
use de_si_gnar.Heaps.Queue.{IsPriorityQueue, drain, drain_sorts}
use de_si_gnar.Ordered.{IsSortedDup}
use de_si_gnar.Heaps.Pairing.{
  PairingNode, PairingHeap, nil, node, merge_pairs, insert, extract_min, get_min, empty, new_node,
}
use de_si_gnar.Heaps.Pairing.Merge
use de_si_gnar.Heaps.Pairing.Merge.{IsRoot, IsHeap, IsMelded, meld-IsMelded, merge_pairs-IsMelded}
use mathlib.Core.Bool.{Bool-set}
use mathlib.Core.List.{Perm}
use mathlib.Core.List.Perm

module _ {ℓ} {K : Type ℓ} where
  abbrev pub keys : PairingHeap K → List K
  keys h = Merge.keys h.root

module _ {ℓ} {K : Type ℓ} ⦃o : Compare K⦄ where
  -- A single tree in heap order, and the number of keys.
  pub record IsValid (h : PairingHeap K) : Type 0 where
    pub rooted : IsRoot h.root
    pub ordered : IsHeap h.root
    pub counts : h.num_items ≡ length (keys h)

  melded-IsValid :
      (t : PairingNode K) (xs : List K) (n : ℕ)
      → IsMelded xs t
      → n ≡ length xs
      → IsValid (record { root = t; num_items = n })
  melded-IsValid t xs n m e = record {
    rooted = m.rooted;
    ordered = m.ordered;
    counts = omega (arith, e, length-perm m.gathered);
  }

  insert-IsMelded :
      (h : PairingHeap K) (k : K) → IsValid h → IsMelded (keys h ++ k ∷ []) (insert h k).root
  unfolding insert
  insert-IsMelded h k v = meld-IsMelded h.root (new_node k) v.rooted refl v.ordered (tt, tt, tt)

  insert-IsValid : (h : PairingHeap K) (k : K) → IsValid h → IsValid (insert h k)
  unfolding insert
  insert-IsValid h k v =
      melded-IsValid _ (keys h ++ k ∷ []) (h.num_items + 1) (insert-IsMelded h k v)
        (omega (arith, v.counts, length-append (keys h) (k ∷ [])))

  insert_items : (h : PairingHeap K) (k : K) → IsValid h → Perm (keys (insert h k)) (k ∷ keys h)
  insert_items h k v =
      let m = insert-IsMelded h k v in Perm.trans m.gathered (perm_append_comm (keys h) (k ∷ []))

  min_none :
      (t : PairingNode K) (n : ℕ)
      → Merge.keys t ≡ []
      → let h : PairingHeap K = record { root = t; num_items = n } in
        (get_min h ≡ none) × (extract_min h ≡ none)
  unfolding get_min extract_min
  min_none nil n e = (refl, refl)
  min_none (node x c s) n e = cc

  min_some :
      (t : PairingNode K) (n : ℕ) (y : K) (ys : List K)
      → let h : PairingHeap K = record { root = t; num_items = n } in
        IsValid h
        → keys h ≡ y ∷ ys
        → (h' : PairingHeap K) × (k : K) × (get_min h ≡ some k)
          × (extract_min h ≡ some (h', k))
          × IsValid h'
          × Perm (keys h) (k ∷ keys h')
          × All (λ z. k ≼ z) (keys h')
  unfolding get_min extract_min
  min_some nil n y ys v e = cc
  min_some (node x c (node z d t)) n y ys v e = let apart = v.rooted in cc
  min_some (node x c nil) n y ys v e =
      let m = merge_pairs-IsMelded c v.ordered.1 in
      let size = ap length (append-nil (Merge.keys c)) in
      (
        record { root = merge_pairs c; num_items = n - 1 },
        x,
        refl,
        refl,
        melded-IsValid (merge_pairs c) (Merge.keys c) (n - 1) m (omega (arith, v.counts, size)),
        Perm.cons x (rw (append-nil (Merge.keys c)) (Perm.symm m.gathered)),
        All-perm (λ z. x ≼ z) (λ z. Bool-set _ _) (Perm.symm m.gathered) v.ordered.0,
      )

  empty-IsValid : IsValid empty
  unfolding empty
  empty-IsValid = record { rooted = refl; ordered = tt; counts = refl }

  -- `PairingHeap` is a priority queue: the empty heap is valid and has no keys; from a valid
  -- heap, `insert` gives a valid heap with the key added; `get_min` and `extract_min` throw
  -- if there are no keys, and otherwise give the same key, which no other key comes before,
  -- and `extract_min` leaves a valid heap with that key taken out. A valid heap is a single
  -- tree in heap order, with a right number of items.
  pub pairing-IsPriorityQueue : IsPriorityQueue IsValid keys empty insert get_min extract_min
  pairing-IsPriorityQueue = record {
    empty_valid = empty-IsValid;
    empty_items = unfold empty in refl;
    insert_valid = insert-IsValid;
    insert_items = insert_items;
    min_none = λ h v e. min_none h.root h.num_items e;
    min_some = λ h x xs v e. min_some h.root h.num_items x xs v e;
  }

  -- From a valid heap, `extract_min` called as often as `size()` says gives the keys of the
  -- heap, each as often as the heap holds it, so that none comes before an earlier one.
  pub pairing_sorts :
      (h : PairingHeap K)
      → IsValid h
      → IsSortedDup (drain extract_min h.num_items h)
        × Perm (drain extract_min h.num_items h) (keys h)
  pairing_sorts h v = drain_sorts pairing-IsPriorityQueue h.num_items h v (omega (arith, v.counts))
