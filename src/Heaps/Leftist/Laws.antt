-- ===== src/Heaps/Leftist/Laws.antt =====
-- `LeftistHeap` of include/leftistheap.hpp, at the interface of a priority queue.
use de_si_gnar.Prelude.{
  ℕ, ◌+◌, ◌-◌, ◌≡◌, refl, none, some, List, [], ◌∷◌, All, All-append, length, length-append, arith,
}
use de_si_gnar.Compare.{Compare, ◌≼◌}
use de_si_gnar.Permutation.{length-perm, perm_append_comm, All-perm}
use de_si_gnar.Heaps.Queue.{IsPriorityQueue, drain, drain_sorts}
use de_si_gnar.Ordered.{IsSortedDup}
use de_si_gnar.Heaps.Leftist.{
  LeftistNode, LeftistHeap, nil, node, merge, insert, extract_min, get_min, empty, new_node,
}
use de_si_gnar.Heaps.Leftist.Merge
use de_si_gnar.Heaps.Leftist.Merge.{keys-merge}
use de_si_gnar.Heaps.Leftist.Order.{IsHeap, merge-IsHeap}
use de_si_gnar.Heaps.Leftist.Balance.{IsLeftist, merge-IsLeftist}
use mathlib.Core.Bool.{Bool-set}
use mathlib.Core.List.{Perm}
use mathlib.Core.List.Perm

module _ {ℓ} {K : Type ℓ} where
  abbrev pub keys : LeftistHeap K → List K
  keys h = Merge.keys h.root

module _ {ℓ} {K : Type ℓ} ⦃o : Compare K⦄ where
  -- The heap order, right and leftist null path lengths, and the number of keys.
  pub record IsValid (h : LeftistHeap K) : Type 0 where
    pub ordered : IsHeap h.root
    pub leftist : IsLeftist h.root
    pub counts : h.num_items ≡ length (keys h)

  merged-IsValid :
      (a b : LeftistNode K) (n : ℕ)
      → IsHeap a × IsLeftist a
      → IsHeap b × IsLeftist b
      → n ≡ length (Merge.keys a) + length (Merge.keys b)
      → IsValid (record { root = merge a b; num_items = n })
  merged-IsValid a b n ha hb e = record {
    ordered = merge-IsHeap a b ha.0 hb.0;
    leftist = merge-IsLeftist a b ha.1 hb.1;
    counts =
        omega (arith, e, length-perm (keys-merge a b), length-append (Merge.keys a) (Merge.keys b));
  }

  insert-IsValid : (h : LeftistHeap K) (k : K) → IsValid h → IsValid (insert h k)
  unfolding insert
  insert-IsValid h k v =
      merged-IsValid h.root (new_node k) (h.num_items + 1) (v.ordered, v.leftist)
        ((tt, tt, tt, tt), (refl, omega arith, tt, tt)) (omega (arith, v.counts))

  insert_items : (h : LeftistHeap K) (k : K) → Perm (keys (insert h k)) (k ∷ keys h)
  unfolding insert
  insert_items h k =
      Perm.trans (keys-merge h.root (new_node k)) (perm_append_comm (keys h) (k ∷ []))

  min_none :
      (t : LeftistNode K) (n : ℕ)
      → Merge.keys t ≡ []
      → let h : LeftistHeap K = record { root = t; num_items = n } in
        (get_min h ≡ none) × (extract_min h ≡ none)
  unfolding get_min extract_min
  min_none nil n e = (refl, refl)
  min_none (node m l x r) n e = cc

  min_some :
      (t : LeftistNode K) (n : ℕ) (y : K) (ys : List K)
      → let h : LeftistHeap K = record { root = t; num_items = n } in
        IsValid h
        → keys h ≡ y ∷ ys
        → (h' : LeftistHeap K) × (k : K) × (get_min h ≡ some k)
          × (extract_min h ≡ some (h', k))
          × IsValid h'
          × Perm (keys h) (k ∷ keys h')
          × All (λ z. k ≼ z) (keys h')
  unfolding get_min extract_min
  min_some nil n y ys v e = cc
  min_some (node m l x r) n y ys v e = (
    record { root = merge l r; num_items = n - 1 },
    x,
    refl,
    refl,
    merged-IsValid l r (n - 1) (v.ordered.2, v.leftist.2) (v.ordered.3, v.leftist.3)
        (omega (arith, v.counts, length-append (Merge.keys l) (Merge.keys r))),
    Perm.cons x (Perm.symm (keys-merge l r)),
    All-perm (λ z. x ≼ z) (λ z. Bool-set _ _) (Perm.symm (keys-merge l r))
        (All-append (λ z. x ≼ z) (Merge.keys l) (Merge.keys r) v.ordered.0 v.ordered.1),
  )

  empty-IsValid : IsValid empty
  unfolding empty
  empty-IsValid = record { ordered = tt; leftist = tt; counts = refl }

  -- `LeftistHeap` is a priority queue: the empty heap is valid and has no keys; from a valid
  -- heap, `insert` gives a valid heap with the key added; `get_min` and `extract_min` throw
  -- if there are no keys, and otherwise give the same key, which no other key comes before,
  -- and `extract_min` leaves a valid heap with that key taken out. A valid heap has the heap
  -- order, right and leftist null path lengths, and a right number of items.
  pub leftist-IsPriorityQueue : IsPriorityQueue IsValid keys empty insert get_min extract_min
  leftist-IsPriorityQueue = record {
    empty_valid = empty-IsValid;
    empty_items = unfold empty in refl;
    insert_valid = insert-IsValid;
    insert_items = λ h k v. insert_items h k;
    min_none = λ h v e. min_none h.root h.num_items e;
    min_some = λ h x xs v e. min_some h.root h.num_items x xs v e;
  }

  -- From a valid heap, `extract_min` called as often as `size()` says gives the keys of the
  -- heap, each as often as the heap holds it, so that none comes before an earlier one.
  pub leftist_sorts :
      (h : LeftistHeap K)
      → IsValid h
      → IsSortedDup (drain extract_min h.num_items h)
        × Perm (drain extract_min h.num_items h) (keys h)
  leftist_sorts h v = drain_sorts leftist-IsPriorityQueue h.num_items h v (omega (arith, v.counts))
