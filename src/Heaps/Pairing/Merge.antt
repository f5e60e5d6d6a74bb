-- ===== src/Heaps/Pairing/Merge.antt =====
-- `meld` and `merge_pairs` of include/pairingheap.hpp: the keys, and the heap order.
use de_si_gnar.Prelude.{
  ◌≡◌, refl, Bool, true, false, Bool-cases, inl, inr, List, [], ◌∷◌, ◌++◌, All, All-append, All-imp,
  append_assoc, append-nil,
}
use de_si_gnar.Compare.{Compare, ◌≼◌, asymm, le_trans}
use de_si_gnar.Permutation.{perm_append_comm}
use de_si_gnar.Heaps.Pairing.{PairingNode, nil, node, meld, merge_pairs}
use mathlib.Core.List.{Perm}
use mathlib.Core.List.Perm

module _ {ℓ} {K : Type ℓ} where
  -- The keys of a node, of its children and of its siblings.
  abbrev pub keys : PairingNode K → List K
  keys nil = []
  keys (node x c s) = x ∷ (keys c ++ keys s)

  abbrev is_root : PairingNode K → Bool
  is_root nil = true
  is_root (node x c nil) = true
  is_root (node x c (node y d t)) = false

  -- A tree, with no siblings at its root.
  abbrev pub IsRoot : PairingNode K → Type 0
  IsRoot t = is_root t ≡ true

module _ {ℓ} {K : Type ℓ} ⦃o : Compare K⦄ where
  -- No key below a node comes before its key.
  abbrev pub IsHeap : PairingNode K → Type 0
  IsHeap nil = Unit
  IsHeap (node x c s) = All (λ y. x ≼ y) (keys c) × IsHeap c × IsHeap s

  -- What `meld` and `merge_pairs` promise of their result `t`, made of trees with the keys `xs`.
  pub record IsMelded (xs : List K) (t : PairingNode K) : Type ℓ where
    pub rooted : IsRoot t
    pub ordered : IsHeap t
    pub gathered : Perm (keys t) xs

  IsMelded-perm : {xs ys : List K} {t : PairingNode K} → Perm xs ys → IsMelded xs t → IsMelded ys t
  IsMelded-perm p m = record {
    rooted = m.rooted;
    ordered = m.ordered;
    gathered = Perm.trans m.gathered p;
  }

  below_root :
      (z x : K) (c : PairingNode K)
      → z ≼ x
      → All (λ y. x ≼ y) (keys c)
      → All (λ y. z ≼ y) (x ∷ keys c)
  below_root z x c h b = (h, All-imp (λ y g. le_trans z x y h g) (keys c) b)

  -- The tree of `y` over the tree of `x`.
  hung :
      (x : K) (c : PairingNode K) (y : K) (d : PairingNode K)
      → y ≼ x
      → IsHeap (node x c nil)
      → IsHeap (node y d nil)
      → IsMelded (keys (node y d nil) ++ keys (node x c nil)) (node y (node x c d) nil)
  hung x c y d h hx hy = record {
    rooted = refl;
    ordered = (
      All-append (λ z. y ≼ z) (x ∷ keys c) (keys d) (below_root y x c h hx.0) hy.0,
      (hx.0, hx.1, hy.1),
      tt,
    );
    gathered =
        rw (append-nil (x ∷ (keys c ++ keys d)), append-nil (keys d), append-nil (keys c))
          (Perm.cons y (perm_append_comm (x ∷ keys c) (keys d)));
  }

  -- `meld` of two trees.
  pub meld-IsMelded :
      (a b : PairingNode K)
      → IsRoot a
      → IsRoot b
      → IsHeap a
      → IsHeap b
      → IsMelded (keys a ++ keys b) (meld a b)
  unfolding meld
  meld-IsMelded nil b ra rb ha hb = record { rooted = rb; ordered = hb; gathered = Perm.rfl }
  meld-IsMelded (node x c s) nil ra rb ha hb = record {
    rooted = ra;
    ordered = ha;
    gathered = rw (append-nil (keys (node x c s))) Perm.rfl;
  }
  meld-IsMelded (node x c (node z e t)) (node y d s) ra rb ha hb = cc
  meld-IsMelded (node x c nil) (node y d (node z e t)) ra rb ha hb = cc
  meld-IsMelded (node x c nil) (node y d nil) ra rb ha hb = elim (Bool-cases (o.cmp y x)) [
    | inl second ↦
        rw (second, meld)
          (IsMelded-perm (perm_append_comm (keys (node y d nil)) (keys (node x c nil)))
            (hung x c y d (asymm y x second) ha hb))
    | inr first ↦ rw (first, meld) (hung y d x c first hb ha)
  ]

  -- `merge_pairs` of siblings in heap order gives a single tree, without siblings at its root
  -- and in heap order, with the keys of all of them.
  pub merge_pairs-IsMelded : (t : PairingNode K) → IsHeap t → IsMelded (keys t) (merge_pairs t)
  unfolding merge_pairs
  merge_pairs-IsMelded nil h = record { rooted = refl; ordered = tt; gathered = Perm.rfl }
  merge_pairs-IsMelded (node x c nil) h = record { rooted = refl; ordered = h; gathered = Perm.rfl }
  merge_pairs-IsMelded (node x c (node y d rest)) h =
      let pair =
        meld-IsMelded (node x c nil) (node y d nil) refl refl (h.0, h.1, tt) (h.2.0, h.2.1, tt) in
      let others = merge_pairs-IsMelded rest h.2.2 in
      let all = meld-IsMelded _ _ pair.rooted others.rooted pair.ordered others.ordered in
      IsMelded-perm
        (Perm.trans (Perm.append_right _ pair.gathered) (
          rw (append-nil (keys c), append-nil (keys d))
            (Perm.trans (Perm.append_left (x ∷ (keys c ++ y ∷ keys d)) others.gathered)
              (rw (append_assoc (keys c) (y ∷ keys d) (keys rest)) Perm.rfl))))
        all
