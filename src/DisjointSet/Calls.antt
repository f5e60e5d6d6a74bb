-- ===== src/DisjointSet/Calls.antt =====
-- The calls of `DisjointSet` (include/unionfind.hpp) on the partition: `same_set` and `union_sets`.
use de_si_gnar.Prelude.{
  some_inj, in_range, ℕ, ◌<◌, ◌==◌, ==_iff, ◌≡◌, ◌∙◌, refl, sym, subst, Bool, Bool-cases, true,
  some, ◌↔◌, inl, inr, List, [], ◌∷◌, All, get_elem?, length,
}
use de_si_gnar.DisjointSet.{DisjointSet, search, root_from, index_of_existing, same_set}
use de_si_gnar.DisjointSet.Forest.{IsRoot, IsRoot-unique}
use de_si_gnar.DisjointSet.Laws.{IsValid, Together}
use de_si_gnar.DisjointSet.Laws.{IsLooked, root_from-IsLooked}

module _ {ℓ} {K : Type ℓ} where
  -- The two searches that `same_set` and `union_sets` start with.
  pub record IsPair (s : DisjointSet K) (i j : ℕ) : Type ℓ where
    pub first : IsLooked s i (root_from s i)
    pub second : IsLooked first.after j (root_from first.after j)
    pub roots : (x r : ℕ) → IsRoot s.parent x r ↔ IsRoot second.after.parent x r

  unfoldable pub pair :
      (s : DisjointSet K) (i j : ℕ)
      → IsValid s
      → i < length s.parent
      → j < length s.parent
      → IsPair s i j
  pair s i j v hi hj =
      let p = root_from-IsLooked s i v hi in
      let q = root_from-IsLooked p.after j p.valid (subst (λ m. j < m) (sym p.size) hj) in
      record {
        first = p;
        second = q;
        roots = λ x r. (λ g. q.kept x r (p.kept x r g), λ g. p.back x r (q.back x r g));
      }

  pub Together-of :
      (s t : DisjointSet K) (x y : ℕ)
      → ((x r : ℕ) → IsRoot s.parent x r ↔ IsRoot t.parent x r)
      → Together s x y ↔ Together t x y
  Together-of s t x y same = (
    λ g. (g.0, (same x g.0).0 g.1, (same y g.0).0 g.2),
    λ g. (g.0, (same x g.0).1 g.1, (same y g.0).1 g.2),
  )

module _ {ℓ} {K : Type ℓ} (equal : K → K → Bool) where
  search-All {κ} :
      (P : K × ℕ → Type κ) (index : List (K × ℕ)) (k : K) (i : ℕ)
      → All P index
      → search equal index k ≡ some i
      → (x : K) × P (x, i)
  unfolding search
  search-All P [] k i h e = cc
  search-All P ((x, j) ∷ rest) k i h e = elim (Bool-cases (equal x k)) [
    | inl same ↦
        let e' : some j ≡ some i = rw (same, search) at e in
        (x, subst (λ m. P (x, m)) (some_inj e') h.0)
    | inr other ↦
        let e' : search equal rest k ≡ some i = rw (other, search) at e in
        search-All P rest k i h.1 e'
  ]

  pub index_range :
      (s : DisjointSet K) (k : K) (i : ℕ)
      → IsValid s
      → index_of_existing equal s k ≡ some i
      → i < length s.parent
  unfolding index_of_existing
  index_range s k i v e =
      let (x, at) =
        search-All (λ q. get_elem? s.key_of q.1 ≡ some q.0) s.index_of k i v.indices e in
      subst (λ m. i < m) v.names (in_range s.key_of i x at)

  -- `find_root` leaves the indices of the keys as they are.
  pub index_after :
      (s t : DisjointSet K) (b : K) (j : ℕ)
      → t.index_of ≡ s.index_of
      → index_of_existing equal s b ≡ some j
      → index_of_existing equal t b ≡ some j
  unfolding index_of_existing
  index_after s t b j e h = rw e h

  -- At a valid state, with the keys at `i` and `j`, `same_set` ends, tells whether they are
  -- in one set, and leaves a valid state with the same partition.
  pub same_set-Together :
      (s : DisjointSet K) (a b : K) (i j : ℕ)
      → IsValid s
      → index_of_existing equal s a ≡ some i
      → index_of_existing equal s b ≡ some j
      → (t : DisjointSet K) × (d : Bool) × (same_set equal s a b ≡ some (t, d))
        × IsValid t
        × ((d ≡ true) ↔ Together s i j)
        × ((x y : ℕ) → Together s x y ↔ Together t x y)
  unfolding same_set pair
  same_set-Together s a b i j v ea eb =
      let w = pair s i j v (index_range s a i v ea) (index_range s b j v eb) in
      let p = w.first in
      let q = w.second in
      let eb' = index_after s p.after b j p.same_keys eb in
      (
        q.after,
        p.root == q.root,
        rw (same_set, ea, p.result, eb', q.result) refl,
        q.valid,
        (
          λ e. (
            q.root,
            subst (IsRoot s.parent i) ((==_iff p.root q.root).0 e) p.is_root,
            p.back j q.root q.is_root,
          ),
          λ g. (==_iff p.root q.root).1 (
              IsRoot-unique s.parent i p.root g.0 p.is_root g.1
              ∙ IsRoot-unique s.parent j g.0 q.root g.2 (p.back j q.root q.is_root)),
        ),
        λ x y. Together-of s q.after x y w.roots,
      )
