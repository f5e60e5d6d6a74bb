-- ===== src/DisjointSet/Find.antt =====
-- `find` of `DisjointSet` (include/unionfind.hpp), and the calls at a key that was never added.
use de_si_gnar.Prelude.{get_in_range, ◌≡◌, refl, sym, subst, ℕ, ◌<◌, Bool, none, some, get_elem?}
use de_si_gnar.DisjointSet.{DisjointSet, index_of_existing, find, same_set, union_sets}
use de_si_gnar.DisjointSet.Forest.{IsRoot, IsRoot-root}
use de_si_gnar.DisjointSet.Laws.{IsValid, root_from-IsLooked, rooted_range}
use de_si_gnar.DisjointSet.Calls.{index_range}

module _ {ℓ} {K : Type ℓ} (equal : K → K → Bool) where
  -- At a valid state, with the key at `i`, `find` ends in a valid state, with the key that
  -- stands there at the root above `i`.
  pub find-IsRoot :
      (s : DisjointSet K) (k : K) (i : ℕ)
      → IsValid s
      → index_of_existing equal s k ≡ some i
      → (t : DisjointSet K) × (x : K) × (r : ℕ) × (find equal s k ≡ some (t, x))
        × IsRoot s.parent i r
        × (get_elem? t.key_of r ≡ some x)
        × IsValid t
  unfolding find
  find-IsRoot s k i v h =
      let p = root_from-IsLooked s i v (index_range equal s k i v h) in
      let below =
        rooted_range p.after.parent p.root p.root
          (IsRoot.here p.root (IsRoot-root p.after.parent i p.root (p.kept i p.root p.is_root))) in
      let (x, named) =
        get_in_range p.after.key_of p.root (subst (λ m. p.root < m) (sym p.valid.names) below) in
      (p.after, x, p.root, rw (h, p.result, named) refl, p.is_root, named, p.valid)

  -- At a key that is not there, `find`, `same_set` and `union_sets` throw.
  pub unknown_key :
      (s : DisjointSet K) (a b : K)
      → index_of_existing equal s a ≡ none
      → (find equal s a ≡ none) × (same_set equal s a b ≡ none) × (union_sets equal s a b ≡ none)
  unfolding find same_set union_sets
  unknown_key s a b h = (rw h refl, rw h refl, rw h refl)
