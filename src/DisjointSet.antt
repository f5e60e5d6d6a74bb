-- ===== src/DisjointSet.antt =====
-- include/unionfind.hpp, `DisjointSet`: union-find with union by rank and path halving. The arrays
-- `parent` and `rnk` are lists, where an access out of range is `none`; `index_of`, a `HashMap`
-- of include/map.hpp, is the list of its pairs, whose keys it compares with `Cmp`.
pub mod Forest
pub mod Halving
pub mod Link
pub mod Laws
pub mod Join
pub mod Calls
pub mod Union
pub mod Grow
pub mod Find
use de_si_gnar.Prelude.{
  ℕ, zero, suc, ◌+◌, ◌==◌, ltb, Bool, true, false, Option, none, some, ◌>>=◌, List, [], ◌∷◌, ◌++◌,
  get_elem?, length, if◌then◌else◌,
}
use de_si_gnar.Prelude.Updates.{set}

-- The sum of the ranks, which bounds each of them.
abbrev pub total : List ℕ → ℕ
total [] = 0
total (r ∷ rs) = r + total rs

-- `find_root` with fuel: the parents after path halving, and the root.
unfoldable pub find_root : ℕ → List ℕ → ℕ → Option (List ℕ × ℕ)
find_root zero parent i = none
find_root (suc fuel) parent i = do
  up ← get_elem? parent i
  top ← get_elem? parent up
  let rest = find_root fuel (set parent i top) top in if up == i then some (parent, i) else rest

pub record DisjointSet {ℓ} (K : Type ℓ) : Type ℓ where
  pub index_of : List (K × ℕ)
  pub parent : List ℕ
  pub rnk : List ℕ
  pub key_of : List K

module _ {ℓ} {K : Type ℓ} (equal : K → K → Bool) where
  -- `index_of.search(k)`.
  unfoldable pub search : List (K × ℕ) → K → Option ℕ
  search [] k = none
  search ((x, i) ∷ rest) k = if equal x k then some i else search rest k

module _ {ℓ} {K : Type ℓ} where
  unfoldable pub empty : DisjointSet K
  empty = record { index_of = []; parent = []; rnk = []; key_of = [] }

  unfoldable pub num_keys : DisjointSet K → ℕ
  num_keys s = length s.parent

  -- `find_root(i)`, with fuel for each rank.
  unfoldable pub root_from : DisjointSet K → ℕ → Option (DisjointSet K × ℕ)
  root_from s i = do
    p ← find_root (suc (total s.rnk)) s.parent i
    some (record s { parent = p.0 }, p.1)

  -- `union_sets` at two roots, the first of no lower rank.
  unfoldable pub attach : DisjointSet K → ℕ → ℕ → ℕ → ℕ → DisjointSet K
  attach s ra rb rank_a rank_b = record s {
    parent = set s.parent rb ra;
    rnk = if rank_a == rank_b then set s.rnk ra (rank_a + 1) else s.rnk;
  }

  -- `union_sets` at two different roots.
  unfoldable pub link : DisjointSet K → ℕ → ℕ → Option (DisjointSet K)
  link s ra rb = do
    rank_a ← get_elem? s.rnk ra
    rank_b ← get_elem? s.rnk rb
    some (if ltb rank_a rank_b then attach s rb ra rank_b rank_a else attach s ra rb rank_a rank_b)

  -- `union_sets` once the roots are found.
  unfoldable pub union_roots : DisjointSet K → ℕ → ℕ → Option (DisjointSet K)
  union_roots s ra rb = if ra == rb then some s else link s ra rb

  -- `make_set` with a new key.
  unfoldable pub added : DisjointSet K → K → DisjointSet K
  added s k = record {
    index_of = (k, length s.parent) ∷ s.index_of;
    parent = s.parent ++ length s.parent ∷ [];
    rnk = s.rnk ++ 0 ∷ [];
    key_of = s.key_of ++ k ∷ [];
  }

module _ {ℓ} {K : Type ℓ} (equal : K → K → Bool) where
  -- `none` is the exception `std::domain_error`, also below.
  unfoldable pub index_of_existing : DisjointSet K → K → Option ℕ
  index_of_existing s k = search equal s.index_of k

  unfoldable pub contains : DisjointSet K → K → Bool
  contains s k = elim (search equal s.index_of k) [ none ↦ false | some _ ↦ true ]

  unfoldable pub make_set : DisjointSet K → K → DisjointSet K
  make_set s k = elim (search equal s.index_of k) [ some _ ↦ s | none ↦ added s k ]

  unfoldable pub find : DisjointSet K → K → Option (DisjointSet K × K)
  find s k = do
    i ← index_of_existing s k
    p ← root_from s i
    root ← get_elem? p.0.key_of p.1
    some (p.0, root)

  unfoldable pub same_set : DisjointSet K → K → K → Option (DisjointSet K × Bool)
  same_set s a b = do
    i ← index_of_existing s a
    p ← root_from s i
    j ← index_of_existing p.0 b
    q ← root_from p.0 j
    some (q.0, p.1 == q.1)

  unfoldable pub union_sets : DisjointSet K → K → K → Option (DisjointSet K)
  union_sets s a b = do
    i ← index_of_existing s a
    p ← root_from s i
    j ← index_of_existing p.0 b
    q ← root_from p.0 j
    union_roots q.0 p.1 q.1
