-- ===== src/Tests/DisjointSet.antt =====
-- include/unionfind.hpp at numbers: a run of `DisjointSet`, and its theorems at the state it leaves.
use de_si_gnar.Prelude.{
  some_inj, ℕ, zero, suc, ◌≤◌, ◌<◌, ◌==◌, ◌≡◌, ◌↔◌, refl, Bool, true, some, ◌>>=◌, [], ◌∷◌, ◌⊎◌,
  get_elem?, inl, inr, subst, arith,
}
use de_si_gnar.Prelude.Updates.{set}
use de_si_gnar.DisjointSet.{
  DisjointSet, empty, make_set, added, search, root_from, find_root, attach, link, union_roots,
  index_of_existing, same_set, union_sets,
}
use de_si_gnar.DisjointSet.Forest.{IsForest, rank_of}
use de_si_gnar.DisjointSet.Halving.{IsFound, find_root-IsFound}
use de_si_gnar.DisjointSet.Laws.{IsValid, Together}
use de_si_gnar.DisjointSet.Calls.{same_set-Together}
use de_si_gnar.DisjointSet.Union.{Merged, union_sets-Merged}
use de_si_gnar.DisjointSet.Grow.{IsMade, make_set-IsMade}

abbrev equal : ℕ → ℕ → Bool
equal a b = a == b

-- Four keys in one set: the last one is two steps below the root.
abbrev sample : DisjointSet ℕ
sample = record {
  index_of = (40, 3) ∷ (30, 2) ∷ (20, 1) ∷ (10, 0) ∷ [];
  parent = 0 ∷ 0 ∷ 0 ∷ 2 ∷ [];
  rnk = 2 ∷ 0 ∷ 1 ∷ 0 ∷ [];
  key_of = 10 ∷ 20 ∷ 30 ∷ 40 ∷ [];
}

abbrev four : DisjointSet ℕ
four = make_set equal (make_set equal (make_set equal (make_set equal empty 10) 20) 30) 40

ran :
    (do s ← union_sets equal four 10 20; t ← union_sets equal s 30 40; union_sets equal t 20 40)
    ≡ some sample
unfolding empty make_set added search root_from find_root set attach link union_roots
    index_of_existing union_sets
ran = refl

-- One more key, in a set of its own.
abbrev two_sets : DisjointSet ℕ
two_sets = record {
  index_of = (50, 4) ∷ (40, 3) ∷ (30, 2) ∷ (20, 1) ∷ (10, 0) ∷ [];
  parent = 0 ∷ 0 ∷ 0 ∷ 2 ∷ 4 ∷ [];
  rnk = 2 ∷ 0 ∷ 1 ∷ 0 ∷ 0 ∷ [];
  key_of = 10 ∷ 20 ∷ 30 ∷ 40 ∷ 50 ∷ [];
}

-- What `IsForest` says of an index and its parent.
abbrev Entry : ℕ → ℕ → Type 0
Entry i u =
    ((u ≡ i) ⊎ (rank_of sample.rnk i < rank_of sample.rnk u))
    × (v : ℕ) × (get_elem? sample.parent u ≡ some v)

entry : (i v u : ℕ) → some v ≡ some u → Entry i v → Entry i u
entry i v u h = subst (Entry i) (some_inj h)

sample-IsForest : IsForest sample.parent (rank_of sample.rnk)
sample-IsForest zero u h = entry 0 0 u h (inl refl, 0, refl)
sample-IsForest (suc zero) u h = entry 1 0 u h (inr (omega arith), 0, refl)
sample-IsForest (suc (suc zero)) u h = entry 2 0 u h (inr (omega arith), 0, refl)
sample-IsForest (suc (suc (suc zero))) u h = entry 3 2 u h (inr (omega arith), 0, refl)
sample-IsForest (suc (suc (suc (suc i)))) u h = cc

valid : IsValid sample
valid = record {
  forest = sample-IsForest;
  ranks = refl;
  names = refl;
  indices = (refl, (refl, (refl, (refl, tt))));
}

make_set-IsMade_example :
    IsValid (make_set equal sample 50) × IsMade equal sample 50 (make_set equal sample 50)
make_set-IsMade_example = make_set-IsMade equal sample 50 valid

grown : make_set equal sample 50 ≡ two_sets
unfolding make_set added search
grown = refl

valid_two : IsValid two_sets
valid_two = rw grown at make_set-IsMade_example.0

find_root-IsFound_example :
    IsFound sample.parent (rank_of sample.rnk) 3 (find_root 3 sample.parent 3)
find_root-IsFound_example =
    find_root-IsFound 3 2 sample.parent (rank_of sample.rnk) 3 2 sample-IsForest bounded refl
      (omega arith)
  where
    bounded : (j : ℕ) → rank_of sample.rnk j ≤ 2
    bounded zero = omega arith
    bounded (suc zero) = omega arith
    bounded (suc (suc zero)) = omega arith
    bounded (suc (suc (suc zero))) = omega arith
    bounded (suc (suc (suc (suc j)))) = omega arith

same_set-Together_example :
    (t : DisjointSet ℕ) × (d : Bool) × (same_set equal two_sets 40 50 ≡ some (t, d))
    × IsValid t
    × ((d ≡ true) ↔ Together two_sets 3 4)
    × ((x y : ℕ) → Together two_sets x y ↔ Together t x y)
same_set-Together_example =
    same_set-Together equal two_sets 40 50 3 4 valid_two (unfold index_of_existing search in refl)
      (unfold index_of_existing search in refl)

union_sets-Merged_example :
    (t : DisjointSet ℕ) × (union_sets equal two_sets 50 40 ≡ some t)
    × IsValid t
    × (t.index_of ≡ two_sets.index_of)
    × ((x y : ℕ) → Together t x y ↔ Merged two_sets 4 3 x y)
union_sets-Merged_example =
    union_sets-Merged equal two_sets 50 40 4 3 valid_two (unfold index_of_existing search in refl)
      (unfold index_of_existing search in refl)
