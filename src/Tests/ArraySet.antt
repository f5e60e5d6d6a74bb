-- ===== src/Tests/ArraySet.antt =====
-- include/sort.hpp and include/set.hpp at numbers.
use de_si_gnar.Prelude.{ℕ, suc, ◌≡◌, refl, true, not, some, List, [], ◌∷◌, length}
use de_si_gnar.Compare.{nat_less}
use de_si_gnar.Ordered
use de_si_gnar.Ordered.{IsSorted, rank, reported, found_or, is_none}
use de_si_gnar.Sort.{binary_search}
use de_si_gnar.Sort.Search.{binary_search-rank}
use de_si_gnar.ArraySet.{
  insert_at, remove_pos_closing_breach, search_pos, insert, search_or_insert, search, remove,
}
use de_si_gnar.ArraySet.Laws.{array_refines}

abbrev sample : List ℕ
sample = 2 ∷ 3 ∷ 5 ∷ 8 ∷ []

sample-IsSorted : IsSorted sample
sample-IsSorted = ((refl, (refl, (refl, tt))), ((refl, (refl, tt)), ((refl, tt), (tt, tt))))

inserted : insert sample 4 ≡ some (2 ∷ 3 ∷ 4 ∷ 5 ∷ 8 ∷ [], some 4)
unfolding insert search_pos binary_search insert_at
inserted = refl

removed : remove sample 5 ≡ some (2 ∷ 3 ∷ 8 ∷ [], true)
unfolding remove search_pos binary_search remove_pos_closing_breach
removed = refl

binary_search-rank_example :
    binary_search (suc (length sample)) sample 5 0 (length sample) ≡ some (rank 5 sample)
binary_search-rank_example = binary_search-rank sample 5 sample-IsSorted

array_refines_example :
    (insert sample 4 ≡ some (Ordered.insert 4 sample, reported (Ordered.search 4 sample) 4))
    × (search_or_insert sample 4
        ≡ some (Ordered.insert 4 sample, found_or (Ordered.search 4 sample) 4))
    × (search sample 4 ≡ some (Ordered.search 4 sample))
    × (remove sample 4 ≡ some (Ordered.remove 4 sample, not (is_none (Ordered.search 4 sample))))
    × IsSorted (Ordered.insert 4 sample)
    × IsSorted (Ordered.remove 4 sample)
array_refines_example = array_refines sample 4 sample-IsSorted
