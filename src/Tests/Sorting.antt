-- ===== src/Tests/Sorting.antt =====
-- The sorts of include/sort.hpp at numbers.
use de_si_gnar.Prelude.{ℕ, ◌≡◌, refl, some, List, [], ◌∷◌, arith}
use mathlib.Core.List.{Perm}
use de_si_gnar.Compare.{nat_less}
use de_si_gnar.Ordered.{IsSortedDup}
use de_si_gnar.SinglyLinked.{is_unitarian_or_empty, split}
use de_si_gnar.Sort.NodeLists.{partition_loop, partition, quicksort, merge, merge_sort}
use de_si_gnar.Sort.NodeLists.Merge.{merge_sort-sorts}
use de_si_gnar.Sort.NodeLists.Quick.{quicksort-sorts}

abbrev sample : List ℕ
sample = 5 ∷ 2 ∷ 8 ∷ 2 ∷ 9 ∷ 1 ∷ []

merged : merge_sort 7 sample ≡ some (1 ∷ 2 ∷ 2 ∷ 5 ∷ 8 ∷ 9 ∷ [])
unfolding merge_sort is_unitarian_or_empty split merge
merged = refl

quick : quicksort 7 sample ≡ some (1 ∷ 2 ∷ 2 ∷ 5 ∷ 8 ∷ 9 ∷ [])
unfolding quicksort is_unitarian_or_empty partition partition_loop
quick = refl

merge_sort-sorts_example :
    (l : List ℕ) × (merge_sort 7 sample ≡ some l) × Perm l sample × IsSortedDup l
merge_sort-sorts_example = merge_sort-sorts 7 sample (omega arith)

quicksort-sorts_example :
    (l : List ℕ) × (quicksort 7 sample ≡ some l) × Perm l sample × IsSortedDup l
quicksort-sorts_example = quicksort-sorts 7 sample (omega arith)
