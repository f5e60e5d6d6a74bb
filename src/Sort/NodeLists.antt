-- ===== src/Sort/NodeLists.antt =====
-- `partition`, `quicksort`, `merge` and `merge_sort` of include/sort.hpp on `NodeSLList`. The sorts
-- take fuel for their recursion; `none` means that it ran out.
pub mod Order
pub mod Merge
pub mod Quick
use de_si_gnar.Prelude.{ℕ, zero, suc, Bool, true, false, Option, none, some, ◌>>=◌, List, [], ◌∷◌}
use de_si_gnar.Compare.{Compare}
use de_si_gnar.SinglyLinked.{is_unitarian_or_empty, append, remove_first, concat, split}

module _ {ℓ} {T : Type ℓ} ⦃o : Compare T⦄ where
  -- The loop of `partition`.
  unfoldable pub partition_loop : T → List T → List T → List T → List T × List T
  partition_loop pivot [] ls gs = (ls, gs)
  partition_loop pivot (p ∷ l) ls gs = elim (o.cmp p pivot) [
    | true ↦ partition_loop pivot l (append ls p) gs
    | false ↦ partition_loop pivot l ls (append gs p)
  ]

  -- What comes before the first item, that item, and the others; the receiver is left empty. There
  -- is no pivot (`nullptr`) if the receiver was empty.
  unfoldable pub partition : List T → List T × Option T × List T
  partition l =
      let (pivot, rest) = remove_first l in
      elim pivot [
        | none ↦ ([], none, [])
        | some p ↦ let (ls, gs) = partition_loop p rest [] [] in (ls, some p, gs)
      ]

  -- The receiver is empty after `partition`, and the three parts are appended to it.
  abbrev pub sort_parts : (List T → Option (List T)) → List T × Option T × List T → Option (List T)
  sort_parts sort (ls, none, gs) = none
  sort_parts sort (ls, some pivot, gs) = do
    ls' ← sort ls
    gs' ← sort gs
    some (concat (append (concat [] ls') pivot) gs')

  unfoldable pub quicksort : ℕ → List T → Option (List T)
  quicksort zero l = none
  quicksort (suc fuel) l = elim (is_unitarian_or_empty l) [
    | true ↦ some l
    | false ↦ sort_parts (quicksort fuel) (partition l)
  ]

  -- The three loops of `merge`: while both chains have nodes, and then while either has.
  unfoldable pub merge_loop : List T → List T → List T → List T
  merge_loop [] [] result = result
  merge_loop [] (y ∷ r) result = merge_loop [] r (append result y)
  merge_loop (x ∷ l) [] result = merge_loop l [] (append result x)
  merge_loop (x ∷ l) (y ∷ r) result = elim (o.cmp y x) [
    | true ↦ merge_loop (x ∷ l) r (append result y)
    | false ↦ merge_loop l (y ∷ r) (append result x)
  ]

  unfoldable pub merge : List T → List T → List T
  unfolding merge_loop
  merge l r = merge_loop l r []

  unfoldable pub merge_sort : ℕ → List T → Option (List T)
  merge_sort zero l = none
  merge_sort (suc fuel) l = elim (is_unitarian_or_empty l) [
    | true ↦ some l
    | false ↦
        let (left, right) = split l [] [] in
        do left' ← merge_sort fuel left; right' ← merge_sort fuel right; some (merge left' right')
  ]
