-- ===== src/Sort/NodeLists/Quick.antt =====
-- `partition` and `quicksort` of include/sort.hpp on chains of nodes.
use de_si_gnar.Prelude.{
  ℕ, zero, suc, ◌<◌, ◌≡◌, refl, sym, ap, ◌∙◌, some, List, [], ◌∷◌, ◌++◌, All, All-append, All-imp,
  Bool-cases, inl, inr, append-nil, append_assoc, length, length-append, arith,
}
use mathlib.Core.List.{Perm, perm_middle, perm_append_singleton}
use mathlib.Core.List.Perm
use mathlib.Core.Bool.{Bool-set}
use de_si_gnar.Permutation.{length-perm, All-perm, perm_of_append_nil}
use de_si_gnar.Compare.{Compare, asymm, ◌≺◌, ◌≼◌, lt-le_trans}
use de_si_gnar.Ordered.{IsSortedDup}
use de_si_gnar.SinglyLinked.{is_unitarian_or_empty, concat, append}
use de_si_gnar.Sort.NodeLists.{partition_loop, partition, quicksort}
use de_si_gnar.Sort.NodeLists.Order.{IsSortedDup-append}

module _ {ℓ} {T : Type ℓ} ⦃o : Compare T⦄ where
  concat_lem : (l m : List T) → concat l m ≡ l ++ m
  concat_lem [] [] = refl
  concat_lem [] (x ∷ m) = refl
  concat_lem (y ∷ l) [] = sym (append-nil (y ∷ l))
  concat_lem (y ∷ l) (x ∷ m) = refl

  parts_in_order : (x : T) (a b : List T) → concat (append (concat [] a) x) b ≡ a ++ x ∷ b
  parts_in_order x a b =
      concat_lem (append (concat [] a) x) b
      ∙ ap (λ m. append m x ++ b) (concat_lem [] a)
      ∙ append_assoc a (x ∷ []) b

  -- What the loop of `partition` gives: the items, split at the pivot.
  record IsSplit (pivot : T) (items : List T) (res : List T × List T) : Type ℓ where
    lower : All (λ x. x ≺ pivot) res.0
    upper : All (λ x. pivot ≼ x) res.1
    same_items : Perm (res.0 ++ res.1) items

  partition_loop_lem :
      (pivot : T) (l ls gs : List T)
      → All (λ x. x ≺ pivot) ls
      → All (λ x. pivot ≼ x) gs
      → IsSplit pivot (l ++ (ls ++ gs)) (partition_loop pivot l ls gs)
  unfolding partition_loop
  partition_loop_lem pivot [] ls gs lo up = record { lower = lo; upper = up; same_items = Perm.rfl }
  partition_loop_lem pivot (x ∷ l) ls gs lo up = elim (Bool-cases (o.cmp x pivot)) [
    | inl less ↦
        let h =
          partition_loop_lem pivot l (ls ++ x ∷ []) gs
            (All-append (λ y. y ≺ pivot) ls (x ∷ []) lo (less, tt)) up in
        rw (less, partition_loop)
          (record {
            lower = h.lower;
            upper = h.upper;
            same_items = Perm.trans h.same_items (
                Perm.trans
                  (Perm.append Perm.rfl (Perm.append (perm_append_singleton x ls) Perm.rfl))
                  (perm_middle l (ls ++ gs)));
          })
    | inr more ↦
        let h =
          partition_loop_lem pivot l ls (gs ++ x ∷ []) lo
            (All-append (λ y. pivot ≼ y) gs (x ∷ []) up (more, tt)) in
        rw (more, partition_loop)
          (record {
            lower = h.lower;
            upper = h.upper;
            same_items = Perm.trans h.same_items (
                Perm.trans
                  (Perm.append Perm.rfl (
                    Perm.trans (Perm.append Perm.rfl (perm_append_singleton x gs))
                      (perm_middle ls gs)))
                  (perm_middle l (ls ++ gs)));
          })
  ]

  IsSortedDup-parts :
      (pivot : T) (ls gs : List T)
      → IsSortedDup ls
      → IsSortedDup gs
      → All (λ x. x ≺ pivot) ls
      → All (λ x. pivot ≼ x) gs
      → IsSortedDup (ls ++ pivot ∷ gs)
  IsSortedDup-parts pivot ls gs sl sg lo up =
      IsSortedDup-append ls (pivot ∷ gs) sl (up, sg)
        (All-imp
          (λ x h. (asymm x pivot h, All-imp (λ y k. asymm x y (lt-le_trans x pivot y h k)) gs up))
          ls lo)

  -- With fuel past the number of items, `quicksort` ends with the items of the chain, ascending.
  pub quicksort-sorts :
      (fuel : ℕ) (l : List T)
      → length l < fuel
      → (l' : List T) × (quicksort fuel l ≡ some l') × Perm l' l × IsSortedDup l'
  unfolding quicksort partition is_unitarian_or_empty
  quicksort-sorts zero l h = absurd (omega arith)
  quicksort-sorts (suc fuel) [] h = ([], refl, Perm.rfl, tt)
  quicksort-sorts (suc fuel) (x ∷ []) h = (x ∷ [], refl, Perm.rfl, (tt, tt))
  quicksort-sorts (suc fuel) (x ∷ y ∷ l) h =
      let part = partition_loop x (y ∷ l) [] [] in
      let p = partition_loop_lem x (y ∷ l) [] [] tt tt in
      let items : Perm (part.0 ++ part.1) (y ∷ l) =
        perm_of_append_nil (part.0 ++ part.1) (y ∷ l) p.same_items in
      let size = length-perm items in
      let (a, ea, pa, sa) =
        quicksort-sorts fuel part.0 (omega (arith, length-append part.0 part.1, size)) in
      let (b, eb, pb, sb) =
        quicksort-sorts fuel part.1 (omega (arith, length-append part.0 part.1, size)) in
      (
        a ++ x ∷ b,
        rw (ea, eb) (ap some (parts_in_order x a b)),
        Perm.trans (perm_middle a b) (Perm.cons x (Perm.trans (Perm.append pa pb) items)),
        IsSortedDup-parts x a b sa sb
            (All-perm (λ z. z ≺ x) (λ z. Bool-set _ _) (Perm.symm pa) p.lower)
            (All-perm (λ z. x ≼ z) (λ z. Bool-set _ _) (Perm.symm pb) p.upper),
      )
