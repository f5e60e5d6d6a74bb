-- ===== src/Sort/NodeLists/Merge.antt =====
-- `merge` and `merge_sort` of include/sort.hpp on chains of nodes.
use de_si_gnar.Prelude.{
  ℕ, zero, suc, ◌+◌, ◌<◌, ◌≤◌, ◌≡◌, refl, some, List, [], ◌∷◌, ◌++◌, Bool-cases, inl, inr,
  append-nil, append_assoc, length, length-append, arith,
}
use mathlib.Core.List.{Perm, perm_middle, perm_append_singleton}
use mathlib.Core.List.Perm
use de_si_gnar.Permutation.{perm_swap_append, perm_of_append_nil}
use de_si_gnar.Compare.{Compare, asymm}
use de_si_gnar.Ordered.{IsSortedDup}
use de_si_gnar.SinglyLinked.{split, is_unitarian_or_empty}
use de_si_gnar.Sort.NodeLists.{merge_loop, merge, merge_sort}
use de_si_gnar.Sort.NodeLists.Order.{
  Before, Before-head, Before-tail, Before-taken, IsSortedDup-append, above, few, many,
}

module _ {ℓ} {T : Type ℓ} ⦃o : Compare T⦄ where
  taken_perm : (out : List T) (x : T) (l : List T) → Perm ((out ++ x ∷ []) ++ l) (out ++ x ∷ l)
  taken_perm out x l = rw (append_assoc out (x ∷ []) l) Perm.rfl

  -- The merge moves each item once.
  pub merge_loop-perm : (l r out : List T) → Perm (merge_loop l r out) (out ++ (l ++ r))
  unfolding merge_loop
  merge_loop-perm [] [] out = rw (append-nil out) Perm.rfl
  merge_loop-perm [] (y ∷ r) out =
      Perm.trans (merge_loop-perm [] r (out ++ y ∷ [])) (taken_perm out y r)
  merge_loop-perm (x ∷ l) [] out =
      Perm.trans (merge_loop-perm l [] (out ++ x ∷ [])) (taken_perm out x (l ++ []))
  merge_loop-perm (x ∷ l) (y ∷ r) out = elim (Bool-cases (o.cmp y x)) [
    | inl less ↦
        rw (less, merge_loop)
          (Perm.trans (merge_loop-perm (x ∷ l) r (out ++ y ∷ [])) (
            Perm.trans (taken_perm out y (x ∷ l ++ r))
              (Perm.append Perm.rfl (Perm.symm (perm_middle (x ∷ l) r)))))
    | inr more ↦
        rw (more, merge_loop)
          (Perm.trans (merge_loop-perm l (y ∷ r) (out ++ x ∷ [])) (taken_perm out x (l ++ y ∷ r)))
  ]

  step :
      (out : List T) (x : T) (l : List T)
      → IsSortedDup out
      → Before out (x ∷ l)
      → IsSortedDup (out ++ x ∷ [])
  step out x l s b = IsSortedDup-append out (x ∷ []) s (tt, tt) (Before-head out x l b)

  pub merge_loop-IsSortedDup :
      (l r out : List T)
      → IsSortedDup l
      → IsSortedDup r
      → IsSortedDup out
      → Before out l
      → Before out r
      → IsSortedDup (merge_loop l r out)
  unfolding merge_loop
  merge_loop-IsSortedDup [] [] out sl sr so bl br = so
  merge_loop-IsSortedDup [] (y ∷ r) out sl sr so bl br =
      merge_loop-IsSortedDup [] r (out ++ y ∷ []) tt sr.1 (step out y r so br)
        (Before-taken out y [] bl tt) (Before-taken out y r (Before-tail out y r br) sr.0)
  merge_loop-IsSortedDup (x ∷ l) [] out sl sr so bl br =
      merge_loop-IsSortedDup l [] (out ++ x ∷ []) sl.1 tt (step out x l so bl)
        (Before-taken out x l (Before-tail out x l bl) sl.0) (Before-taken out x [] br tt)
  merge_loop-IsSortedDup (x ∷ l) (y ∷ r) out sl sr so bl br = elim (Bool-cases (o.cmp y x)) [
    | inl less ↦
        let le = asymm y x less in
        rw (less, merge_loop)
          (merge_loop-IsSortedDup (x ∷ l) r (out ++ y ∷ []) sl sr.1 (step out y r so br)
            (Before-taken out y (x ∷ l) bl (le, above y x l le sl.0))
            (Before-taken out y r (Before-tail out y r br) sr.0))
    | inr le ↦
        rw (le, merge_loop)
          (merge_loop-IsSortedDup l (y ∷ r) (out ++ x ∷ []) sl.1 sr (step out x l so bl)
            (Before-taken out x l (Before-tail out x l bl) sl.0)
            (Before-taken out x (y ∷ r) br (le, above x y r le sr.0)))
  ]

  -- The halves have the items of the chain, and each has as many as the other or one more.
  split-perm :
      (this l r : List T) → Perm ((split this l r).0 ++ (split this l r).1) (this ++ (l ++ r))
  unfolding split
  split-perm [] l r = Perm.rfl
  split-perm (x ∷ []) l r = Perm.trans (taken_perm l x r) (perm_middle l r)
  split-perm (x ∷ y ∷ this) l r =
      let moved : Perm ((l ++ x ∷ []) ++ (r ++ y ∷ [])) (x ∷ y ∷ (l ++ r)) =
        Perm.trans (Perm.append (perm_append_singleton x l) (perm_append_singleton y r))
          (Perm.cons x (perm_middle l r)) in
      Perm.trans (split-perm this (l ++ x ∷ []) (r ++ y ∷ []))
        (Perm.trans (Perm.append Perm.rfl moved) (perm_swap_append this (x ∷ y ∷ []) (l ++ r)))

  split-length :
      (this l r : List T)
      → (length (split this l r).0 + length (split this l r).0
          ≤ length this + 1 + length l + length l)
        × (length (split this l r).1 + length (split this l r).1
            ≤ length this + length r + length r)
  unfolding split
  split-length [] l r = omega arith
  split-length (x ∷ []) l r = omega (arith, length-append l (x ∷ []))
  split-length (x ∷ y ∷ this) l r = omega (
    arith,
    split-length this (l ++ x ∷ []) (r ++ y ∷ []),
    length-append l (x ∷ []),
    length-append r (y ∷ []),
  )

  -- With fuel past the number of items, `merge_sort` ends with the items of the chain, ascending.
  pub merge_sort-sorts :
      (fuel : ℕ) (l : List T)
      → length l < fuel
      → (l' : List T) × (merge_sort fuel l ≡ some l') × Perm l' l × IsSortedDup l'
  unfolding merge_sort merge
  merge_sort-sorts zero l h = absurd (omega arith)
  merge_sort-sorts (suc fuel) l h = elim (Bool-cases (is_unitarian_or_empty l)) [
    | inl done ↦ (l, rw (done, merge_sort) refl, Perm.rfl, few l done)
    | inr more ↦
        let halves = split-length l [] [] in
        let two = many l more in
        let (a, ea, pa, sa) = merge_sort-sorts fuel (split l [] []).0 (omega arith) in
        let (b, eb, pb, sb) = merge_sort-sorts fuel (split l [] []).1 (omega arith) in
        (
          merge_loop a b [],
          rw (more, merge_sort, ea, eb) refl,
          Perm.trans (merge_loop-perm a b [])
              (Perm.trans (Perm.append pa pb) (perm_of_append_nil _ l (split-perm l [] []))),
          merge_loop-IsSortedDup a b [] sa sb tt tt tt,
        )
  ]
