-- ===== src/Heaps/Leftist/Order.antt =====
-- The heap order of include/leftistheap.hpp.
use de_si_gnar.Prelude.{
  ◌≡◌, refl, Bool, true, false, Bool-cases, not, inl, inr, ◌++◌, All, All-append, All-imp,
}
use de_si_gnar.Prelude.Int.{ℤ}
use de_si_gnar.Compare.{Compare, ◌≼◌, asymm, le_trans}
use de_si_gnar.Permutation.{All-perm}
use de_si_gnar.Heaps.Leftist.{LeftistNode, nil, node, attach, stays, merge_flagged, merge}
use de_si_gnar.Heaps.Leftist.Merge.{keys, attach_cases, flagged-keys}
use mathlib.Core.Bool.{Bool-set}
use mathlib.Core.List.Perm

module _ {ℓ} {K : Type ℓ} ⦃o : Compare K⦄ where
  -- No key below a node comes before its key.
  abbrev pub IsHeap : LeftistNode K → Type 0
  IsHeap nil = Unit
  IsHeap (node n l x r) =
      All (λ y. x ≼ y) (keys l) × All (λ y. x ≼ y) (keys r) × IsHeap l × IsHeap r

  attach-IsHeap :
      (x : K) (l r : LeftistNode K)
      → All (λ y. x ≼ y) (keys l)
      → All (λ y. x ≼ y) (keys r)
      → IsHeap l
      → IsHeap r
      → IsHeap (attach x l r)
  attach-IsHeap x l r bl br hl hr = elim (attach_cases x l r) [
    | inl (e, _) ↦ rw e (br, bl, hr, hl)
    | inr (e, _) ↦ rw e (bl, br, hl, hr)
  ]

  stays_true : (flag : Bool) (x y : K) → stays flag x y ≡ true → x ≼ y
  stays_true false x y h = flag_off (o.cmp y x) h
    where
      flag_off : (b : Bool) → not b ≡ true → b ≡ false
      flag_off false h = refl
      flag_off true h = cc
  stays_true true x y h = asymm x y h

  stays_false : (flag : Bool) (x y : K) → stays flag x y ≡ false → y ≼ x
  stays_false false x y h = asymm y x (not_false (o.cmp y x) h)
    where
      not_false : (b : Bool) → not b ≡ false → b ≡ true
      not_false true h = refl
      not_false false h = cc
  stays_false true x y h = h

  below_root :
      (z : K) (n : ℤ) (l : LeftistNode K) (x : K) (r : LeftistNode K)
      → z ≼ x
      → IsHeap (node n l x r)
      → All (λ y. z ≼ y) (keys (node n l x r))
  below_root z n l x r h a = (
    h,
    All-imp (λ y g. le_trans z x y h g) (keys l ++ keys r)
        (All-append (λ y. x ≼ y) (keys l) (keys r) a.0 a.1),
  )

  below_merged :
      (z : K) (flag : Bool) (a b : LeftistNode K)
      → All (λ y. z ≼ y) (keys a)
      → All (λ y. z ≼ y) (keys b)
      → All (λ y. z ≼ y) (keys (merge_flagged flag a b))
  below_merged z flag a b ha hb =
      All-perm (λ y. z ≼ y) (λ y. Bool-set _ _) (Perm.symm (flagged-keys flag a b))
        (All-append (λ y. z ≼ y) (keys a) (keys b) ha hb)

  flagged-IsHeap :
      (flag : Bool) (a b : LeftistNode K) → IsHeap a → IsHeap b → IsHeap (merge_flagged flag a b)
  unfolding merge_flagged
  flagged-IsHeap flag nil b ha hb = hb
  flagged-IsHeap flag (node m c x d) nil ha hb = ha
  flagged-IsHeap flag (node m c x d) (node n e y f) ha hb = elim (Bool-cases (stays flag x y)) [
    | inl up ↦
        rw (up, merge_flagged)
          (attach-IsHeap x c (merge_flagged false d (node n e y f)) ha.0
            (below_merged x false d (node n e y f) ha.1
              (below_root x n e y f (stays_true flag x y up) hb))
            ha.2 (flagged-IsHeap false d (node n e y f) ha.3 hb))
    | inr down ↦
        rw (down, merge_flagged)
          (attach-IsHeap y e (merge_flagged true (node m c x d) f) hb.0
            (below_merged y true (node m c x d) f
              (below_root y m c x d (stays_false flag x y down) ha) hb.1)
            hb.2 (flagged-IsHeap true (node m c x d) f ha hb.3))
  ]

  -- `merge` of two heaps in heap order gives a heap in heap order.
  pub merge-IsHeap : (a b : LeftistNode K) → IsHeap a → IsHeap b → IsHeap (merge a b)
  unfolding merge
  merge-IsHeap a b = flagged-IsHeap false a b
