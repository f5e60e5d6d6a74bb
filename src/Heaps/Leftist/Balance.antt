-- ===== src/Heaps/Leftist/Balance.antt =====
-- The leftist invariant of include/leftistheap.hpp, and the length of the right spine.
use de_si_gnar.Prelude.{
  ℕ, zero, suc, ◌+◌, ◌^◌, ◌≤◌, ◌≡◌, ◌∙◌, refl, sym, ap, Bool, true, false, Bool-cases, inl, inr,
  length, length-append, arith, ltb, ltb→lt, ltb_false→le,
}
use de_si_gnar.Prelude.Int.{pos, ◌+ℤ◌, ltb_ℤ, int_pred}
use de_si_gnar.Compare.{Compare}
use de_si_gnar.Heaps.Leftist.{LeftistNode, nil, node, npl_of, attach, stays, merge_flagged, merge}
use de_si_gnar.Heaps.Leftist.Merge.{keys, attach_cases}
use native.Mathlib.Nat.{pow-suc, pow-le-pow_right}

ltb-int_pred : (a b : ℕ) → ltb_ℤ (int_pred a) (int_pred b) ≡ ltb a b
unfolding ltb_ℤ
ltb-int_pred zero zero = ground arith
ltb-int_pred zero (suc b) = ground arith
ltb-int_pred (suc a) zero = ground arith
ltb-int_pred (suc a) (suc b) = ground arith

int_pred-suc : (a : ℕ) → int_pred a +ℤ pos 1 ≡ int_pred (suc a)
unfolding ◌+ℤ◌
int_pred-suc zero = ground arith
int_pred-suc (suc a) = ground arith

module _ {ℓ} {K : Type ℓ} where
  -- The nodes on the path to the right.
  abbrev pub spine : LeftistNode K → ℕ
  spine nil = 0
  spine (node n l x r) = suc (spine r)

  -- A node's stored null path length is right, and its right spine is no longer than the left child's.
  abbrev pub IsLeftist : LeftistNode K → Type 0
  IsLeftist nil = Unit
  IsLeftist (node n l x r) =
      (n ≡ int_pred (suc (spine r))) × (spine r ≤ spine l) × IsLeftist l × IsLeftist r

  npl-spine : (t : LeftistNode K) → IsLeftist t → npl_of t ≡ int_pred (spine t)
  npl-spine nil h = refl
  npl-spine (node n l x r) h = h.0

  attach-IsLeftist :
      (x : K) (l r : LeftistNode K) → IsLeftist l → IsLeftist r → IsLeftist (attach x l r)
  attach-IsLeftist x l r hl hr =
      let el = npl-spine l hl in
      let er = npl-spine r hr in
      let test : ltb_ℤ (npl_of l) (npl_of r) ≡ ltb (spine l) (spine r) =
        rw (el, er) (ltb-int_pred (spine l) (spine r)) in
      elim (attach_cases x l r) [
        | inl (e, swap) ↦ rw e (
          ap (λ n. n +ℤ pos 1) el ∙ int_pred-suc (spine l),
          omega (arith, ltb→lt _ _ (sym test ∙ swap)),
          hr,
          hl,
        )
        | inr (e, keep) ↦ rw e (
          ap (λ n. n +ℤ pos 1) er ∙ int_pred-suc (spine r),
          ltb_false→le _ _ (sym test ∙ keep),
          hl,
          hr,
        )
      ]

  -- A heap with right and leftist null path lengths and `n` nodes on its right spine holds at
  -- least 2 ^ n - 1 keys.
  pub spine_logarithmic : (t : LeftistNode K) → IsLeftist t → 2 ^ spine t ≤ length (keys t) + 1
  spine_logarithmic nil h = omega arith
  spine_logarithmic (node n l x r) h =
      let left = spine_logarithmic l h.2 in
      let right = spine_logarithmic r h.3 in
      rw pow-suc (
        omega (
          arith,
          left,
          right,
          pow-le-pow_right {n = 2} (omega arith) h.1,
          length-append (keys l) (keys r),
        ))

module _ {ℓ} {K : Type ℓ} ⦃o : Compare K⦄ where
  flagged-IsLeftist :
      (flag : Bool) (a b : LeftistNode K)
      → IsLeftist a
      → IsLeftist b
      → IsLeftist (merge_flagged flag a b)
  unfolding merge_flagged
  flagged-IsLeftist flag nil b ha hb = hb
  flagged-IsLeftist flag (node m c x d) nil ha hb = ha
  flagged-IsLeftist flag (node m c x d) (node n e y f) ha hb = elim (Bool-cases (stays flag x y)) [
    | inl up ↦
        rw (up, merge_flagged)
          (attach-IsLeftist x c (merge_flagged false d (node n e y f)) ha.2
            (flagged-IsLeftist false d (node n e y f) ha.3 hb))
    | inr down ↦
        rw (down, merge_flagged)
          (attach-IsLeftist y e (merge_flagged true (node m c x d) f) hb.2
            (flagged-IsLeftist true (node m c x d) f ha hb.3))
  ]

  -- `merge` of two heaps whose null path lengths are right and leftist gives such a heap.
  pub merge-IsLeftist : (a b : LeftistNode K) → IsLeftist a → IsLeftist b → IsLeftist (merge a b)
  unfolding merge
  merge-IsLeftist a b = flagged-IsLeftist false a b
