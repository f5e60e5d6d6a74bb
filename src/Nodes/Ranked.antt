-- ===== src/Nodes/Ranked.antt =====
-- `generic_select` and `generic_position` of include/nodesdef.hpp, at a tree with stored counts.
use de_si_gnar.Prelude.{
  ℕ, suc, ◌+◌, ◌-◌, ◌≡◌, ◌∙◌, refl, ap, sym, if◌then◌else◌, Option, none, some, ◌∷◌, arith,
  Bool-cases, inl, inr, length, length-append, get_elem?, get_elem?-append_left,
  get_elem?-append_at, get_elem?-append_past, ltb, ◌==◌, ==_iff, ==_ne, ltb→lt, ltb_false→le,
}
use de_si_gnar.Prelude.Int.{pos, negsuc, ◌+ℤ◌, eq_ℤ}
use de_si_gnar.Compare.{Compare}
use de_si_gnar.Ordered
use de_si_gnar.Ordered.{IsSorted, index_or_absent}
use de_si_gnar.Ordered.Split.{
  IsSorted-split, search-left, search-right, search-found, rank-left, rank-right, rank-found,
}
use de_si_gnar.Nodes.{BinTree, null, node, inorder, count, generic_select, generic_position}

module _ {ℓ κ} {M : Type κ} {K : Type ℓ} (stored : M → ℕ) where
  -- Every node stores the size of its subtree.
  abbrev pub IsCounted : BinTree M K → Type 0
  IsCounted null = Unit
  IsCounted (node m l x r) =
      (stored m ≡ count stored l + count stored r + 1) × IsCounted l × IsCounted r

  pub count-length : (t : BinTree M K) → IsCounted t → count stored t ≡ length (inorder t)
  count-length null h = refl
  count-length (node m l x r) h = omega (
    arith,
    h.0,
    count-length l h.1,
    count-length r h.2,
    length-append (inorder l) (x ∷ inorder r),
  )

  -- `generic_select` reads the list of keys at an index, within bounds or not.
  pub select-get_elem? :
      (t : BinTree M K) (i : ℕ) → IsCounted t → generic_select stored t i ≡ get_elem? (inorder t) i
  unfolding generic_select
  select-get_elem? null i h = refl
  select-get_elem? (node m l x r) i h =
      let size = count-length l h.1 in
      elim (Bool-cases (count stored l == i)) [
        | inl here ↦
            rw (here, generic_select)
              (sym (
                get_elem?-append_at (inorder l) x (inorder r) i
                  (omega (arith, size, (==_iff _ _).0 here))))
        | inr away ↦ elim (Bool-cases (ltb i (count stored l))) [
          | inl low ↦
              rw (away, low, generic_select)
                (select-get_elem? l i h.1
                  ∙ sym
                      (get_elem?-append_left (inorder l) _ i (omega (arith, size, ltb→lt _ _ low))))
          | inr high ↦
              rw (away, high, generic_select)
                (select-get_elem? r (i - count stored l - 1) h.2
                  ∙ ap (λ n. get_elem? (inorder r) (i - n - 1)) size
                  ∙ sym (
                      get_elem?-append_past (inorder l) x (inorder r) i
                        (omega (arith, size, ==_ne _ _ away, ltb_false→le _ _ high))))
        ]
      ]

  module _ ⦃o : Compare K⦄ where
    shift :
        (found : Option K) (a b : ℕ)
        → (if eq_ℤ (index_or_absent found b) (negsuc 0)
            then index_or_absent found b
            else index_or_absent found b +ℤ pos a +ℤ pos 1)
          ≡ index_or_absent found (a + suc b)
    unfolding eq_ℤ ◌+ℤ◌
    shift none a b = refl
    shift (some _) a b = ground arith

    pub position-rank :
        (t : BinTree M K) (k : K)
        → IsCounted t
        → IsSorted (inorder t)
        → generic_position stored t k
          ≡ index_or_absent (Ordered.search k (inorder t)) (Ordered.rank k (inorder t))
    unfolding generic_position Ordered.search Ordered.rank
    position-rank null k h s = refl
    position-rank (node m l x r) k h s =
        let (below, above, sl, sr) = IsSorted-split (inorder l) x (inorder r) s in
        ground (
          arith,
          count-length l h.1,
          position-rank l k h.1 sl,
          position-rank r k h.2 sr,
          shift (Ordered.search k (inorder r)) (length (inorder l)) (Ordered.rank k (inorder r)),
          search-left k x (inorder r) (inorder l),
          search-right k x (inorder r) (inorder l) below,
          search-found k x (inorder r) (inorder l) below,
          rank-left k x (inorder r) (inorder l) above,
          rank-right k x (inorder r) (inorder l) below,
          rank-found k x (inorder r) (inorder l) below,
        )
