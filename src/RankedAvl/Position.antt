-- ===== src/RankedAvl/Position.antt =====
-- `remove_pos` and `split_pos` of `RankedAVLTree` (include/avltree.hpp), by the positions of the
-- keys in order.
use de_si_gnar.Prelude.{
  ℕ, suc, ◌-◌, ◌≤◌, ◌<◌, ◌≡◌, ◌∙◌, refl, zero, sym, ap, ap₂, arith, ◌∷◌, ◌++◌, length, Bool-cases,
  inl, inr, ltb, ◌==◌, ltb→lt, ltb_false→le, ==_iff, ==_ne, get_elem?, take, drop, remove_at,
  take-append_at, take-append_left, take-append_past, drop-append_at, drop-append_left,
  drop-append_past, remove_at-append_at, remove_at-append_left, remove_at-append_past,
  get_elem?-append_at, get_elem?-append_left, get_elem?-append_past,
}
use de_si_gnar.Nodes.{null, node, inorder}
use de_si_gnar.Nodes.Ranked.{count-length}
use de_si_gnar.Avl.Keys
use de_si_gnar.Avl.Operations.{remove_here-Shrinks}
use de_si_gnar.Avl.Balance.{Shrinks, Shrinks-left, Shrinks-right}
use de_si_gnar.RankedAvl.{RkInfo, RkNode, stored, count, remove_here, remove_pos, split_pos}
use de_si_gnar.RankedAvl.Erase.{erase, inorder-erase, balance-erase, remove_here-erase}
use de_si_gnar.RankedAvl.Count.{IsCounted}
use de_si_gnar.RankedAvl.Join.{IsRankedAvl, inorder-balance, inorder-join, join-IsJoined}

module _ {ℓ} {K : Type ℓ} where
  inorder-remove_here :
      (m : RkInfo) (l : RkNode K) (x : K) (r : RkNode K)
      → inorder (remove_here m l x r) ≡ inorder l ++ inorder r
  inorder-remove_here m l x r =
      sym (inorder-erase (remove_here m l x r))
      ∙ ap inorder (remove_here-erase m l x r)
      ∙ Keys.inorder-remove_here m.stored_height (erase l) x (erase r)
      ∙ ap₂ ◌++◌ (inorder-erase l) (inorder-erase r)

  -- `remove_pos` takes out the key at the position and hands it out, and keeps the others in order.
  pub remove_pos_lem :
      (t : RkNode K) (i : ℕ)
      → IsCounted t
      → (inorder (remove_pos t i).0 ≡ remove_at (inorder t) i)
        × ((remove_pos t i).1 ≡ get_elem? (inorder t) i)
  unfolding remove_pos
  remove_pos_lem null i c = (refl, refl)
  remove_pos_lem (node m l x r) i c =
      let xs = inorder l in
      let ys = inorder r in
      let size = count-length stored l c.1 in
      let j = i - count l - 1 in
      let j' : j ≡ i - length xs - 1 = omega (arith, size) in
      elim (Bool-cases (count l == i)) [
        | inl here ↦
            let e : length xs ≡ i = omega (arith, size, (==_iff _ _).0 here) in
            rw (here, remove_pos)
              (
                inorder-remove_here m l x r ∙ sym (remove_at-append_at xs x ys i e),
                sym (get_elem?-append_at xs x ys i e),
              )
        | inr away ↦ elim (Bool-cases (ltb i (count l))) [
          | inl low ↦
              let e : i < length xs = omega (arith, size, ltb→lt _ _ low) in
              let (content, gone) = remove_pos_lem l i c.1 in
              rw (away, low, remove_pos)
                (
                  inorder-balance _
                      ∙ ap (λ zs. zs ++ x ∷ ys) content
                      ∙ sym (remove_at-append_left xs (x ∷ ys) i e),
                  gone ∙ sym (get_elem?-append_left xs (x ∷ ys) i e),
                )
          | inr high ↦
              let e : length xs < i = omega (arith, size, ==_ne _ _ away, ltb_false→le _ _ high) in
              let (content, gone) = remove_pos_lem r j c.2 in
              rw (away, high, remove_pos)
                (
                  inorder-balance _
                      ∙ ap (λ zs. xs ++ x ∷ zs) (content ∙ ap (remove_at ys) j')
                      ∙ sym (remove_at-append_past xs x ys i e),
                  gone ∙ ap (get_elem? ys) j' ∙ sym (get_elem?-append_past xs x ys i e),
                )
        ]
      ]

  -- `remove_pos` keeps the tree balanced.
  pub remove_pos-Shrinks :
      (t : RkNode K) (i : ℕ) → IsRankedAvl t → Shrinks (erase t) (erase (remove_pos t i).0)
  unfolding remove_pos
  remove_pos-Shrinks null i a = record { avl = tt; no_more = omega arith; one_less = omega arith }
  remove_pos-Shrinks (node m l x r) i a =
      let h = m.stored_height in
      elim (Bool-cases (count l == i)) [
        | inl here ↦
            rw (here, remove_pos)
              (rw (remove_here-erase m l x r) (remove_here-Shrinks h (erase l) x (erase r) a))
        | inr away ↦ elim (Bool-cases (ltb i (count l))) [
          | inl low ↦
              rw (away, low, remove_pos)
                (rw (balance-erase (node m (remove_pos l i).0 x r))
                  (Shrinks-left h x (erase r) a (remove_pos-Shrinks l i a.3)))
          | inr high ↦
              let j = i - count l - 1 in
              rw (away, high, remove_pos)
                (rw (balance-erase (node m l x (remove_pos r j).0))
                  (Shrinks-right h (erase l) x x a (remove_pos-Shrinks r j a.4)))
        ]
      ]

  -- `split_pos` puts the first `i` keys in one balanced tree, and the others in another.
  pub split_pos_lem :
      (t : RkNode K) (i : ℕ)
      → IsCounted t
      → (inorder (split_pos t i).0 ≡ take i (inorder t))
        × (inorder (split_pos t i).1 ≡ drop i (inorder t))
  unfolding split_pos
  split_pos_lem null zero c = (refl, refl)
  split_pos_lem null (suc i) c = (refl, refl)
  split_pos_lem (node m l x r) i c =
      let xs = inorder l in
      let ys = inorder r in
      let size = count-length stored l c.1 in
      let j = i - count l - 1 in
      let j' : j ≡ i - length xs - 1 = omega (arith, size) in
      elim (Bool-cases (i == count l)) [
        | inl here ↦
            let e : i ≡ length xs = omega (arith, size, (==_iff _ _).0 here) in
            rw (here, split_pos)
              (
                sym (take-append_at xs (x ∷ ys) i e),
                inorder-join null x r ∙ sym (drop-append_at xs (x ∷ ys) i e),
              )
        | inr away ↦ elim (Bool-cases (ltb i (count l))) [
          | inl low ↦
              let e : i ≤ length xs = omega (arith, size, ltb→lt _ _ low) in
              let (front, back) = split_pos_lem l i c.1 in
              rw (away, low, split_pos)
                (
                  front ∙ sym (take-append_left xs (x ∷ ys) i e),
                  inorder-join _ x r
                      ∙ ap (λ zs. zs ++ x ∷ ys) back
                      ∙ sym (drop-append_left xs (x ∷ ys) i e),
                )
          | inr high ↦
              let e : length xs < i = omega (arith, size, ==_ne _ _ away, ltb_false→le _ _ high) in
              let (front, back) = split_pos_lem r j c.2 in
              rw (away, high, split_pos)
                (
                  inorder-join l x _
                      ∙ ap (λ zs. xs ++ x ∷ zs) (front ∙ ap (λ n. take n ys) j')
                      ∙ sym (take-append_past xs x ys i e),
                  back ∙ ap (λ n. drop n ys) j' ∙ sym (drop-append_past xs x ys i e),
                )
        ]
      ]

  pub split_pos-IsRankedAvl :
      (t : RkNode K) (i : ℕ)
      → IsRankedAvl t
      → IsRankedAvl (split_pos t i).0 × IsRankedAvl (split_pos t i).1
  unfolding split_pos
  split_pos-IsRankedAvl null i a = (tt, tt)
  split_pos-IsRankedAvl (node m l x r) i a =
      let j = i - count l - 1 in
      elim (Bool-cases (i == count l)) [
        | inl here ↦ rw (here, split_pos) (a.3, (join-IsJoined null x r tt a.4).avl)
        | inr away ↦ elim (Bool-cases (ltb i (count l))) [
          | inl low ↦
              let (front, back) = split_pos-IsRankedAvl l i a.3 in
              rw (away, low, split_pos) (front, (join-IsJoined (split_pos l i).1 x r back a.4).avl)
          | inr high ↦
              let (front, back) = split_pos-IsRankedAvl r j a.4 in
              rw (away, high, split_pos) ((join-IsJoined l x (split_pos r j).0 a.3 front).avl, back)
        ]
      ]
