-- ===== src/RbTree/Remove.antt =====
-- `remove` of include/rbtree.hpp: with fuel for each key it gives a result, keeps the red-black
-- invariant, and takes the key out.
use de_si_gnar.Prelude.{
  some_inj, ℕ, zero, suc, ◌≤◌, ◌≡◌, ◌∙◌, refl, sym, ap, subst, true, false, not, Option, none, some,
  inl, inr, Bool-cases, [], ◌∷◌, ◌++◌, length, length-append, arith, if◌then◌else◌,
}
use de_si_gnar.Compare.{Compare, ◌≺◌, asymm, lt-le_trans}
use de_si_gnar.Ordered
use de_si_gnar.Ordered.{IsSorted}
use de_si_gnar.Ordered.Split.{IsSorted-split, search-left, search-right, remove-left}
use de_si_gnar.Nodes.{null, node, inorder, is_null}
use de_si_gnar.RbTree.{
  RbColor, red, black, RbNode, is_red, balance, delete_min, remove, remove_rotated, remove_below,
  rotate_right, prepared_right,
}
use de_si_gnar.RbTree.Shape.{false_and}
use de_si_gnar.RbTree.Keys.{inorder-balance}
use de_si_gnar.RbTree.Prepare.{IsReady, IsTurned, prepare_left}
use de_si_gnar.RbTree.PrepareRight.{IsPreparedRight, prepare_right, turn}
use de_si_gnar.RbTree.DeleteMin.{All-key, shorter}
use de_si_gnar.RbTree.RemoveBelow.{
  IsRemoved, IsRemovable, carried, Recursion, below_more, below_here, red_leaf,
}

module _ {ℓ} {K : Type ℓ} ⦃o : Compare K⦄ where
  -- The step down on the left.
  remove_left :
      (fuel : ℕ) (k : K)
      → Recursion fuel k
      → (c : RbColor) (l : RbNode K) (x : K) (r : RbNode K) (n : ℕ) (found : K)
      → length (inorder (node c l x r)) ≤ suc fuel
      → IsSorted (inorder (node c l x r))
      → Ordered.search k (inorder (node c l x r)) ≡ some found
      → o.cmp k x ≡ true
      → IsReady (node c l x r) n
      → IsRemoved (remove (suc fuel) (node c l x r) k) (node c l x r) n k (inorder (node c l x r))
  unfolding remove
  remove_left fuel k rec c null x r n found h s here less g =
      let gone : Ordered.search k (x ∷ inorder r) ≡ none =
        (unfold Ordered.search in rw (less, Ordered.search) refl) in
      cc
  remove_left fuel k rec c (node d a y b) x r n found h s here less g =
      let whole = node c (node d a y b) x r in
      let p = prepare_left c (node d a y b) x r n g refl in
      let size = shorter p.a p.y p.b (inorder whole) fuel p.same_keys h in
      let sorted : IsSorted (inorder p.a ++ p.y ∷ inorder p.b) = rw p.same_keys s in
      let (below_y, above_y, sa, sb) = IsSorted-split (inorder p.a) p.y (inorder p.b) sorted in
      let less_y : k ≺ p.y = elim p.at [
        | inl same ↦ rw same less
        | inr up ↦ o.trans k x p.y less (All-key (λ z. z ≺ p.y) p.a x up below_y)
      ] in
      let there =
        sym (search-left k p.y (inorder p.b) (inorder p.a) less_y)
        ∙ ap (Ordered.search k) p.same_keys in
      let below = rec p.a p.height found size.0 sa (there ∙ here) (inl p.ready) in
      record {
        rest = balance (node p.root_color below.rest p.y p.b);
        gone = below.gone;
        result = rw (less, remove, p.prepared, below.result) refl;
        shrunk = p.resume below.rest below.shrunk;
        content =
            inorder-balance (node p.root_color below.rest p.y p.b)
            ∙ ap (λ xs. xs ++ p.y ∷ inorder p.b) below.content
            ∙ sym (remove-left k p.y (inorder p.b) (inorder p.a) less_y)
            ∙ ap (Ordered.remove k) p.same_keys;
        found = sym there ∙ below.found;
      }

  rotated_below :
      (rec del : RbNode K → Option (RbNode K × K)) (k : K) (c : RbColor) (l : RbNode K) (x : K)
      (r h : RbNode K)
      → is_null r ≡ false
      → prepared_right (node c l x r) ≡ some h
      → remove_rotated rec del k (node c l x r) ≡ remove_below rec del k h
  rotated_below rec del k c l x r h e p =
      rw (false_and (not (o.cmp x k)) (is_null r) e, remove_rotated, p) refl

  -- The step down on the right, prepared.
  remove_prepared :
      (fuel : ℕ) (k : K)
      → Recursion fuel k
      → (c : RbColor) (l : RbNode K) (x : K) (r : RbNode K) (n : ℕ) (found : K)
      → length (inorder (node c l x r)) ≤ suc fuel
      → IsSorted (inorder (node c l x r))
      → Ordered.search k (inorder (node c l x r)) ≡ some found
      → o.cmp k x ≡ false
      → (p : IsPreparedRight (node c l x r) x n)
      → IsRemoved
          (remove_below (λ t. remove fuel t k) (delete_min fuel) k (node p.root_color p.a p.y p.b))
          (node c l x r)
          n
          k
          (inorder (node p.root_color p.a p.y p.b))
  remove_prepared fuel k rec c l x r n found h s here not_less p =
      let size = (shorter p.a p.y p.b (inorder (node c l x r)) fuel p.same_keys h).1 in
      let sorted : IsSorted (inorder p.a ++ p.y ∷ inorder p.b) = rw p.same_keys s in
      let above_y = (IsSorted-split (inorder p.a) p.y (inorder p.b) sorted).1 in
      elim (Bool-cases (o.cmp p.y k)) [
        | inl more ↦
            below_more fuel k rec p.root_color p.a p.y p.b sorted (node c l x r) n p.height found
              size more (ap (Ordered.search k) p.same_keys ∙ here)
              (elim p.at [
                | inl same ↦ inl same.1
                | inr up ↦ inr (
                  up.0,
                  up.1,
                  λ z e. subst (λ w. o.cmp k w ≡ false) (some_inj (sym up.2 ∙ e)) not_less,
                )
              ])
              (p.resume p.y)
        | inr not_more ↦ elim p.at [
          | inl same ↦
              below_here fuel k rec p.root_color p.a p.y p.b sorted (node c l x r) n p.height size
                (rw (same.0) not_less) not_more same.1 p.resume
          | inr up ↦
              let before : p.y ≺ k =
                lt-le_trans p.y x k (All-key (λ z. p.y ≺ z) p.b x up.2 above_y) not_less in
              cc
        ]
      ]

  -- The step down on the right, after the rotation.
  remove_right :
      (fuel : ℕ) (k : K)
      → Recursion fuel k
      → (c : RbColor) (l : RbNode K) (x : K) (r : RbNode K) (n : ℕ) (found : K)
      → length (inorder (node c l x r)) ≤ suc fuel
      → IsSorted (inorder (node c l x r))
      → Ordered.search k (inorder (node c l x r)) ≡ some found
      → o.cmp k x ≡ false
      → IsTurned (node c l x r) n
      → IsRemoved
          (remove_rotated (λ t. remove fuel t k) (delete_min fuel) k (node c l x r))
          (node c l x r)
          n
          k
          (inorder (node c l x r))
  remove_right fuel k rec c l x null n found h s here not_less g = elim (Bool-cases (o.cmp x k)) [
    | inl more ↦
        let below_x = (IsSorted-split (inorder l) x [] s).0 in
        let gone : Ordered.search k [] ≡ none = (unfold Ordered.search in refl) in
        let there = search-right k x [] (inorder l) below_x more in cc
    | inr not_more ↦ red_leaf fuel k c l x n not_less not_more g
  ]
  remove_right fuel k rec c l x (node d a y b) n found h s here not_less g =
      let whole = node c l x (node d a y b) in
      let p = prepare_right c l x (node d a y b) n g refl in
      carried _ _ whole whole n k _ _
        (rotated_below (λ t. remove fuel t k) (delete_min fuel) k c l x (node d a y b) _ refl
          p.prepared)
        refl p.same_keys
        (remove_prepared fuel k rec c l x (node d a y b) n found h s here not_less p)

  turned_stays :
      (c : RbColor) (l : RbNode K) (x : K) (r : RbNode K) (n : ℕ)
      → IsTurned (node c l x r) n
      → (if is_red l then rotate_right (node c l x r) else node c l x r) ≡ node c l x r
  turned_stays red l x r n g = rw (g.0) refl
  turned_stays black l x r zero g = cc
  turned_stays black l x r (suc n) g = rw (g.0) refl

  right_step :
      (fuel : ℕ) (k : K) (c : RbColor) (l : RbNode K) (x : K) (r h : RbNode K)
      → o.cmp k x ≡ false
      → (if is_red l then rotate_right (node c l x r) else node c l x r) ≡ h
      → remove (suc fuel) (node c l x r) k
        ≡ remove_rotated (λ t. remove fuel t k) (delete_min fuel) k h
  unfolding remove
  right_step fuel k c l x r h not_less e = rw (not_less, remove, e) refl

  -- With fuel for each key, `remove` takes a key that is there out of the tree.
  pub remove_lem :
      (fuel : ℕ) (k : K) (t : RbNode K) (n : ℕ) (found : K)
      → length (inorder t) ≤ fuel
      → IsSorted (inorder t)
      → Ordered.search k (inorder t) ≡ some found
      → IsRemovable t n k
      → IsRemoved (remove fuel t k) t n k (inorder t)
  remove_lem fuel k null n found h s here g =
      let gone : Ordered.search k [] ≡ none = (unfold Ordered.search in refl) in cc
  remove_lem zero k (node c l x r) n found h s here g =
      absurd (omega (arith, h, length-append (inorder l) (x ∷ inorder r)))
  remove_lem (suc fuel) k (node c l x r) n found h s here g =
      let rec : Recursion fuel k = remove_lem fuel k in
      elim (Bool-cases (o.cmp k x)) [
        | inl less ↦ elim g [
          | inl ready ↦ remove_left fuel k rec c l x r n found h s here less ready
          | inr turned ↦ let not_less = turned.2 x refl in cc
        ]
        | inr not_less ↦ elim g [
          | inl ready ↦
              let p = turn c l x r n ready in
              let sorted : IsSorted (inorder p.a ++ p.y ∷ inorder p.b) = rw p.same_keys s in
              let below_x = (IsSorted-split (inorder l) x (inorder r) s).0 in
              let not_less_y : o.cmp k p.y ≡ false = elim p.at [
                | inl same ↦ rw same not_less
                | inr up ↦
                    asymm p.y k
                      (lt-le_trans p.y x k (All-key (λ z. z ≺ x) l p.y up below_x) not_less)
              ] in
              carried _ _ (node c p.a p.y p.b) (node c l x r) n k _ _
                (right_step fuel k c l x r _ not_less p.rotated) refl p.same_keys
                (remove_right fuel k rec c p.a p.y p.b n found
                  (omega (arith, ap length p.same_keys, h)) sorted
                  (ap (Ordered.search k) p.same_keys ∙ here) not_less_y p.turned)
          | inr turned ↦
              carried _ _ (node c l x r) (node c l x r) n k _ _
                (right_step fuel k c l x r _ not_less (turned_stays c l x r n turned.0)) refl refl
                (remove_right fuel k rec c l x r n found h s here not_less turned.0)
        ]
      ]
