-- ===== src/RbTree/Container/Removal.antt =====
-- `remove` of the class `RbTree` (include/rbtree.hpp) on the list of keys.
use de_si_gnar.Prelude.{
  ℕ, zero, suc, ◌-◌, ◌≡◌, ◌∙◌, refl, sym, ap, Bool, true, false, ◌&&◌, Option, none, some, inl, inr,
  [], arith, not, Bool-cases,
}
use de_si_gnar.Compare.{Compare}
use de_si_gnar.Ordered
use de_si_gnar.Ordered.{IsSorted, IsSortedDup, reported, found_or, is_none}
use de_si_gnar.Ordered.Laws.{remove-IsSorted, remove_missing, length-remove, hits}
use de_si_gnar.Nodes.{null, node, inorder, left, right}
use de_si_gnar.RbTree as Rb
use de_si_gnar.RbTree.{RbColor, red, black, RbNode, is_red, with_color}
use de_si_gnar.RbTree.Shape.{IsRb, IsRb-IsLoose}
use de_si_gnar.RbTree.Keys.{search-inorder_lem}
use de_si_gnar.RbTree.Prepare.{IsReady}
use de_si_gnar.RbTree.Remove.{remove_lem}
use de_si_gnar.RbTree.Container.{RbTree, remove, reddened}
use de_si_gnar.RbTree.Container.Laws.{
  keys, inorder-with_color, IsBlack, blacken, IsValid, IsValid-of,
}

module _ {ℓ} {K : Type ℓ} where
  reddened_at :
      (l : RbNode K) (x : K) (r : RbNode K) (n : ℕ)
      → is_red r ≡ false
      → IsRb l n
      → IsRb r n
      → (m : ℕ) × IsReady (reddened (node black l x r)) m
  reddened_at l x r n hr gl gr = elim (Bool-cases (is_red l)) [
    | inl has ↦ rw (has) (suc n, ((hr, gl, gr), has))
    | inr hl ↦ rw (hl, hr) (n, ((hl, hr, gl, gr), refl))
  ]

  -- `remove` can start at a black root once it is reddened.
  reddened-IsReady :
      (c : RbColor) (l : RbNode K) (x : K) (r : RbNode K)
      → IsBlack (node c l x r)
      → (m : ℕ) × IsReady (reddened (node c l x r)) m
  reddened-IsReady red l x r (n, g, e) = cc
  reddened-IsReady black l x r (zero, g, e) = cc
  reddened-IsReady black l x r (suc n, g, e) = reddened_at l x r n g.0 g.1 g.2

  inorder-reddened : (t : RbNode K) → inorder (reddened t) ≡ inorder t
  inorder-reddened t = elim (Bool-cases (not (is_red (left t)) && not (is_red (right t)))) [
    | inl both ↦ rw both (inorder-with_color red t)
    | inr one ↦ rw one refl
  ]

module _ {ℓ} {K : Type ℓ} ⦃o : Compare K⦄ where
  -- A removal by `remove` of a key that is there.
  pub record IsTaken (t : RbTree K) (k : K) (res : Option (RbTree K × Bool)) (done : Bool)
      : Type ℓ where
    pub after : RbTree K
    pub result : res ≡ some (after, done)
    pub valid : IsValid after
    pub content : keys after ≡ Ordered.remove k (keys t)

  remove_hit :
      (r q : RbNode K) (n : ℕ) (k found gone : K)
      → Rb.search r k ≡ some found
      → Rb.remove n (reddened r) k ≡ some (q, gone)
      → remove (record { root = r; num_items = n }) k
        ≡ some (record { root = with_color black q; num_items = n - 1 }, true)
  unfolding remove
  remove_hit r q n k found gone h e = rw (remove, h, e) refl

  remove_miss :
      (r : RbNode K) (n : ℕ) (k : K)
      → Rb.search r k ≡ none
      → remove (record { root = r; num_items = n }) k
        ≡ some (record { root = r; num_items = n }, false)
  unfolding remove
  remove_miss r n k h = rw (remove, h) refl

  remove_from :
      (r : RbNode K) (n : ℕ) (k found : K)
      → IsValid (record { root = r; num_items = n })
      → Ordered.search k (inorder r) ≡ some found
      → IsTaken
          (record { root = r; num_items = n })
          k
          (remove (record { root = r; num_items = n }) k)
          true
  remove_from null n k found v here =
      let gone : Ordered.search k [] ≡ none = (unfold Ordered.search in refl) in cc
  remove_from (node c l x r) n k found v here =
      let t = node c l x r in
      let (m, ready) = reddened-IsReady c l x r v.colored in
      let same_keys = inorder-reddened t in
      let p =
        remove_lem n k (reddened t) m found (rw (same_keys, v.counts) (omega arith))
          (rw same_keys v.sorted) (rw same_keys here) (inl ready) in
      let content = inorder-with_color black p.rest ∙ p.content ∙ ap (Ordered.remove k) same_keys in
      record {
        after = record { root = with_color black p.rest; num_items = n - 1 };
        result =
            remove_hit t p.rest n k found p.gone (search-inorder_lem t k v.sorted ∙ here) p.result;
        valid =
            IsValid-of (record { root = with_color black p.rest; num_items = n - 1 })
              (blacken p.rest m (IsRb-IsLoose p.rest m p.shrunk.good)) content
              (remove-IsSorted k (inorder t) v.sorted)
              (omega (arith, v.counts, length-remove k (inorder t), ap hits here));
        content = content;
      }

  removed :
      (r : RbNode K) (n : ℕ) (k : K) (f : Option K)
      → IsValid (record { root = r; num_items = n })
      → Ordered.search k (inorder r) ≡ f
      → IsTaken
          (record { root = r; num_items = n })
          k
          (remove (record { root = r; num_items = n }) k)
          (not (is_none f))
  removed r n k none v here = record {
    after = record { root = r; num_items = n };
    result = remove_miss r n k (search-inorder_lem r k v.sorted ∙ here);
    valid = v;
    content = sym (remove_missing k (inorder r) here);
  }
  removed r n k (some found) v here = remove_from r n k found v here

  -- At a valid tree, `remove` ends and changes no color of the sentinel; it leaves a valid tree with
  -- the keys of the ordered list after the removal, and tells whether the key was there.
  pub remove-IsTaken :
      (t : RbTree K) (k : K)
      → IsValid t
      → IsTaken t k (remove t k) (not (is_none (Ordered.search k (keys t))))
  remove-IsTaken t k v = removed t.root t.num_items k (Ordered.search k (keys t)) v refl
