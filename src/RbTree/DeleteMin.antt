-- ===== src/RbTree/DeleteMin.antt =====
-- `delete_min` of include/rbtree.hpp: with fuel for each key it gives a result, keeps the red-black
-- invariant, and takes the least key out.
use de_si_gnar.Prelude.{
  some_inj, ℕ, zero, suc, ◌≤◌, ◌≡◌, ◌∙◌, refl, sym, ap, subst, Option, some, List, [], ◌∷◌, ◌++◌,
  All, All-of_append, length, length-append, arith,
}
use de_si_gnar.Nodes.{null, node, inorder, key?}
use de_si_gnar.RbTree.{red, black, RbNode, balance, delete_min}
use de_si_gnar.RbTree.Shape.{IsRb}
use de_si_gnar.RbTree.Keys.{inorder-balance}
use de_si_gnar.RbTree.Prepare.{IsShrunk, IsReady, prepare_left}

module _ {ℓ} {K : Type ℓ} where
  pub All-key {κ} :
      (P : K → Type κ) (t : RbNode K) (x : K) → key? t ≡ some x → All P (inorder t) → P x
  All-key P null x e h = cc
  All-key P (node c l y r) x e h =
      subst P (some_inj e) (All-of_append P (inorder l) (y ∷ inorder r) h).1.0

  -- The keys of a root over two subtrees are more than those of either.
  pub shorter :
      (a : RbNode K) (y : K) (b : RbNode K) (xs : List K) (fuel : ℕ)
      → inorder a ++ y ∷ inorder b ≡ xs
      → length xs ≤ suc fuel
      → (length (inorder a) ≤ fuel) × (length (inorder b) ≤ fuel)
  shorter a y b xs fuel e h =
      let n = length-append (inorder a) (y ∷ inorder b) in
      let m = ap length e in (omega (arith, n, m, h), omega (arith, n, m, h))

  -- What a deletion of the least key promises.
  pub record IsDeleted (res : Option (RbNode K × K)) (t : RbNode K) (n : ℕ) : Type ℓ where
    pub rest : RbNode K
    pub least : K
    pub result : res ≡ some (rest, least)
    pub shrunk : IsShrunk t rest n
    pub content : inorder t ≡ least ∷ inorder rest

  pub single : (l : RbNode K) (x : K) (n : ℕ) → IsRb (node red null x l) n → inorder l ≡ []
  single null x n h = refl
  single (node red a y b) x n h = cc
  single (node black a y b) x zero h = cc
  single (node black a y b) x (suc n) h = cc

  pub delete_min_lem :
      (fuel : ℕ) (t : RbNode K) (n : ℕ)
      → length (inorder t) ≤ fuel
      → IsReady t n
      → IsDeleted (delete_min fuel t) t n
  unfolding delete_min
  delete_min_lem fuel null n h g = cc
  delete_min_lem zero (node c l x r) n h g =
      absurd (omega (arith, h, length-append (inorder l) (x ∷ inorder r)))
  delete_min_lem (suc fuel) (node black null x r) n h g = cc
  delete_min_lem (suc fuel) (node red null x r) n h g = record {
    rest = null;
    least = x;
    result = refl;
    shrunk = record { good = g.0.2; strict = λ e. cc };
    content = ap (λ xs. x ∷ xs) (single r x n g.0);
  }
  delete_min_lem (suc fuel) (node c (node d a y b) x r) n h g =
      let whole = node c (node d a y b) x r in
      let p = prepare_left c (node d a y b) x r n g refl in
      let size = shorter p.a p.y p.b (inorder whole) fuel p.same_keys h in
      let below = delete_min_lem fuel p.a p.height size.0 p.ready in
      record {
        rest = balance (node p.root_color below.rest p.y p.b);
        least = below.least;
        result = rw (p.prepared, below.result) refl;
        shrunk = p.resume below.rest below.shrunk;
        content =
            sym p.same_keys
            ∙ ap (λ xs. xs ++ p.y ∷ inorder p.b) below.content
            ∙ ap (λ xs. below.least ∷ xs)
                (sym (inorder-balance (node p.root_color below.rest p.y p.b)));
      }
