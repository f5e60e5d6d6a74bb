-- ===== src/DisjointSet/Grow.antt =====
-- `make_set` of `DisjointSet` (include/unionfind.hpp): a new set of its own.
use de_si_gnar.Prelude.{
  some_inj, in_range, ℕ, zero, suc, if◌then◌else◌, Option-cases, ◌+◌, ◌≡◌, ◌∙◌, refl, sym, ap,
  subst, Bool, none, some, ◌⊎◌, ◌↔◌, inl, inr, List, [], ◌∷◌, ◌++◌, All-imp, get_elem?, length,
  length-append, arith,
}
use de_si_gnar.DisjointSet.{DisjointSet, added, search, make_set, index_of_existing}
use de_si_gnar.DisjointSet.Forest.{IsRoot, IsRoot-root, IsForest, rank_of}
use de_si_gnar.DisjointSet.Laws.{IsValid, Together}

rank_of-append : (rs : List ℕ) (i : ℕ) → rank_of (rs ++ 0 ∷ []) i ≡ rank_of rs i
rank_of-append [] zero = refl
rank_of-append [] (suc i) = refl
rank_of-append (r ∷ rs) zero = refl
rank_of-append (r ∷ rs) (suc i) = rank_of-append rs i

module _ {ℓ} {A : Type ℓ} where
  kept_at :
      (xs : List A) (y : A) (i : ℕ) (x : A)
      → get_elem? xs i ≡ some x
      → get_elem? (xs ++ y ∷ []) i ≡ some x
  kept_at [] y i x h = cc
  kept_at (a ∷ xs) y zero x h = h
  kept_at (a ∷ xs) y (suc i) x h = kept_at xs y i x h

  new_at : (xs : List A) (y : A) → get_elem? (xs ++ y ∷ []) (length xs) ≡ some y
  new_at [] y = refl
  new_at (a ∷ xs) y = new_at xs y

  length_snoc : (xs : List A) (y : A) → length (xs ++ y ∷ []) ≡ length xs + 1
  length_snoc xs y = length-append xs (y ∷ [])

  -- Each index is an old one, or the new one.
  old_or_new :
      (xs : List A) (y : A) (i : ℕ) (x : A)
      → get_elem? (xs ++ y ∷ []) i ≡ some x
      → (get_elem? xs i ≡ some x) ⊎ ((i ≡ length xs) × (x ≡ y))
  old_or_new [] y zero x h = inr (refl, sym (some_inj h))
  old_or_new [] y (suc i) x h = cc
  old_or_new (a ∷ xs) y zero x h = inl h
  old_or_new (a ∷ xs) y (suc i) x h = elim (old_or_new xs y i x h) [
    | inl e ↦ inl e
    | inr e ↦ inr (ap suc e.0, e.1)
  ]

module _ (p : List ℕ) where
  IsRoot-grown : (x r : ℕ) → IsRoot p x r → IsRoot (p ++ length p ∷ []) x r
  IsRoot-grown x _ (IsRoot.here _ h) = IsRoot.here x (kept_at p (length p) x x h)
  IsRoot-grown x r (IsRoot.above _ u _ h n rest) =
      IsRoot.above x u r (kept_at p (length p) x u h) n (IsRoot-grown u r rest)

  IsRoot-of_grown :
      (rank : ℕ → ℕ) (x r : ℕ)
      → IsForest p rank
      → IsRoot (p ++ length p ∷ []) x r
      → IsRoot p x r ⊎ ((x ≡ length p) × (r ≡ length p))
  IsRoot-of_grown rank x _ f (IsRoot.here _ h) = elim (old_or_new p (length p) x x h) [
    | inl e ↦ inl (IsRoot.here x e)
    | inr e ↦ inr (e.0, e.0)
  ]
  IsRoot-of_grown rank x r f (IsRoot.above _ u _ h n rest) =
      let below = IsRoot-of_grown rank u r f rest in
      elim (old_or_new p (length p) x u h) [
        | inr e ↦ absurd (n (e.1 ∙ sym e.0))
        | inl e ↦
            let (order, w, range) = f x u e in
            let low = in_range p u w range in
            elim below [
              | inl g ↦ inl (IsRoot.above x u r e n g)
              | inr g ↦ absurd (omega (arith, g.0, low))
            ]
      ]

module _ {ℓ} {K : Type ℓ} where
  -- The partition with one set more, of the new index alone.
  abbrev pub Grown : DisjointSet K → ℕ → ℕ → Type 0
  Grown s x y = Together s x y ⊎ ((x ≡ length s.parent) × (y ≡ length s.parent))

  added-IsForest :
      (s : DisjointSet K) (k : K)
      → IsValid s
      → IsForest (added s k).parent (rank_of (added s k).rnk)
  unfolding added
  added-IsForest s k v i u h =
      let n = length s.parent in
      elim (old_or_new s.parent n i u h) [
        | inr e ↦
            (inl (e.1 ∙ sym e.0), n, ap (get_elem? (s.parent ++ n ∷ [])) e.1 ∙ new_at s.parent n)
        | inl e ↦
            let (order, w, range) = v.forest i u e in
            (
              rw (rank_of-append s.rnk i, rank_of-append s.rnk u) order,
              w,
              kept_at s.parent n u w range,
            )
      ]

  added-IsValid : (s : DisjointSet K) (k : K) → IsValid s → IsValid (added s k)
  unfolding added
  added-IsValid s k v = record {
    forest = unfold added in added-IsForest s k v;
    ranks =
        length_snoc s.rnk 0
        ∙ ap (λ m. m + 1) v.ranks
        ∙ sym (length_snoc s.parent (length s.parent));
    names =
        length_snoc s.key_of k
        ∙ ap (λ m. m + 1) v.names
        ∙ sym (length_snoc s.parent (length s.parent));
    indices = (
      subst (λ m. get_elem? (s.key_of ++ k ∷ []) m ≡ some k) v.names (new_at s.key_of k),
      All-imp (λ q g. kept_at s.key_of k q.1 q.0 g) s.index_of v.indices,
    );
  }

  added-Together :
      (s : DisjointSet K) (k : K) (x y : ℕ) → IsValid s → Together (added s k) x y ↔ Grown s x y
  unfolding added
  added-Together s k x y v = (forth, back)
    where
      forth : Together (added s k) x y → Grown s x y
      forth (r, gx, gy) = elim (IsRoot-of_grown s.parent (rank_of s.rnk) x r v.forest gx) [
        | inl hx ↦ elim (IsRoot-of_grown s.parent (rank_of s.rnk) y r v.forest gy) [
          | inl hy ↦ inl (r, hx, hy)
          | inr hy ↦ absurd (past r (IsRoot-root s.parent x r hx) hy.1)
        ]
        | inr hx ↦ elim (IsRoot-of_grown s.parent (rank_of s.rnk) y r v.forest gy) [
          | inl hy ↦ absurd (past r (IsRoot-root s.parent y r hy) hx.1)
          | inr hy ↦ inr (hx.0, hy.0)
        ]
      ]
        where
          past : (r : ℕ) → get_elem? s.parent r ≡ some r → ¬ (r ≡ length s.parent)
          past r h e = omega (arith, e, in_range s.parent r r h)

      back : Grown s x y → Together (added s k) x y
      back (inl (r, hx, hy)) = (r, IsRoot-grown s.parent x r hx, IsRoot-grown s.parent y r hy)
      back (inr (ex, ey)) =
          let n = length s.parent in
          let top = IsRoot.here n (new_at s.parent n) in (n, rw ex top, rw ey top)

module _ {ℓ} {K : Type ℓ} (equal : K → K → Bool) where
  unknown_added :
      (s : DisjointSet K) (k : K)
      → search equal s.index_of k ≡ none
      → make_set equal s k ≡ added s k
  unfolding make_set added
  unknown_added s k h = rw (make_set, h) refl

  known_same :
      (s : DisjointSet K) (k : K) (i : ℕ)
      → search equal s.index_of k ≡ some i
      → make_set equal s k ≡ s
  unfolding make_set
  known_same s k i h = rw (make_set, h) refl

  -- What `make_set` does with the key `k`: nothing where it is known, and otherwise a new index for
  -- it, in a set of its own.
  abbrev pub IsMade : DisjointSet K → K → DisjointSet K → Type ℓ
  IsMade s k t =
      ((i : ℕ) × (index_of_existing equal s k ≡ some i) × (t ≡ s))
      ⊎ ((index_of_existing equal s k ≡ none)
          × ((x : K)
              → index_of_existing equal t x
                ≡ (if equal k x then some (length s.parent) else index_of_existing equal s x))
          × (get_elem? t.key_of (length s.parent) ≡ some k)
          × ((x y : ℕ) → Together t x y ↔ Grown s x y))

  added-index_of :
      (s : DisjointSet K) (k x : K)
      → index_of_existing equal (added s k) x
        ≡ (if equal k x then some (length s.parent) else index_of_existing equal s x)
  unfolding index_of_existing search added
  added-index_of s k x = refl

  added-key_of :
      (s : DisjointSet K) (k : K)
      → IsValid s
      → get_elem? (added s k).key_of (length s.parent) ≡ some k
  unfolding added
  added-key_of s k v =
      subst (λ m. get_elem? (s.key_of ++ k ∷ []) m ≡ some k) v.names (new_at s.key_of k)

  -- At a valid state, `make_set` leaves a valid state, the same one where the key is known.
  -- Otherwise the new index is what a lookup of the key, or of one equal to it, gives from then on,
  -- and stands for this key; every other lookup gives what it gave before, and the partition has one
  -- set more, of the new index alone.
  pub make_set-IsMade :
      (s : DisjointSet K) (k : K)
      → IsValid s
      → IsValid (make_set equal s k) × IsMade s k (make_set equal s k)
  unfolding index_of_existing
  make_set-IsMade s k v = elim (Option-cases (search equal s.index_of k)) [
    | inl new ↦ rw (unknown_added s k new) (
      added-IsValid s k v,
      inr (new, added-index_of s k, added-key_of s k v, λ x y. added-Together s k x y v),
    )
    | inr (i, known) ↦ rw (known_same s k i known) (v, inl (i, known, refl))
  ]
