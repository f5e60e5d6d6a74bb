-- ===== src/DisjointSet/Link.antt =====
-- `parent[rb] = ra` in `union_sets` of include/unionfind.hpp: what it makes of the roots and the
-- ranks.
use de_si_gnar.Prelude.{
  some_inj, ℕ, zero, suc, ◌<◌, ◌≤◌, ◌==◌, ==_iff, ◌≡◌, ◌∙◌, refl, sym, ap, some, ◌⊎◌, inl, inr,
  List, [], ◌∷◌, get_elem?, arith, if◌then◌else◌,
}
use de_si_gnar.Prelude.Updates.{set, get_elem?-set, get_elem?-set_other}
use de_si_gnar.DisjointSet.Forest.{IsRoot, IsForest, rank_of}
use de_si_gnar.DisjointSet.Halving.{eq_or_not, differ}

module _ (p : List ℕ) (ra rb : ℕ) (at_a : get_elem? p ra ≡ some ra)
    (at_b : get_elem? p rb ≡ some rb) (n : ¬ (ra ≡ rb)) where
  linked_b : get_elem? (set p rb ra) rb ≡ some ra
  linked_b = get_elem?-set p rb rb ra at_b

  linked_other : (j : ℕ) → ¬ (j ≡ rb) → get_elem? (set p rb ra) j ≡ get_elem? p j
  linked_other j m = get_elem?-set_other p rb j ra m

  -- Each root but `rb` stays, and `ra` takes its place.
  pub IsRoot-linked : (j r : ℕ) → IsRoot p j r → IsRoot (set p rb ra) j (if r == rb then ra else r)
  IsRoot-linked j _ (IsRoot.here _ h) = elim (eq_or_not j rb) [
    | inl e ↦ rw ((==_iff j rb).1 e) (
        IsRoot.above j ra ra (ap (get_elem? (set p rb ra)) e ∙ linked_b) (λ q. n (q ∙ e))
          (IsRoot.here ra (linked_other ra n ∙ at_a)))
    | inr m ↦ rw (differ j rb m) (IsRoot.here j (linked_other j m ∙ h))
  ]
  IsRoot-linked j r (IsRoot.above _ v _ h m rest) =
      let below = IsRoot-linked v r rest in
      elim (eq_or_not j rb) [
        | inl e ↦ absurd (m (some_inj (sym h ∙ ap (get_elem? p) e ∙ at_b) ∙ sym e))
        | inr o ↦ IsRoot.above j v (if r == rb then ra else r) (linked_other j o ∙ h) m below
      ]

  -- With `ra` of no lower rank, and ranks that only `ra` raises, above that of `rb`, ranks still grow
  -- on the way up.
  pub IsForest-linked :
      (rank rank' : ℕ → ℕ)
      → IsForest p rank
      → ((j : ℕ) → rank j ≤ rank' j)
      → ((j : ℕ) → ¬ (j ≡ ra) → rank' j ≡ rank j)
      → rank rb < rank' ra
      → IsForest (set p rb ra) rank'
  IsForest-linked rank rank' f up same more j v h = elim (eq_or_not j rb) [
    | inl e ↦
        let to_a : v ≡ ra = some_inj (sym h ∙ ap (get_elem? (set p rb ra)) e ∙ linked_b) in
        let rank_b : rank' rb ≡ rank rb = same rb (λ q. n (sym q)) in
        (
          inr (rw (to_a, e) (omega (arith, rank_b, more))),
          ra,
          ap (get_elem? (set p rb ra)) to_a ∙ linked_other ra n ∙ at_a,
        )
    | inr m ↦
        let old = sym (linked_other j m) ∙ h in
        let (order, x, range) = f j v old in
        let (y, range') = still v x range in (order' j v old order, y, range')
  ]
    where
      still : (v x : ℕ) → get_elem? p v ≡ some x → (y : ℕ) × (get_elem? (set p rb ra) v ≡ some y)
      still v x range = elim (eq_or_not v rb) [
        | inl e ↦ (ra, ap (get_elem? (set p rb ra)) e ∙ linked_b)
        | inr o ↦ (x, linked_other v o ∙ range)
      ]

      order' :
          (j v : ℕ)
          → get_elem? p j ≡ some v
          → (v ≡ j) ⊎ (rank j < rank v)
          → (v ≡ j) ⊎ (rank' j < rank' v)
      order' j v old (inl e) = inl e
      order' j v old (inr low) = elim (eq_or_not j ra) [
        | inl e ↦ inl (some_inj (sym old ∙ ap (get_elem? p) e ∙ at_a) ∙ sym e)
        | inr o ↦ inr (omega (arith, same j o, low, up v))
      ]

-- `++rnk[ra]`.
pub rank_of-set : (rs : List ℕ) (i r y : ℕ) → get_elem? rs i ≡ some r → rank_of (set rs i y) i ≡ y
unfolding set
rank_of-set [] i r y h = cc
rank_of-set (x ∷ rs) zero r y h = refl
rank_of-set (x ∷ rs) (suc i) r y h = rank_of-set rs i r y h

pub rank_of-set_other :
    (rs : List ℕ) (i j y : ℕ) → ¬ (j ≡ i) → rank_of (set rs i y) j ≡ rank_of rs j
unfolding set
rank_of-set_other [] i j y h = refl
rank_of-set_other (x ∷ rs) zero zero y h = absurd (h refl)
rank_of-set_other (x ∷ rs) zero (suc j) y h = refl
rank_of-set_other (x ∷ rs) (suc i) zero y h = refl
rank_of-set_other (x ∷ rs) (suc i) (suc j) y h = rank_of-set_other rs i j y (λ e. h (ap suc e))
