-- ===== src/ArraySet/Place.antt =====
-- Where a key belongs in an ascending array (include/set.hpp): at its rank.
use de_si_gnar.Prelude.{
  ℕ, suc, ◌≡◌, ◌∙◌, refl, sym, ap, Bool-cases, false, inl, inr, none, some, List, [], ◌∷◌, ◌++◌,
  get_elem?, length, remove_at,
}
use de_si_gnar.Compare.{Compare, ◌≺◌, asymm}
use de_si_gnar.Ordered
use de_si_gnar.Ordered.{rank}
use de_si_gnar.ArraySet.{insert_at, after_first}

module _ {ℓ} {K : Type ℓ} ⦃o : Compare K⦄ where
  -- The index `rank k a` is past the end, or that of a key after `k`, or that of a key equivalent to
  -- `k`.
  pub data Place (k : K) (a : List K) : Type ℓ where
    past :
        rank k a ≡ length a
        → Ordered.search k a ≡ none
        → Ordered.insert k a ≡ a ++ k ∷ []
        → Ordered.remove k a ≡ a
        → Place k a
    before :
        (x : K)
        → get_elem? a (rank k a) ≡ some x
        → k ≺ x
        → Ordered.search k a ≡ none
        → insert_at a (rank k a) k ≡ some (Ordered.insert k a)
        → Ordered.remove k a ≡ a
        → Place k a
    found :
        (x : K)
        → get_elem? a (rank k a) ≡ some x
        → o.cmp k x ≡ false
        → o.cmp x k ≡ false
        → Ordered.search k a ≡ some x
        → Ordered.insert k a ≡ a
        → remove_at a (rank k a) ≡ Ordered.remove k a
        → Place k a

  rank_stop : (k y : K) (a : List K) → o.cmp y k ≡ false → rank k (y ∷ a) ≡ 0
  unfolding rank
  rank_stop k y a h = rw (h, rank) refl

  insert_at-first : (k : K) (a : List K) (r : ℕ) → r ≡ 0 → insert_at a r k ≡ some (k ∷ a)
  unfolding insert_at
  insert_at-first k a r e = ap (λ n. insert_at a n k) e

  insert_at-next :
      (k y : K) (a : List K) (n : ℕ) → insert_at (y ∷ a) (suc n) k ≡ after_first y (insert_at a n k)
  unfolding insert_at
  insert_at-next k y a n = refl

  module _ (k y : K) (a : List K) (less : k ≺ y) where
    search_less : Ordered.search k (y ∷ a) ≡ none
    unfolding Ordered.search
    search_less = rw (less, Ordered.search) refl

    insert_less : Ordered.insert k (y ∷ a) ≡ k ∷ y ∷ a
    unfolding Ordered.insert
    insert_less = rw (less, Ordered.insert) refl

    remove_less : Ordered.remove k (y ∷ a) ≡ y ∷ a
    unfolding Ordered.remove
    remove_less = rw (less, Ordered.remove) refl

  module _ (k y : K) (a : List K) (not_less : o.cmp k y ≡ false)
      (not_more : o.cmp y k ≡ false) where
    search_same : Ordered.search k (y ∷ a) ≡ some y
    unfolding Ordered.search
    search_same = rw (not_less, not_more, Ordered.search) refl

    insert_same : Ordered.insert k (y ∷ a) ≡ y ∷ a
    unfolding Ordered.insert
    insert_same = rw (not_less, not_more, Ordered.insert) refl

    remove_same : Ordered.remove k (y ∷ a) ≡ a
    unfolding Ordered.remove
    remove_same = rw (not_less, not_more, Ordered.remove) refl

  module _ (k y : K) (a : List K) (not_less : o.cmp k y ≡ false) (more : y ≺ k) where
    rank_on : rank k (y ∷ a) ≡ suc (rank k a)
    unfolding rank
    rank_on = rw (more, rank) refl

    search_on : Ordered.search k (y ∷ a) ≡ Ordered.search k a
    unfolding Ordered.search
    search_on = rw (not_less, more, Ordered.search) refl

    insert_on : Ordered.insert k (y ∷ a) ≡ y ∷ Ordered.insert k a
    unfolding Ordered.insert
    insert_on = rw (not_less, more, Ordered.insert) refl

    remove_on : Ordered.remove k (y ∷ a) ≡ y ∷ Ordered.remove k a
    unfolding Ordered.remove
    remove_on = rw (not_less, more, Ordered.remove) refl

    -- The same place after one more key before `k`.
    deeper : Place k a → Place k (y ∷ a)
    deeper (Place.past r s i m) =
        Place.past (rank_on ∙ ap suc r) (search_on ∙ s) (insert_on ∙ ap (λ b. y ∷ b) i)
          (remove_on ∙ ap (λ b. y ∷ b) m)
    deeper (Place.before x g h s i m) =
        Place.before x (ap (get_elem? (y ∷ a)) rank_on ∙ g) h (search_on ∙ s)
          (ap (λ n. insert_at (y ∷ a) n k) rank_on
            ∙ insert_at-next k y a (rank k a)
            ∙ ap (after_first y) i
            ∙ ap some (sym insert_on))
          (remove_on ∙ ap (λ b. y ∷ b) m)
    deeper (Place.found x g h h' s i m) =
        Place.found x (ap (get_elem? (y ∷ a)) rank_on ∙ g) h h' (search_on ∙ s)
          (insert_on ∙ ap (λ b. y ∷ b) i)
          (ap (remove_at (y ∷ a)) rank_on ∙ ap (λ b. y ∷ b) m ∙ sym remove_on)

  -- Each key has its place.
  pub place : (k : K) (a : List K) → Place k a
  place k [] =
      Place.past (unfold rank in refl) (unfold Ordered.search in refl)
        (unfold Ordered.insert in refl) (unfold Ordered.remove in refl)
  place k (y ∷ a) = elim (Bool-cases (o.cmp k y)) [
    | inl less ↦
        let stop = rank_stop k y a (asymm k y less) in
        Place.before y (ap (get_elem? (y ∷ a)) stop) less (search_less k y a less)
          (insert_at-first k (y ∷ a) _ stop ∙ ap some (sym (insert_less k y a less)))
          (remove_less k y a less)
    | inr not_less ↦ elim (Bool-cases (o.cmp y k)) [
      | inl more ↦ deeper k y a not_less more (place k a)
      | inr not_more ↦
          let stop = rank_stop k y a not_more in
          Place.found y (ap (get_elem? (y ∷ a)) stop) not_less not_more
            (search_same k y a not_less not_more) (insert_same k y a not_less not_more)
            (ap (remove_at (y ∷ a)) stop ∙ sym (remove_same k y a not_less not_more))
    ]
  ]
