-- ===== src/Sort/Search.antt =====
-- `binary_search` of include/sort.hpp on an ascending array.
use de_si_gnar.Prelude.{
  some_inj, subst, ℕ, zero, suc, ◌+◌, ◌-◌, ◌/◌, ◌<◌, ◌≤◌, ◌≡◌, sym, ap, leb, leb→le, leb_false→lt,
  false, Bool-cases, inl, inr, Option, some, List, [], ◌∷◌, All, get_elem?, get_in_range, length,
  arith,
}
use de_si_gnar.Compare.{Compare, ◌≺◌, asymm, lt-le_trans}
use de_si_gnar.Ordered.{IsSorted, rank}
use de_si_gnar.Sort.{binary_search, halve}

module _ {ℓ} {K : Type ℓ} ⦃o : Compare K⦄ where
  pub All-get {κ} :
      (P : K → Type κ) (xs : List K) (i : ℕ) (x : K) → All P xs → get_elem? xs i ≡ some x → P x
  All-get P [] i x h e = cc
  All-get P (y ∷ xs) zero x h e = subst P (some_inj e) h.0
  All-get P (y ∷ xs) (suc i) x h e = All-get P xs i x h.1 e

  rank_bound : (k : K) (xs : List K) → rank k xs ≤ length xs
  unfolding rank
  rank_bound k [] = omega arith
  rank_bound k (x ∷ xs) = ground (arith, rank_bound k xs)

  -- What a key at an index tells of the rank.
  rank_after :
      (k : K) (xs : List K) (i : ℕ) (x : K)
      → IsSorted xs
      → get_elem? xs i ≡ some x
      → x ≺ k
      → i < rank k xs
  unfolding rank
  rank_after k [] i x s e h = cc
  rank_after k (y ∷ xs) zero x s e h =
      let first : y ≺ k = subst (λ z. z ≺ k) (sym (some_inj e)) h in ground (arith, first)
  rank_after k (y ∷ xs) (suc i) x s e h =
      let first : y ≺ k = o.trans y x k (All-get (λ z. y ≺ z) xs i x s.0 e) h in
      ground (arith, first, rank_after k xs i x s.1 e h)

  rank_upto :
      (k : K) (xs : List K) (i : ℕ) (x : K)
      → get_elem? xs i ≡ some x
      → o.cmp x k ≡ false
      → rank k xs ≤ i
  unfolding rank
  rank_upto k [] i x e h = cc
  rank_upto k (y ∷ xs) zero x e h =
      let stop : o.cmp y k ≡ false = subst (λ z. o.cmp z k ≡ false) (sym (some_inj e)) h in
      ground (arith, stop)
  rank_upto k (y ∷ xs) (suc i) x e h = ground (arith, rank_upto k xs i x e h)

  rank_at :
      (k : K) (xs : List K) (i : ℕ) (x : K)
      → IsSorted xs
      → get_elem? xs i ≡ some x
      → o.cmp k x ≡ false
      → i ≤ rank k xs
  unfolding rank
  rank_at k [] i x s e h = cc
  rank_at k (y ∷ xs) zero x s e h = omega arith
  rank_at k (y ∷ xs) (suc i) x s e h =
      let first : y ≺ k = lt-le_trans y x k (All-get (λ z. y ≺ z) xs i x s.0 e) h in
      ground (arith, first, rank_at k xs i x s.1 e h)

  -- One round at an index inside the interval.
  halve_lem :
      (k : K) (a : List K) (m : ℕ) (x : K) (lower upper : Option ℕ)
      → IsSorted a
      → get_elem? a m ≡ some x
      → (rank k a ≤ m → lower ≡ some (rank k a))
      → (m < rank k a → upper ≡ some (rank k a))
      → halve lower upper k m x ≡ some (rank k a)
  halve_lem k a m x lower upper s at low up = elim (Bool-cases (o.cmp k x)) [
    | inl less ↦ rw (less, halve) (low (rank_upto k a m x at (asymm k x less)))
    | inr not_less ↦ elim (Bool-cases (o.cmp x k)) [
      | inl more ↦ rw (not_less, more, halve) (up (rank_after k a m x s at more))
      | inr not_more ↦
          rw (not_less, not_more, halve)
            (ap some (omega (arith, rank_upto k a m x at not_more, rank_at k a m x s at not_less)))
    ]
  ]

  binary_search-within :
      (fuel : ℕ) (a : List K) (k : K) (l end : ℕ)
      → IsSorted a
      → l ≤ rank k a
      → rank k a ≤ end
      → end ≤ length a
      → end < fuel + l
      → binary_search fuel a k l end ≡ some (rank k a)
  unfolding binary_search
  binary_search-within zero a k l end s low high inside enough =
      absurd (omega (arith, low, high, enough))
  binary_search-within (suc fuel) a k l end s low high inside enough =
      elim (Bool-cases (leb end l)) [
        | inl stop ↦
            rw (stop, binary_search) (ap some (omega (arith, leb→le end l stop, low, high)))
        | inr go ↦
            let open_ : l < end = leb_false→lt end l go in
            let m = (l + end - 1) / 2 in
            let above : l ≤ m = omega (arith, open_) in
            let below : m < end = omega (arith, open_) in
            let (x, at) = get_in_range a m (omega (arith, below, inside)) in
            rw (go, binary_search, at)
              (halve_lem k a m x (binary_search fuel a k l m) (binary_search fuel a k (m + 1) end) s
                at
                (λ h.
                  binary_search-within fuel a k l m s low h (omega (arith, below, inside))
                    (omega (arith, below, enough)))
                (λ h.
                  binary_search-within fuel a k (m + 1) end s (omega (arith, h)) high inside
                    (omega (arith, above, enough))))
      ]

  -- On a whole ascending array, `binary_search` ends at the number of keys before the given one,
  -- which is the index of an equivalent key if there is one.
  pub binary_search-rank :
      (a : List K) (k : K)
      → IsSorted a
      → binary_search (suc (length a)) a k 0 (length a) ≡ some (rank k a)
  binary_search-rank a k s =
      binary_search-within (suc (length a)) a k 0 (length a) s (omega arith) (rank_bound k a)
        (omega arith) (omega arith)
