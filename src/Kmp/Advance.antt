-- ===== src/Kmp/Advance.antt =====
-- `advance` of kmp_failure_function and kmp_search (include/stringalgorithms.hpp): from the longest
-- suffix at one symbol to the longest at the next.
use de_si_gnar.Prelude.{
  ℕ, zero, suc, ◌+◌, ◌-◌, ◌<◌, ◌≤◌, ◌≡◌, ◌∙◌, refl, sym, ap, subst, ◌==◌, ==_iff, ==_ne, ltb,
  ltb→lt, ltb_false→le, true, false, Bool-cases, ◌⊎◌, inl, inr, some, some_inj, ◌>>=◌, List, length,
  get_elem?, get_in_range, arith,
}
use de_si_gnar.Kmp.{advance}
use de_si_gnar.Kmp.Border.{
  IsSuffix, IsLongest, IsFailure, nothing-IsSuffix, IsSuffix-shorter, IsSuffix-longer,
  IsSuffix-nested, IsSuffix-trans,
}

-- A suffix that ends at the next symbol is empty, or one symbol longer than one that ends here.
peel :
    {pattern text : List ℕ} {i : ℕ} (k : ℕ)
    → IsSuffix pattern k text (i + 1)
    → (k ≡ 0)
      ⊎ ((j : ℕ) × (k ≡ j + 1)
          × IsSuffix pattern j text i
          × (get_elem? pattern j ≡ get_elem? text i))
peel zero s = inl refl
peel {pattern} {text} {i} (suc j) s =
    let whole : suc j ≡ j + 1 = omega arith in
    let (shorter, matched) =
      IsSuffix-shorter (subst (λ n. IsSuffix pattern n text (i + 1)) whole s) in
    inr (j, whole, shorter, matched)

stops :
    (fuel : ℕ) (fail pattern : List ℕ) (c k p : ℕ)
    → get_elem? pattern k ≡ some p
    → (c == p) ≡ true
    → advance (suc fuel) fail pattern c k ≡ some (k + 1)
unfolding advance
stops fuel fail pattern c k p e same = elim (Bool-cases (ltb 0 k)) [
  | inl positive ↦ rw (e, ◌>>=◌, positive, same, same) refl
  | inr start ↦ rw (e, ◌>>=◌, start, same) refl
]

gives_up :
    (fuel : ℕ) (fail pattern : List ℕ) (c k p : ℕ)
    → get_elem? pattern k ≡ some p
    → (c == p) ≡ false
    → ltb 0 k ≡ false
    → advance (suc fuel) fail pattern c k ≡ some k
unfolding advance
gives_up fuel fail pattern c k p e other start = rw (e, ◌>>=◌, start, other) refl

falls :
    (fuel : ℕ) (fail pattern : List ℕ) (c k p f : ℕ)
    → get_elem? pattern k ≡ some p
    → (c == p) ≡ false
    → ltb 0 k ≡ true
    → get_elem? fail (k - 1) ≡ some f
    → advance (suc fuel) fail pattern c k ≡ advance fuel fail pattern c f
unfolding advance
falls fuel fail pattern c k p f e other positive at = rw (e, ◌>>=◌, positive, other, at) refl

module _ (pattern fail text : List ℕ) (i bound c n : ℕ) (here : get_elem? text i ≡ some c)
    (fits : bound ≤ length pattern) (failure : IsFailure pattern fail n)
    (known : bound ≤ n + 1) where
  -- The longest suffix that `c` makes longer is not longer than `k`.
  record IsBound (k : ℕ) : Type 0 where
    below : k < bound
    suffix : IsSuffix pattern k text i
    best :
        (k' : ℕ) → k' < bound → IsSuffix pattern k' text i → get_elem? pattern k' ≡ some c → k' ≤ k

  longer :
      (k : ℕ)
      → IsBound k
      → get_elem? pattern k ≡ some c
      → IsLongest pattern text (i + 1) (bound + 1) (k + 1)
  longer k b e = record {
    below = omega (arith, b.below);
    suffix = IsSuffix-longer b.suffix (e ∙ sym here);
    longest = λ k' h s. elim (peel k' s) [
      | inl nothing ↦ omega (arith, nothing)
      | inr (j, next, shorter, matched) ↦
          omega (arith, next, b.best j (omega (arith, h, next)) shorter (matched ∙ here))
    ];
  }

  none_matches :
      (k p : ℕ)
      → IsBound k
      → get_elem? pattern k ≡ some p
      → (c == p) ≡ false
      → k ≡ 0
      → IsLongest pattern text (i + 1) (bound + 1) k
  none_matches k p b e other start = record {
    below = omega (arith, b.below);
    suffix =
        subst (λ m. IsSuffix pattern m text (i + 1)) (sym start)
          (nothing-IsSuffix pattern text (i + 1));
    longest = λ k' h s. elim (peel k' s) [
      | inl nothing ↦ omega (arith, nothing)
      | inr (j, next, shorter, matched) ↦
          let small = b.best j (omega (arith, h, next)) shorter (matched ∙ here) in
          let at_k : j ≡ k = omega (arith, small, start) in
          let read = some_inj (sym (ap (get_elem? pattern) at_k ∙ e) ∙ (matched ∙ here)) in
          absurd (==_ne c p other (sym read))
    ];
  }

  failure_at :
      (k : ℕ)
      → 0 < k
      → k < bound
      → (f : ℕ) × (get_elem? fail (k - 1) ≡ some f) × IsLongest pattern pattern k k f
  failure_at k positive h =
      let (f, at, longest) = failure.at (k - 1) (omega (arith, positive, h, known)) in
      let back : k - 1 + 1 ≡ k = omega (arith, positive) in
      (f, at, subst (λ m. IsLongest pattern pattern m m f) back longest)

  fallen :
      (k p f : ℕ)
      → IsBound k
      → get_elem? pattern k ≡ some p
      → (c == p) ≡ false
      → IsLongest pattern pattern k k f
      → IsBound f
  fallen k p f b e other l = record {
    below = omega (arith, l.below, b.below);
    suffix = IsSuffix-trans b.suffix l.suffix;
    best = λ k' h s matched. elim (Bool-cases (k' == k)) [
      | inl at_k ↦
          let read =
            some_inj (sym e ∙ sym (ap (get_elem? pattern) ((==_iff k' k).0 at_k)) ∙ matched) in
          absurd (==_ne c p other (sym read))
      | inr elsewhere ↦
          let small = b.best k' h s matched in
          let less : k' < k = omega (arith, small, ==_ne k' k elsewhere) in
          l.longest k' less (IsSuffix-nested b.suffix s small)
    ];
  }

  advance_from :
      (fuel k : ℕ)
      → k < fuel
      → IsBound k
      → (k' : ℕ) × (advance fuel fail pattern c k ≡ some k')
        × IsLongest pattern text (i + 1) (bound + 1) k'
  advance_from zero k enough b = absurd (omega (arith, enough))
  advance_from (suc fuel) k enough b =
      let (p, e) = get_in_range pattern k (omega (arith, b.below, fits)) in
      elim (Bool-cases (c == p)) [
        | inl same ↦
            let matched : get_elem? pattern k ≡ some c = e ∙ ap some (sym ((==_iff c p).0 same)) in
            (k + 1, stops fuel fail pattern c k p e same, longer k b matched)
        | inr other ↦ elim (Bool-cases (ltb 0 k)) [
          | inl positive ↦
              let (f, at, l) = failure_at k (ltb→lt _ _ positive) b.below in
              let (k', found, longest) =
                advance_from fuel f (omega (arith, enough, l.below)) (fallen k p f b e other l) in
              (k', falls fuel fail pattern c k p f e other positive at ∙ found, longest)
          | inr start ↦ (
            k,
            gives_up fuel fail pattern c k p e other start,
            none_matches k p b e other (omega (arith, ltb_false→le _ _ start)),
          )
        ]
      ]

  pub advance-IsLongest :
      (k : ℕ)
      → IsLongest pattern text i bound k
      → (k' : ℕ) × (advance (suc k) fail pattern c k ≡ some k')
        × IsLongest pattern text (i + 1) (bound + 1) k'
  advance-IsLongest k l =
      advance_from (suc k) k (omega arith)
        (record { below = l.below; suffix = l.suffix; best = λ k' h s e. l.longest k' h s })
