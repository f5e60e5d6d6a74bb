-- ===== src/Kmp/Border.antt =====
-- Borders, and `advance` of kmp_failure_function and kmp_search (include/stringalgorithms.hpp).
use de_si_gnar.Prelude.{
  ℕ, ◌+◌, ◌-◌, ◌<◌, ◌≤◌, ◌≡◌, ◌∙◌, sym, ap, ltb, ltb→lt, ltb_false→le, Bool-cases, inl, inr, some,
  List, get_elem?, arith,
}

-- The first `k` symbols of the pattern are the last `k` of the first `i` symbols of the text.
pub record IsSuffix (pattern : List ℕ) (k : ℕ) (text : List ℕ) (i : ℕ) : Type 0 where
  pub start : ℕ
  pub ends : start + k ≡ i
  pub agrees : (j : ℕ) → j < k → get_elem? pattern j ≡ get_elem? text (start + j)

pub nothing-IsSuffix : (pattern text : List ℕ) (i : ℕ) → IsSuffix pattern 0 text i
nothing-IsSuffix pattern text i = record {
  start = i;
  ends = omega arith;
  agrees = λ j h. absurd (omega (arith, h));
}

module _ {pattern text : List ℕ} {k i : ℕ} where
  -- One symbol less.
  pub IsSuffix-shorter :
      IsSuffix pattern (k + 1) text (i + 1)
      → IsSuffix pattern k text i × (get_elem? pattern k ≡ get_elem? text i)
  IsSuffix-shorter s =
      let there : s.start + k ≡ i = omega (arith, s.ends) in
      (
        record { start = s.start; ends = there; agrees = λ j h. s.agrees j (omega (arith, h)) },
        s.agrees k (omega arith) ∙ ap (get_elem? text) there,
      )

  -- One symbol more.
  pub IsSuffix-longer :
      IsSuffix pattern k text i
      → get_elem? pattern k ≡ get_elem? text i
      → IsSuffix pattern (k + 1) text (i + 1)
  IsSuffix-longer s e = record {
    start = s.start;
    ends = omega (arith, s.ends);
    agrees = λ j h. elim (Bool-cases (ltb j k)) [
      | inl before ↦ s.agrees j (ltb→lt _ _ before)
      | inr last ↦
          let here : k ≡ j = omega (arith, h, ltb_false→le _ _ last) in
          let there : i ≡ s.start + j = omega (arith, here, s.ends) in
          ap (get_elem? pattern) (sym here) ∙ e ∙ ap (get_elem? text) there
    ];
  }

  -- Of two suffixes the shorter is one of the longer.
  pub IsSuffix-nested :
      {k' : ℕ}
      → IsSuffix pattern k text i
      → IsSuffix pattern k' text i
      → k' ≤ k
      → IsSuffix pattern k' pattern k
  IsSuffix-nested {k'} s s' h = record {
    start = s'.start - s.start;
    ends = omega (arith, s.ends, s'.ends, h);
    agrees = λ j below.
        let there : s'.start + j ≡ s.start + (s'.start - s.start + j) =
          omega (arith, s.ends, s'.ends, h) in
        s'.agrees j below
        ∙ ap (get_elem? text) there
        ∙ sym (s.agrees (s'.start - s.start + j) (omega (arith, s.ends, s'.ends, h, below)));
  }

  pub IsSuffix-trans :
      {k' : ℕ}
      → IsSuffix pattern k text i
      → IsSuffix pattern k' pattern k
      → IsSuffix pattern k' text i
  IsSuffix-trans {k'} s b = record {
    start = s.start + b.start;
    ends = omega (arith, s.ends, b.ends);
    agrees = λ j below.
        let there : s.start + (b.start + j) ≡ s.start + b.start + j = omega arith in
        b.agrees j below
        ∙ s.agrees (b.start + j) (omega (arith, b.ends, below))
        ∙ ap (get_elem? text) there;
  }

-- `k` is the longest such suffix that is shorter than `bound`.
pub record IsLongest (pattern text : List ℕ) (i bound k : ℕ) : Type 0 where
  pub below : k < bound
  pub suffix : IsSuffix pattern k text i
  pub longest : (k' : ℕ) → k' < bound → IsSuffix pattern k' text i → k' ≤ k

-- The failure function is right at the positions before `n`.
pub record IsFailure (pattern fail : List ℕ) (n : ℕ) : Type 0 where
  pub at :
      (q : ℕ)
      → q < n
      → (f : ℕ) × (get_elem? fail q ≡ some f) × IsLongest pattern pattern (q + 1) (q + 1) f
