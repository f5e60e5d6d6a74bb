-- ===== src/Kmp/Failure.antt =====
-- kmp_failure_function of include/stringalgorithms.hpp: the longest border of each beginning.
use de_si_gnar.Prelude.{
  ℕ, zero, suc, ◌+◌, ◌<◌, ◌≡◌, ◌∙◌, refl, sym, ap, subst, ◌==◌, ==_iff, ==_ne, Bool-cases, inl, inr,
  some, ◌>>=◌, List, [], ◌∷◌, length, get_elem?, get_in_range, arith,
}
use de_si_gnar.Prelude.Updates.{set, get_elem?-set, get_elem?-set_other, length-set}
use de_si_gnar.Kmp.{zeros, failure_loop, kmp_failure_function}
use de_si_gnar.Kmp.Border.{IsLongest, IsFailure, nothing-IsSuffix}
use de_si_gnar.Kmp.Advance.{advance-IsLongest}

-- The symbols from the `i`-th on.
pub record IsRest (text rest : List ℕ) (i : ℕ) : Type 0 where
  pub size : i + length rest ≡ length text
  pub read : (j : ℕ) → get_elem? text (i + j) ≡ get_elem? rest j

pub IsRest-next :
    {text rest : List ℕ} {c i : ℕ} → IsRest text (c ∷ rest) i → IsRest text rest (i + 1)
IsRest-next {text} {rest} {c} {i} r = record {
  size = omega (arith, r.size);
  read = λ j.
      let there : i + 1 + j ≡ i + suc j = omega arith in ap (get_elem? text) there ∙ r.read (suc j);
}

pub IsRest-here :
    {text rest : List ℕ} {c i : ℕ} → IsRest text (c ∷ rest) i → get_elem? text i ≡ some c
IsRest-here {text} {rest} {c} {i} r =
    let there : i ≡ i + 0 = omega arith in ap (get_elem? text) there ∙ r.read 0

IsFailure-set :
    (pattern fail : List ℕ) (i k : ℕ)
    → i < length fail
    → IsFailure pattern fail i
    → IsLongest pattern pattern (i + 1) (i + 1) k
    → IsFailure pattern (set fail i k) (i + 1)
IsFailure-set pattern fail i k within failure l = record {
  at = λ q h. elim (Bool-cases (q == i)) [
    | inl here ↦
        let (x, old) = get_in_range fail i within in
        let same = (==_iff q i).0 here in
        (
          k,
          ap (get_elem? (set fail i k)) same ∙ get_elem?-set fail i x k old,
          subst (λ m. IsLongest pattern pattern (m + 1) (m + 1) k) (sym same) l,
        )
    | inr before ↦
        let other = ==_ne q i before in
        let (f, at, longest) = failure.at q (omega (arith, h, other)) in
        (f, get_elem?-set_other fail i q k other ∙ at, longest)
  ];
}

-- The loop leaves a right failure function.
failure_loop-IsFailure :
    (pattern rest : List ℕ) (i k : ℕ) (fail : List ℕ)
    → IsRest pattern rest i
    → length fail ≡ length pattern
    → IsFailure pattern fail i
    → IsLongest pattern pattern i i k
    → (fail' : List ℕ) × (failure_loop pattern rest i k fail ≡ some fail')
      × IsFailure pattern fail' (length pattern)
unfolding failure_loop
failure_loop-IsFailure pattern [] i k fail r size failure l =
    let all : i ≡ length pattern = omega (arith, r.size) in
    (fail, refl, subst (IsFailure pattern fail) all failure)
failure_loop-IsFailure pattern (c ∷ rest) i k fail r size failure l =
    let (k', found, longest) =
      advance-IsLongest pattern fail pattern i i c i (IsRest-here r) (omega (arith, r.size)) failure
        (omega arith) k l in
    let (fail', ended, right) =
      failure_loop-IsFailure pattern rest (i + 1) k' (set fail i k') (IsRest-next r)
        (length-set fail i k' ∙ size)
        (IsFailure-set pattern fail i k' (omega (arith, r.size, size)) failure longest) longest in
    (fail', rw (found, ◌>>=◌) ended, right)

length-zeros : (m : ℕ) → length (zeros m) ≡ m
unfolding zeros
length-zeros zero = refl
length-zeros (suc m) = ap suc (length-zeros m)

none_yet : (pattern : List ℕ) → IsLongest pattern pattern 1 1 0
none_yet pattern = record {
  below = omega arith;
  suffix = nothing-IsSuffix pattern pattern 1;
  longest = λ k' h s. omega (arith, h);
}

IsFailure-zeros : (pattern : List ℕ) (m : ℕ) → IsFailure pattern (zeros (suc m)) 1
IsFailure-zeros pattern m = record { at = at }
  where
    at :
        (q : ℕ)
        → q < 1
        → (f : ℕ) × (get_elem? (zeros (suc m)) q ≡ some f)
          × IsLongest pattern pattern (q + 1) (q + 1) f
    at zero h = (0, (unfold zeros in refl), none_yet pattern)
    at (suc q) h = absurd (omega (arith, h))

-- For each pattern, `kmp_failure_function` ends, and gives at each position the length of the longest
-- proper border of the pattern up to there.
pub kmp_failure_function-IsFailure :
    (pattern : List ℕ)
    → (fail : List ℕ) × (kmp_failure_function pattern ≡ some fail)
      × IsFailure pattern fail (length pattern)
unfolding kmp_failure_function
kmp_failure_function-IsFailure [] = ([], refl, record { at = λ q h. absurd (omega (arith, h)) })
kmp_failure_function-IsFailure (c ∷ pattern) =
    failure_loop-IsFailure (c ∷ pattern) pattern 1 0 (zeros (suc (length pattern)))
      (record {
        size = omega arith;
        read = λ j. let there : 1 + j ≡ suc j = omega arith in ap (get_elem? (c ∷ pattern)) there;
      })
      (length-zeros (suc (length pattern))) (IsFailure-zeros (c ∷ pattern) (length pattern))
      (none_yet (c ∷ pattern))
