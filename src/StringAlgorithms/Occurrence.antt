-- ===== src/StringAlgorithms/Occurrence.antt =====
-- The occurrences of a pattern in a text, found by trying each position: what the searches of
-- include/stringalgorithms.hpp look for.
use de_si_gnar.Prelude.{
  ℕ, suc, zero, some_inj, get_elem?, ◌+◌, ◌≤◌, ◌<◌, ◌≡◌, ◌∙◌, refl, sym, ap, Bool, true, false,
  Bool-cases, inl, inr, ◌==◌, ==_iff, if◌then◌else◌, some, List, [], ◌∷◌, ◌++◌, append_assoc,
  length, length-append, get_elem?-append_at, arith,
}
use de_si_gnar.StringAlgorithms.{matches_here}

unfoldable pub starts_with : List ℕ → List ℕ → Bool
starts_with text [] = true
starts_with [] (p ∷ pattern) = false
starts_with (t ∷ text) (p ∷ pattern) = if t == p then starts_with text pattern else false

-- The positions, from `i` on, where the pattern stands in the text.
unfoldable pub occurrences : ℕ → List ℕ → List ℕ → List ℕ
occurrences i pattern [] = []
occurrences i pattern (t ∷ text) =
    let rest = occurrences (i + 1) pattern text in
    if starts_with (t ∷ text) pattern then i ∷ rest else rest

starts_with_short :
    (text pattern : List ℕ) → length text < length pattern → starts_with text pattern ≡ false
unfolding starts_with
starts_with_short text [] h = absurd (omega arith)
starts_with_short [] (p ∷ pattern) h = refl
starts_with_short (t ∷ text) (p ∷ pattern) h =
    ground (arith, starts_with_short text pattern (omega arith))

pub occurrences_short :
    (i : ℕ) (pattern text : List ℕ) → length text < length pattern → occurrences i pattern text ≡ []
unfolding occurrences
occurrences_short i pattern [] h = refl
occurrences_short i pattern (t ∷ text) h =
    rw (starts_with_short (t ∷ text) pattern h)
      (occurrences_short (i + 1) pattern text (omega arith))

-- A window that starts with a pattern of its own length is the pattern.
pub starts_with-eq :
    (window rest pattern : List ℕ)
    → length window ≡ length pattern
    → starts_with (window ++ rest) pattern ≡ true
    → window ≡ pattern
unfolding starts_with
starts_with-eq [] rest [] e h = refl
starts_with-eq [] rest (p ∷ pattern) e h = absurd (omega arith)
starts_with-eq (t ∷ window) rest [] e h = absurd (omega arith)
starts_with-eq (t ∷ window) rest (p ∷ pattern) e h = elim (Bool-cases (t == p)) [
  | inl same ↦
      let tail : starts_with (window ++ rest) pattern ≡ true = rw same at h in
      let ih = starts_with-eq window rest pattern (omega arith) tail in
      rw ((==_iff t p).0 same, ih) refl
  | inr other ↦ let no_match : false ≡ true = rw other at h in cc
]

-- `matches_here` compares the pattern with the text from a position on.
pub matches_here-starts_with :
    (before text pattern : List ℕ) (at : ℕ)
    → at ≡ length before
    → length pattern ≤ length text
    → matches_here (before ++ text) pattern at ≡ some (starts_with text pattern)
unfolding matches_here starts_with
matches_here-starts_with before text [] at e h = refl
matches_here-starts_with before [] (p ∷ pattern) at e h = absurd (omega arith)
matches_here-starts_with before (t ∷ text) (p ∷ pattern) at e h =
    let here = get_elem?-append_at before t text at (sym e) in
    let there =
      matches_here-starts_with (before ++ t ∷ []) text pattern (at + 1)
        (omega (arith, e, length-append before (t ∷ []))) (omega (arith, h)) in
    let split = append_assoc before (t ∷ []) text in
    let later : matches_here (before ++ t ∷ text) pattern (at + 1)
        ≡ some (starts_with text pattern) =
      ap (λ l. matches_here l pattern (at + 1)) (sym split) ∙ there in
    elim (Bool-cases (t == p)) [
      | inl same ↦ rw (here, same) later
      | inr other ↦ rw (here, other) refl
    ]

-- A text starts with a pattern just when it agrees with it at each position of the pattern.
pub agrees-starts_with :
    (text pattern : List ℕ)
    → ((j : ℕ) → j < length pattern → get_elem? pattern j ≡ get_elem? text j)
    → starts_with text pattern ≡ true
unfolding starts_with
agrees-starts_with text [] h = refl
agrees-starts_with [] (p ∷ pattern) h = let clash = h 0 (omega (arith)) in cc
agrees-starts_with (t ∷ text) (p ∷ pattern) h =
    let same : (t == p) ≡ true = (==_iff t p).1 (sym (some_inj (h 0 (omega (arith))))) in
    rw same (agrees-starts_with text pattern (λ j less. h (suc j) (omega (arith, less))))

pub starts_with-agrees :
    (text pattern : List ℕ)
    → starts_with text pattern ≡ true
    → (j : ℕ) → j < length pattern
    → get_elem? pattern j ≡ get_elem? text j
unfolding starts_with
starts_with-agrees text [] h j less = absurd (omega (arith, less))
starts_with-agrees [] (p ∷ pattern) h j less = cc
starts_with-agrees (t ∷ text) (p ∷ pattern) h zero less = elim (Bool-cases (t == p)) [
  | inl same ↦ ap some (sym ((==_iff t p).0 same))
  | inr other ↦ let clash : false ≡ true = rw other at h in cc
]
starts_with-agrees (t ∷ text) (p ∷ pattern) h (suc j) less = elim (Bool-cases (t == p)) [
  | inl same ↦ starts_with-agrees text pattern (rw same at h) j (omega (arith, less))
  | inr other ↦ let clash : false ≡ true = rw other at h in cc
]
