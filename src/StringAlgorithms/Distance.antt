-- ===== src/StringAlgorithms/Distance.antt =====
-- `edit_distance` of include/stringalgorithms.hpp against edit scripts.
use de_si_gnar.Prelude.{
  ℕ, suc, ◌+◌, ◌≤◌, min, ◌==◌, if◌then◌else◌, ◌≡◌, ◌∙◌, refl, sym, ap, ap₂, some, List, [], ◌∷◌,
  ◌++◌, append-nil, append_assoc, length, last, arith,
}
use mathlib.Core.List.{reverse, reverse-cons, reverse-reverse}
use de_si_gnar.StringAlgorithms.{fill_row, first_row, next_rows, edit_distance}
use de_si_gnar.StringAlgorithms.Script.{
  Script, Script-reverse, distance, distance-least, distance-script,
}

-- The cells of a row behind the column where `b` starts: the distances of `pa`, which is the part of
-- `a` above the row read backwards, from the columns' parts of the other sequence, read backwards.
cells : List ℕ → List ℕ → List ℕ → List ℕ
cells pa acc [] = []
cells pa acc (y ∷ b) = distance pa (y ∷ acc) ∷ cells pa (y ∷ acc) b

-- The first list, read backwards, before the second.
onto : List ℕ → List ℕ → List ℕ
onto [] acc = acc
onto (x ∷ a) acc = onto a (x ∷ acc)

onto-reverse : (a acc : List ℕ) → onto a acc ≡ reverse a ++ acc
unfolding onto
onto-reverse [] acc = refl
onto-reverse (x ∷ a) acc =
    onto-reverse a (x ∷ acc)
    ∙ sym (append_assoc (reverse a) (x ∷ []) acc)
    ∙ ap (λ l. l ++ acc) (sym (reverse-cons x a))

fill_row-cells :
    (x : ℕ) (pa acc b : List ℕ)
    → fill_row x (distance (x ∷ pa) acc) (distance pa acc ∷ cells pa acc b) b
      ≡ some (cells (x ∷ pa) acc b)
unfolding fill_row cells
fill_row-cells x pa acc [] = refl
fill_row-cells x pa acc (y ∷ b) =
    let cell : (if x == y
          then distance pa acc
          else 1 + min (min (distance pa acc) (distance pa (y ∷ acc))) (distance (x ∷ pa) acc))
        ≡ distance (x ∷ pa) (y ∷ acc) =
      (unfold distance in refl) in
    rw (cell, fill_row-cells x pa (y ∷ acc) b) refl

first_row-cells :
    (j : ℕ) (acc b : List ℕ) → j ≡ length acc → first_row j b ≡ distance [] acc ∷ cells [] acc b
unfolding first_row cells distance
first_row-cells j acc [] e = ap (λ n. n ∷ []) e
first_row-cells j acc (y ∷ b) e =
    ap₂ (λ n l. n ∷ l) e (first_row-cells (j + 1) (y ∷ acc) b (omega (arith, e)))

next_rows-cells :
    (i : ℕ) (pa a b : List ℕ)
    → i ≡ suc (length pa)
    → next_rows i (distance pa [] ∷ cells pa [] b) a b
      ≡ some (distance (onto a pa) [] ∷ cells (onto a pa) [] b)
unfolding next_rows onto
next_rows-cells i pa [] b e = refl
next_rows-cells i pa (x ∷ a) b e =
    let first : i ≡ distance (x ∷ pa) [] = (unfold distance in e) in
    rw (first, fill_row-cells x pa [] b)
      (next_rows-cells (distance (x ∷ pa) [] + 1) (x ∷ pa) a b (omega (arith, e, first)))

last-cells :
    (pa acc b : List ℕ) → last (distance pa acc ∷ cells pa acc b) ≡ some (distance pa (onto b acc))
unfolding cells onto
last-cells pa acc [] = refl
last-cells pa acc (y ∷ b) = last-cells pa (y ∷ acc) b

edit_distance-reverse : (a b : List ℕ) → edit_distance a b ≡ some (distance (reverse a) (reverse b))
unfolding edit_distance
edit_distance-reverse a b =
    rw (first_row-cells 0 [] b refl, next_rows-cells 1 [] a b refl)
      (last-cells (onto a []) [] b
        ∙ ap₂ (λ c d. some (distance c d)) (onto-reverse a [] ∙ append-nil (reverse a))
            (onto-reverse b [] ∙ append-nil (reverse b)))

-- `edit_distance` ends with the least number of insertions, deletions and substitutions of single
-- symbols that turn the first sequence into the second.
pub edit_distance-least :
    (a b : List ℕ)
    → (n : ℕ) × (edit_distance a b ≡ some n) × Script a b n × ((k : ℕ) → Script a b k → n ≤ k)
edit_distance-least a b =
    let s = Script-reverse (distance-script (reverse a) (reverse b)) in
    (
      distance (reverse a) (reverse b),
      edit_distance-reverse a b,
      rw (reverse-reverse a, reverse-reverse b) at s,
      λ k t. distance-least (Script-reverse t),
    )
