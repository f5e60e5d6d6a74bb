-- ===== src/Kmp.antt =====
-- kmp_failure_function and kmp_search of include/stringalgorithms.hpp. A sequence is the list of its
-- symbols, and a symbol is a number. `none` is an access out of range, or fuel that ran out.
pub mod Border
pub mod Advance
pub mod Failure
pub mod Search
use de_si_gnar.Prelude.{
  ℕ, zero, suc, ◌+◌, ◌-◌, ◌==◌, ltb, ◌&&◌, ◌||◌, not, Bool, true, false, if◌then◌else◌, Option,
  none, some, ◌>>=◌, List, [], ◌∷◌, ◌++◌, length, get_elem?,
}
use de_si_gnar.Prelude.Updates.{set}

-- The `while` loop and the `if` after it, for the symbol `c`.
unfoldable pub advance : ℕ → List ℕ → List ℕ → ℕ → ℕ → Option ℕ
advance zero fail pattern c k = none
advance (suc fuel) fail pattern c k = do
  p ← get_elem? pattern k
  elim (ltb 0 k && not (c == p)) [
    | true ↦ do k' ← get_elem? fail (k - 1); advance fuel fail pattern c k'
    | false ↦ some (if c == p then k + 1 else k)
  ]

-- `fail(m, 0)`.
unfoldable pub zeros : ℕ → List ℕ
zeros zero = []
zeros (suc m) = 0 ∷ zeros m

-- The loop over the symbols of the pattern, from the `i`-th on.
unfoldable pub failure_loop : List ℕ → List ℕ → ℕ → ℕ → List ℕ → Option (List ℕ)
failure_loop pattern [] i k fail = some fail
failure_loop pattern (c ∷ rest) i k fail = do
  k' ← advance (suc k) fail pattern c k
  failure_loop pattern rest (i + 1) k' (set fail i k')

unfoldable pub kmp_failure_function : List ℕ → Option (List ℕ)
kmp_failure_function [] = some []
kmp_failure_function (c ∷ pattern) =
    failure_loop (c ∷ pattern) pattern 1 0 (zeros (suc (length pattern)))

-- The loop over the symbols of the text, from the `i`-th on. Where `k` is the length of the pattern,
-- `i + 1` is at least as large.
unfoldable pub kmp_loop : List ℕ → List ℕ → List ℕ → ℕ → ℕ → List ℕ → Option (List ℕ)
kmp_loop pattern fail [] i k matches = some matches
kmp_loop pattern fail (c ∷ rest) i k matches = do
  k' ← advance (suc k) fail pattern c k
  elim (k' == length pattern) [
    | true ↦ do
      k'' ← get_elem? fail (k' - 1)
      kmp_loop pattern fail rest (i + 1) k'' (matches ++ (i + 1 - length pattern) ∷ [])
    | false ↦ kmp_loop pattern fail rest (i + 1) k' matches
  ]

unfoldable pub kmp_search : List ℕ → List ℕ → Option (List ℕ)
kmp_search text pattern =
    if length pattern == 0 || ltb (length text) (length pattern)
    then some []
    else do fail ← kmp_failure_function pattern; kmp_loop pattern fail text 0 0 []
