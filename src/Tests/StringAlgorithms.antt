-- ===== src/Tests/StringAlgorithms.antt =====
-- include/stringalgorithms.hpp at short sequences.
use de_si_gnar.Prelude.{ℕ, ◌-◌, ◌^◌, ◌≤◌, ◌≡◌, refl, some, List, [], ◌∷◌, length, arith}
use de_si_gnar.StringAlgorithms.{
  fill_row, first_row, next_rows, edit_distance, windows_loop, first_hashes, matches_here,
  high_order_loop, rabin_karp_search,
}
use de_si_gnar.Kmp.{advance, zeros, failure_loop, kmp_failure_function, kmp_loop, kmp_search}
use de_si_gnar.Kmp.Border.{IsFailure}
use de_si_gnar.Kmp.Failure.{kmp_failure_function-IsFailure}
use de_si_gnar.Kmp.Search.{kmp_search-occurrences}
use de_si_gnar.Prelude.Updates.{set}
use de_si_gnar.StringAlgorithms.Script.{Script}
use de_si_gnar.StringAlgorithms.Distance.{edit_distance-least}
use de_si_gnar.StringAlgorithms.Occurrence.{occurrences}
use de_si_gnar.StringAlgorithms.RabinKarp.{rabin_karp_search-occurrences}
use de_si_gnar.StringAlgorithms.Wrapping.{rabin_karp_search_misses}

-- "saturday" and "sunday".
abbrev saturday : List ℕ
saturday = b's' ∷ b'a' ∷ b't' ∷ b'u' ∷ b'r' ∷ b'd' ∷ b'a' ∷ b'y' ∷ []

abbrev sunday : List ℕ
sunday = b's' ∷ b'u' ∷ b'n' ∷ b'd' ∷ b'a' ∷ b'y' ∷ []

three_edits : edit_distance saturday sunday ≡ some 3
unfolding edit_distance first_row next_rows fill_row
three_edits = refl

edit_distance-least_example :
    (n : ℕ) × (edit_distance saturday sunday ≡ some n)
    × Script saturday sunday n
    × ((k : ℕ) → Script saturday sunday k → n ≤ k)
edit_distance-least_example = edit_distance-least saturday sunday

-- "abab" in "ababab".
abbrev twice : List ℕ
twice = b'a' ∷ b'b' ∷ b'a' ∷ b'b' ∷ []

abbrev thrice : List ℕ
thrice = b'a' ∷ b'b' ∷ b'a' ∷ b'b' ∷ b'a' ∷ b'b' ∷ []

overlapping : rabin_karp_search thrice twice ≡ some (0 ∷ 2 ∷ [])
unfolding rabin_karp_search first_hashes high_order_loop windows_loop matches_here
overlapping = refl

rabin_karp_search-occurrences_example :
    rabin_karp_search thrice twice ≡ some (occurrences 0 twice thrice)
rabin_karp_search-occurrences_example =
    rabin_karp_search-occurrences thrice twice (omega arith) (omega arith) (omega arith)

-- The second byte of a letter of value 0xc3 0xa9, before "ab".
rabin_karp_search_misses_example :
    (rabin_karp_search ((2 ^ 64 - 87) ∷ b'a' ∷ b'b' ∷ []) (b'a' ∷ b'b' ∷ []) ≡ some [])
    × (occurrences 0 (b'a' ∷ b'b' ∷ []) ((2 ^ 64 - 87) ∷ b'a' ∷ b'b' ∷ []) ≡ 1 ∷ [])
rabin_karp_search_misses_example =
    rabin_karp_search_misses 87 b'a' b'b' (omega arith) (omega arith) (omega arith) (omega arith)

borders : kmp_failure_function thrice ≡ some (0 ∷ 0 ∷ 1 ∷ 2 ∷ 3 ∷ 4 ∷ [])
unfolding kmp_failure_function failure_loop advance zeros set
borders = refl

kmp_failure_function-IsFailure_example :
    (fail : List ℕ) × (kmp_failure_function thrice ≡ some fail)
    × IsFailure thrice fail (length thrice)
kmp_failure_function-IsFailure_example = kmp_failure_function-IsFailure thrice

kmp_overlapping : kmp_search thrice twice ≡ some (0 ∷ 2 ∷ [])
unfolding kmp_search kmp_loop kmp_failure_function failure_loop advance zeros set
kmp_overlapping = refl

kmp_search-occurrences_example : kmp_search thrice twice ≡ some (occurrences 0 twice thrice)
kmp_search-occurrences_example = kmp_search-occurrences thrice twice (omega (arith))
