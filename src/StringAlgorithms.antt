-- ===== src/StringAlgorithms.antt =====
-- include/stringalgorithms.hpp. A sequence is the list of its symbols, and a symbol is the `nat_t`
-- that it converts to, below 2 ^ 64: a negative `char` of value -k is 2 ^ 64 - k. Two symbols of one
-- type are equal just when these numbers are.
pub mod Script
pub mod Distance
pub mod Occurrence
pub mod Rolling
pub mod RabinKarp
pub mod Wrapping
use de_si_gnar.Prelude.{
  ℕ, zero, suc, ◌+◌, ◌-◌, ◌*◌, ◌%◌, ◌^◌, min, ◌==◌, leb, ltb, ◌&&◌, ◌||◌, Bool, true, false,
  if◌then◌else◌, Option, none, some, ◌>>=◌, List, [], ◌∷◌, ◌++◌, length, get_elem?, last,
}
use de_si_gnar.NumberTheory.{mul_nat}

-- The rows of `edit_distance` are filled from left to right, each cell once. `fill_row` runs through
-- `b` from column `j` on: `diagonal` and `above` are `prev[j - 1]` and `prev[j]`, and `left` is
-- `curr[j - 1]`. `none` would be a read past the end of `prev`.
unfoldable pub fill_row : ℕ → ℕ → List ℕ → List ℕ → Option (List ℕ)
fill_row x left prev [] = some []
fill_row x left [] (y ∷ b) = none
fill_row x left (diagonal ∷ []) (y ∷ b) = none
fill_row x left (diagonal ∷ above ∷ prev) (y ∷ b) =
    let cell = if x == y then diagonal else 1 + min (min diagonal above) left in
    do rest ← fill_row x cell (above ∷ prev) b; some (cell ∷ rest)

-- `prev[j] = j` for the columns from `j` on, as many as `b` has symbols and one more.
unfoldable pub first_row : ℕ → List ℕ → List ℕ
first_row j [] = j ∷ []
first_row j (y ∷ b) = j ∷ first_row (j + 1) b

-- The loop over the symbols of `a`, from row `i` on; the rows swap names after each round.
unfoldable pub next_rows : ℕ → List ℕ → List ℕ → List ℕ → Option (List ℕ)
next_rows i prev [] b = some prev
next_rows i prev (x ∷ a) b = do curr ← fill_row x i prev b; next_rows (i + 1) (i ∷ curr) a b

unfoldable pub edit_distance : List ℕ → List ℕ → Option ℕ
edit_distance a b = do prev ← next_rows 1 (first_row 0 b) a b; last prev

abbrev pub base : ℕ
base = 256

abbrev pub modulus : ℕ
modulus = 1000000007

-- The loop for `high_order`, with the rounds that are left.
unfoldable pub high_order_loop : ℕ → ℕ → ℕ
high_order_loop zero high_order = high_order
high_order_loop (suc rounds) high_order = high_order_loop rounds (mul_nat high_order base % modulus)

-- A sum of two `nat_t`.
abbrev pub add_nat : ℕ → ℕ → ℕ
add_nat a b = (a + b) % 2 ^ 64

abbrev pub push_symbol : ℕ → ℕ → ℕ
push_symbol hash c = add_nat (mul_nat hash base) c % modulus

-- The hash of the first symbols of `text`, as many as `pattern` has, next to that of `pattern`;
-- `none` is a read past the end of `text`.
unfoldable pub first_hashes : List ℕ → List ℕ → ℕ → ℕ → Option (ℕ × ℕ)
first_hashes [] text pattern_hash window_hash = some (pattern_hash, window_hash)
first_hashes (p ∷ pattern) [] pattern_hash window_hash = none
first_hashes (p ∷ pattern) (t ∷ text) pattern_hash window_hash =
    first_hashes pattern text (push_symbol pattern_hash p) (push_symbol window_hash t)

-- The lambda `matches_here`, for the symbols of `pattern` that are left.
unfoldable pub matches_here : List ℕ → List ℕ → ℕ → Option Bool
matches_here text [] at = some true
matches_here text (p ∷ pattern) at = do
  t ← get_elem? text at
  if t == p then matches_here text pattern (at + 1) else some false

-- `window_hash` less the symbol that goes out, plus the one that comes in. The subtraction does not
-- go below 0, since the remainder is below the modulus.
abbrev pub roll : ℕ → ℕ → ℕ → ℕ → ℕ
roll high_order window_hash out in_ =
    push_symbol ((add_nat window_hash modulus - mul_nat out high_order % modulus) % modulus) in_

abbrev pub found_at : Bool → ℕ → List ℕ → List ℕ
found_at here i matches = if here then matches ++ i ∷ [] else matches

-- The loop over the windows, with fuel for the rounds. The test on the hashes comes first, and only
-- where it holds are symbols compared.
unfoldable pub windows_loop : ℕ → List ℕ → List ℕ → ℕ → ℕ → ℕ → ℕ → List ℕ → Option (List ℕ)
windows_loop zero text pattern high_order pattern_hash window_hash i matches = none
windows_loop (suc fuel) text pattern high_order pattern_hash window_hash i matches = do
  here ← if pattern_hash == window_hash then matches_here text pattern i else some false
  let matches' = found_at here i matches
  elim (leb (length text) (i + length pattern)) [
    | true ↦ some matches'
    | false ↦ do
      out ← get_elem? text i
      in_ ← get_elem? text (i + length pattern)
      windows_loop fuel text pattern high_order pattern_hash (roll high_order window_hash out in_)
          (i + 1) matches'
  ]

unfoldable pub rabin_karp_search : List ℕ → List ℕ → Option (List ℕ)
rabin_karp_search text pattern =
    let m = length pattern in
    if m == 0 || ltb (length text) m then some [] else do
      (pattern_hash, window_hash) ← first_hashes pattern text 0 0
      windows_loop (suc (length text)) text pattern (high_order_loop (m - 1) 1) pattern_hash
          window_hash 0 []
