-- ===== src/StringAlgorithms/Wrapping.antt =====
-- Where the products of `rabin_karp_search` (include/stringalgorithms.hpp) wrap around.
use de_si_gnar.Prelude.{
  ℕ, ◌-◌, ◌^◌, ◌≤◌, ◌<◌, ◌≡◌, ◌∙◌, refl, false, ◌==◌, Bool-cases, inl, inr, if◌then◌else◌, some, [],
  ◌∷◌, arith,
}
use de_si_gnar.StringAlgorithms.{
  push_symbol, roll, first_hashes, matches_here, high_order_loop, rabin_karp_search,
}
use de_si_gnar.StringAlgorithms.Occurrence.{starts_with, occurrences}
use de_si_gnar.StringAlgorithms.RabinKarp.{next_window, last_window}

module _ (k a b : ℕ) (hk : 0 < k) (hk' : k ≤ 128) (ha : a < 128) (hb : b < 128) where
  differs : ((2 ^ 64 - k) == a) ≡ false
  differs = ground arith

  first_test :
      (hp hw : ℕ)
      → (if hp == hw then matches_here ((2 ^ 64 - k) ∷ a ∷ b ∷ []) (a ∷ b ∷ []) 0 else some false)
        ≡ some false
  unfolding matches_here
  first_test hp hw = elim (Bool-cases (hp == hw)) [
    | inl same ↦ rw (same, differs) refl
    | inr other ↦ rw other refl
  ]

  -- The hash of the second window is wrong.
  spoiled :
      (push_symbol (push_symbol 0 a) b
        == roll 256 (push_symbol (push_symbol 0 (2 ^ 64 - k)) a) (2 ^ 64 - k) b)
      ≡ false
  spoiled = ground arith

  found_second : occurrences 0 (a ∷ b ∷ []) ((2 ^ 64 - k) ∷ a ∷ b ∷ []) ≡ 1 ∷ []
  unfolding occurrences starts_with
  found_second = ground arith

  search_ends : rabin_karp_search ((2 ^ 64 - k) ∷ a ∷ b ∷ []) (a ∷ b ∷ []) ≡ some []
  unfolding rabin_karp_search first_hashes high_order_loop
  search_ends =
      let text = (2 ^ 64 - k) ∷ a ∷ b ∷ [] in
      let pattern = a ∷ b ∷ [] in
      let hp = push_symbol (push_symbol 0 a) b in
      let hw = push_symbol (push_symbol 0 (2 ^ 64 - k)) a in
      next_window text pattern 256 hp hw 0 false (first_test hp hw) 3 [] (2 ^ 64 - k) b refl refl
        refl
      ∙ last_window text pattern 256 hp (roll 256 hw (2 ^ 64 - k) b) 1 false (rw spoiled refl) 2 []
          refl

-- A symbol of value -k, such as a byte of a letter outside ASCII as a `char`, spoils the rolling
-- hash: its product with `high_order` wraps around. `rabin_karp_search` then finds nothing where
-- the pattern of two symbols stands right after it.
pub rabin_karp_search_misses :
    (k a b : ℕ)
    → 0 < k
    → k ≤ 128
    → a < 128
    → b < 128
    → (rabin_karp_search ((2 ^ 64 - k) ∷ a ∷ b ∷ []) (a ∷ b ∷ []) ≡ some [])
      × (occurrences 0 (a ∷ b ∷ []) ((2 ^ 64 - k) ∷ a ∷ b ∷ []) ≡ 1 ∷ [])
rabin_karp_search_misses k a b hk hk' ha hb =
    (search_ends k a b hk hk' ha hb, found_second k a b hk hk' ha hb)
