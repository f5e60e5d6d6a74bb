-- ===== src/Kmp/Search.antt =====
-- kmp_search of include/stringalgorithms.hpp finds the occurrences of the pattern.
use de_si_gnar.Prelude.{
  ℕ, suc, ◌+◌, ◌-◌, ◌<◌, ◌≡◌, ◌∙◌, refl, sym, ap, subst, ◌==◌, ==_iff, ==_ne, ltb, ltb→lt,
  ltb_false→le, true, false, Bool-cases, inl, inr, some, ◌>>=◌, List, [], ◌∷◌, ◌++◌, append_assoc,
  append-nil, length, get_elem?, arith,
}
use de_si_gnar.StringAlgorithms.Occurrence.{
  agrees-starts_with, starts_with-agrees, starts_with, occurrences, occurrences_short,
}
use de_si_gnar.Kmp.{advance, kmp_loop, kmp_search}
use de_si_gnar.Kmp.Border.{
  IsSuffix, IsLongest, IsFailure, nothing-IsSuffix, IsSuffix-nested, IsSuffix-trans,
}
use de_si_gnar.Kmp.Advance.{advance-IsLongest}
use de_si_gnar.Kmp.Failure.{IsRest, IsRest-next, IsRest-here, kmp_failure_function-IsFailure}

module _ (pattern fail text : List ℕ) (failure : IsFailure pattern fail (length pattern))
    (nonempty : 0 < length pattern) where
  -- The pattern stands at `s` just when it is a suffix of the text up to its end there.
  here-IsSuffix :
      (s i : ℕ) (after : List ℕ)
      → IsRest text after s
      → s + length pattern ≡ i + 1
      → starts_with after pattern ≡ true
      → IsSuffix pattern (length pattern) text (i + 1)
  here-IsSuffix s i after r e h = record {
    start = s;
    ends = e;
    agrees = λ j less. starts_with-agrees after pattern h j less ∙ sym (r.read j);
  }

  IsSuffix-here :
      (s i : ℕ) (after : List ℕ)
      → IsRest text after s
      → s ≡ i + 1 - length pattern
      → IsSuffix pattern (length pattern) text (i + 1)
      → starts_with after pattern ≡ true
  IsSuffix-here s i after r e b = agrees-starts_with after pattern (λ j less.
      let there : b.start + j ≡ s + j = omega (arith, e, b.ends) in
      b.agrees j less ∙ ap (get_elem? text) there ∙ r.read j)

  -- After a match, the search goes on with the longest border of the pattern.
  restart :
      (i f : ℕ)
      → IsSuffix pattern (length pattern) text i
      → IsLongest pattern pattern (length pattern) (length pattern) f
      → IsLongest pattern text i (length pattern) f
  restart i f b l = record {
    below = l.below;
    suffix = IsSuffix-trans b l.suffix;
    longest = λ k' h s. l.longest k' h (IsSuffix-nested b s (omega (arith, h)));
  }

  last_border :
      (f : ℕ) × (get_elem? fail (length pattern - 1) ≡ some f)
      × IsLongest pattern pattern (length pattern) (length pattern) f
  last_border =
      let (f, at, l) = failure.at (length pattern - 1) (omega (arith, nonempty)) in
      let whole : length pattern - 1 + 1 ≡ length pattern = omega (arith, nonempty) in
      (f, at, subst (λ m. IsLongest pattern pattern m m f) whole l)

  -- Where the search stands: the next symbol is the `i`-th, and the occurrences from `s` on are not
  -- reported yet.
  record IsOn (rest after : List ℕ) (i s k : ℕ) : Type 0 where
    unread : IsRest text rest i
    window : IsRest text after s
    place : s ≡ i + 1 - length pattern
    matched : IsLongest pattern text i (length pattern) k

  occurs :
      (s t : ℕ) (after : List ℕ)
      → starts_with (t ∷ after) pattern ≡ true
      → occurrences s pattern (t ∷ after) ≡ s ∷ occurrences (s + 1) pattern after
  unfolding occurrences
  occurs s t after h = rw h refl

  passes :
      (s t : ℕ) (after : List ℕ)
      → starts_with (t ∷ after) pattern ≡ false
      → occurrences s pattern (t ∷ after) ≡ occurrences (s + 1) pattern after
  unfolding occurrences
  passes s t after h = rw h refl

  abbrev Found : List ℕ → List ℕ → ℕ → ℕ → ℕ → List ℕ → Type 0
  Found rest after i s k matches =
      kmp_loop pattern fail rest i k matches ≡ some (matches ++ occurrences s pattern after)

  -- The next symbol completes the pattern.
  hit :
      (c : ℕ) (rest after : List ℕ) (i s k k' : ℕ) (matches : List ℕ)
      → IsOn (c ∷ rest) after i s k
      → advance (suc k) fail pattern c k ≡ some k'
      → k' ≡ length pattern
      → IsLongest pattern text (i + 1) (length pattern + 1) k'
      → ((after' : List ℕ) (k'' : ℕ) (m : List ℕ)
          → IsOn rest after' (i + 1) (s + 1) k''
          → Found rest after' (i + 1) (s + 1) k'' m)
      → Found (c ∷ rest) after i s k matches
  unfolding kmp_loop
  hit c rest [] i s k k' matches on found whole l next =
      absurd (omega (arith, on.unread.size, on.window.size, on.place, nonempty))
  hit c rest (t ∷ after) i s k k' matches on found whole l next =
      let b = subst (λ m. IsSuffix pattern m text (i + 1)) whole l.suffix in
      let (f, at, border) = last_border in
      let at_last : get_elem? fail (k' - 1) ≡ some f =
        ap (λ m. get_elem? fail (m - 1)) whole ∙ at in
      let complete : (k' == length pattern) ≡ true = (==_iff _ _).1 whole in
      let on' : IsOn rest after (i + 1) (s + 1) f = record {
        unread = IsRest-next on.unread;
        window = IsRest-next on.window;
        place = omega (arith, on.place, b.ends);
        matched = restart (i + 1) f b border;
      } in
      let first = IsSuffix-here s i (t ∷ after) on.window on.place b in
      rw (found, ◌>>=◌, complete, at_last, sym on.place)
        (next after f (matches ++ s ∷ []) on'
          ∙ ap some (
              append_assoc matches (s ∷ []) (occurrences (s + 1) pattern after)
              ∙ ap (λ l. matches ++ l) (sym (occurs s t after first))))

  -- The next symbol does not.
  miss :
      (c : ℕ) (rest after : List ℕ) (i s k k' : ℕ) (matches : List ℕ)
      → IsOn (c ∷ rest) after i s k
      → advance (suc k) fail pattern c k ≡ some k'
      → (k' == length pattern) ≡ false
      → IsLongest pattern text (i + 1) (length pattern + 1) k'
      → ((after' : List ℕ) (s' k'' : ℕ) (m : List ℕ)
          → IsOn rest after' (i + 1) s' k''
          → Found rest after' (i + 1) s' k'' m)
      → Found (c ∷ rest) after i s k matches
  unfolding kmp_loop
  miss c rest [] i s k k' matches on found short l next =
      absurd (omega (arith, on.unread.size, on.window.size, on.place, nonempty))
  miss c rest (t ∷ after) i s k k' matches on found short l next =
      let less : k' < length pattern = omega (arith, l.below, ==_ne k' (length pattern) short) in
      let longest : IsLongest pattern text (i + 1) (length pattern) k' = record {
        below = less;
        suffix = l.suffix;
        longest = λ m h b. l.longest m (omega (arith, h)) b;
      } in
      elim (Bool-cases (ltb (i + 1) (length pattern))) [
        | inl early ↦
            rw (found, ◌>>=◌, short)
              (next (t ∷ after) s k' matches (record {
                unread = IsRest-next on.unread;
                window = on.window;
                place = omega (arith, on.place, ltb→lt _ _ early);
                matched = longest;
              }))
        | inr late ↦
            let enough = ltb_false→le _ _ late in
            let on' : IsOn rest after (i + 1) (s + 1) k' = record {
              unread = IsRest-next on.unread;
              window = IsRest-next on.window;
              place = omega (arith, on.place, enough);
              matched = longest;
            } in
            let absent : starts_with (t ∷ after) pattern ≡ false =
              elim (Bool-cases (starts_with (t ∷ after) pattern)) [
                | inl there ↦
                    let b =
                      here-IsSuffix s i (t ∷ after) on.window (omega (arith, on.place, enough))
                        there in
                    absurd (omega (arith, less, l.longest (length pattern) (omega arith) b))
                | inr nowhere ↦ nowhere
              ] in
            rw (found, ◌>>=◌, short)
              (next after (s + 1) k' matches on'
                ∙ ap (λ l. some (matches ++ l)) (sym (passes s t after absent)))
      ]

  kmp_loop-occurrences :
      (rest after : List ℕ) (i s k : ℕ) (matches : List ℕ)
      → IsOn rest after i s k
      → Found rest after i s k matches
  unfolding kmp_loop
  kmp_loop-occurrences [] after i s k matches on =
      let short =
        occurrences_short s pattern after
          (omega (arith, on.unread.size, on.window.size, on.place, nonempty)) in
      ap some (sym (append-nil matches) ∙ ap (λ l. matches ++ l) (sym short))
  kmp_loop-occurrences (c ∷ rest) after i s k matches on =
      let (k', found, l) =
        advance-IsLongest pattern fail text i (length pattern) c (length pattern)
          (IsRest-here on.unread) (omega arith) failure (omega arith) k on.matched in
      elim (Bool-cases (k' == length pattern)) [
        | inl whole ↦
            hit c rest after i s k k' matches on found ((==_iff _ _).0 whole) l
              (λ after' k'' m on'. kmp_loop-occurrences rest after' (i + 1) (s + 1) k'' m on')
        | inr short ↦
            miss c rest after i s k k' matches on found short l
              (λ after' s' k'' m on'. kmp_loop-occurrences rest after' (i + 1) s' k'' m on')
      ]

-- For each text and each pattern that is not empty, `kmp_search` ends, reads no array out of range,
-- and gives the positions at which the pattern occurs, in ascending order, overlaps included.
pub kmp_search-occurrences :
    (text pattern : List ℕ)
    → 0 < length pattern
    → kmp_search text pattern ≡ some (occurrences 0 pattern text)
unfolding kmp_search
kmp_search-occurrences text pattern nonempty =
    let some_symbols : (length pattern == 0) ≡ false = ground (arith, nonempty) in
    elim (Bool-cases (ltb (length text) (length pattern))) [
      | inl short ↦
          rw (some_symbols, short)
            (ap some (sym (occurrences_short 0 pattern text (ltb→lt _ _ short))))
      | inr long ↦
          let (fail, ended, failure) = kmp_failure_function-IsFailure pattern in
          let all : IsRest text text 0 = record {
            size = omega arith;
            read = λ j. let there : 0 + j ≡ j = omega arith in ap (get_elem? text) there;
          } in
          rw (some_symbols, long, ended, ◌>>=◌)
            (kmp_loop-occurrences pattern fail text failure nonempty text text 0 0 0 [] (record {
              unread = all;
              window = all;
              place = omega (arith, nonempty);
              matched = record {
                below = nonempty;
                suffix = nothing-IsSuffix pattern text 0;
                longest = λ k' h s. omega (arith, s.ends);
              };
            }))
    ]
