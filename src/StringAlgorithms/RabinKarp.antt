-- ===== src/StringAlgorithms/RabinKarp.antt =====
-- `rabin_karp_search` of include/stringalgorithms.hpp.
use de_si_gnar.Prelude.{
  ℕ, zero, suc, ◌+◌, ◌-◌, ◌%◌, ◌^◌, ◌≤◌, ◌<◌, ◌≡◌, ◌∙◌, refl, sym, ap, subst, Bool, true, false,
  Bool-cases, inl, inr, ◌==◌, ==_ne, ltb, ltb→lt, ltb_false→le, le→ltb_false, leb, le→leb,
  le→leb_false, if◌then◌else◌, some, List, [], ◌∷◌, ◌++◌, append_assoc, append-nil, All-append,
  All-of_append, length, length-append, get_elem?, get_elem?-append_at, arith,
}
use de_si_gnar.StringAlgorithms.{
  modulus, matches_here, found_at, windows_loop, rabin_karp_search, high_order_loop, roll,
}
use de_si_gnar.StringAlgorithms.Occurrence.{
  starts_with, occurrences, occurrences_short, starts_with-eq, matches_here-starts_with,
}
use de_si_gnar.StringAlgorithms.Rolling.{
  value, power, AreSmall, roll-value, first_hashes-value, high_order_loop-power,
}

module _ (text pattern : List ℕ) (high_order hp hw i : ℕ) (here : Bool)
    (test : (if hp == hw then matches_here text pattern i else some false) ≡ some here) where
  pub last_window :
      (fuel : ℕ) (matches : List ℕ)
      → leb (length text) (i + length pattern) ≡ true
      → windows_loop (suc fuel) text pattern high_order hp hw i matches
        ≡ some (found_at here i matches)
  unfolding windows_loop
  last_window fuel matches h = rw (test, h) refl

  pub next_window :
      (fuel : ℕ) (matches : List ℕ) (out in_ : ℕ)
      → leb (length text) (i + length pattern) ≡ false
      → get_elem? text i ≡ some out
      → get_elem? text (i + length pattern) ≡ some in_
      → windows_loop (suc fuel) text pattern high_order hp hw i matches
        ≡ windows_loop fuel text pattern high_order hp
            (roll high_order hw out in_)
            (i + 1)
            (found_at here i matches)
  unfolding windows_loop
  next_window fuel matches out in_ h o e = rw (test, h, o, e) refl

-- The test of a window: equal hashes, and then equal symbols.
tested :
    (before window rest pattern : List ℕ) (i hp hw : ℕ)
    → i ≡ length before
    → length window ≡ length pattern
    → (window ≡ pattern → hp ≡ hw)
    → (if hp == hw then matches_here (before ++ (window ++ rest)) pattern i else some false)
      ≡ some (starts_with (window ++ rest) pattern)
tested before window rest pattern i hp hw e m same = elim (Bool-cases (hp == hw)) [
  | inl equal ↦ rw equal (
      matches_here-starts_with before (window ++ rest) pattern i e
        (omega (arith, m, length-append window rest)))
  | inr other ↦ elim (Bool-cases (starts_with (window ++ rest) pattern)) [
    | inl found ↦ absurd (==_ne hp hw other (same (starts_with-eq window rest pattern m found)))
    | inr missed ↦ rw (other, missed) refl
  ]
]

found_append :
    (here : Bool) (i : ℕ) (matches rest : List ℕ)
    → found_at here i matches ++ rest ≡ matches ++ (if here then i ∷ rest else rest)
found_append true i matches rest = append_assoc matches (i ∷ []) rest
found_append false i matches rest = refl

occurrences_cons :
    (i x : ℕ) (text pattern matches : List ℕ)
    → found_at (starts_with (x ∷ text) pattern) i matches ++ occurrences (i + 1) pattern text
      ≡ matches ++ occurrences i pattern (x ∷ text)
unfolding occurrences
occurrences_cons i x text pattern matches =
    found_append (starts_with (x ∷ text) pattern) i matches (occurrences (i + 1) pattern text)

moved :
    (before : List ℕ) (x : ℕ) (w : List ℕ) (c : ℕ) (r : List ℕ)
    → (before ++ x ∷ []) ++ ((w ++ c ∷ []) ++ r) ≡ before ++ (x ∷ w ++ c ∷ r)
moved before x w c r =
    ap (λ l. (before ++ x ∷ []) ++ l) (append_assoc w (c ∷ []) r)
    ∙ append_assoc before (x ∷ []) (w ++ c ∷ r)

-- From a window on, the loop adds the positions where the pattern stands.
windows_loop-occurrences :
    (fuel n : ℕ) (before window rest pattern : List ℕ) (i hw : ℕ) (matches : List ℕ)
    → i ≡ length before
    → length window ≡ length pattern
    → length pattern ≡ suc n
    → AreSmall window
    → AreSmall rest
    → hw ≡ value 0 window % modulus
    → length rest < fuel
    → windows_loop fuel
        (before ++ (window ++ rest))
        pattern
        (power n % modulus)
        (value 0 pattern % modulus)
        hw
        i
        matches
      ≡ some (matches ++ occurrences i pattern (window ++ rest))
windows_loop-occurrences zero n before window rest pattern i hw matches e m len sw sr eh h =
    absurd (omega (arith, h))
windows_loop-occurrences (suc fuel) n before [] rest pattern i hw matches e m len sw sr eh h =
    absurd (omega (arith, m, len))
windows_loop-occurrences (suc fuel) n before (x ∷ w) [] pattern i hw matches e m len sw sr eh h =
    let window = x ∷ w in
    let test =
      tested before window [] pattern i (value 0 pattern % modulus) hw e m
        (λ q. ap (λ l. value 0 l % modulus) (sym q) ∙ sym eh) in
    let short : length (w ++ []) < length pattern = omega (arith, m, length-append w []) in
    let size : length (before ++ (window ++ [])) ≤ i + length pattern =
      omega (arith, e, m, length-append before (window ++ []), length-append window []) in
    last_window (before ++ (window ++ [])) pattern (power n % modulus) (value 0 pattern % modulus)
      hw i (starts_with (window ++ []) pattern) test fuel matches (le→leb _ _ size)
    ∙ ap some (
        sym (append-nil (found_at (starts_with (window ++ []) pattern) i matches))
        ∙ ap (λ l. found_at (starts_with (window ++ []) pattern) i matches ++ l)
            (sym (occurrences_short (i + 1) pattern (w ++ []) short))
        ∙ occurrences_cons i x (w ++ []) pattern matches)
windows_loop-occurrences (suc fuel) n before (x ∷ w) (c ∷ r) pattern i hw matches e m len sw sr eh
      h =
    let window = x ∷ w in
    let text = before ++ (window ++ c ∷ r) in
    let here = starts_with (window ++ c ∷ r) pattern in
    let test =
      tested before window (c ∷ r) pattern i (value 0 pattern % modulus) hw e m
        (λ q. ap (λ l. value 0 l % modulus) (sym q) ∙ sym eh) in
    let size : i + length pattern < length text =
      omega (arith, e, m, length-append before (window ++ c ∷ r), length-append window (c ∷ r)) in
    let split = append_assoc before window (c ∷ r) in
    let in_at : get_elem? text (i + length pattern) ≡ some c =
      ap (λ l. get_elem? l (i + length pattern)) (sym split)
      ∙ get_elem?-append_at (before ++ window) c r (i + length pattern)
          (omega (arith, e, m, length-append before window)) in
    let rolled =
      ap (λ k. roll (power n % modulus) k x c) eh
      ∙ roll-value x w c n sw.0 sr.0 (omega (arith, m, len)) in
    let ih =
      windows_loop-occurrences fuel n (before ++ x ∷ []) (w ++ c ∷ []) r pattern (i + 1)
        (roll (power n % modulus) hw x c) (found_at here i matches)
        (omega (arith, e, length-append before (x ∷ [])))
        (omega (arith, m, length-append w (c ∷ []))) len
        (All-append (λ d. d < 2 ^ 34) w (c ∷ []) sw.1 (sr.0, tt)) sr.1 rolled (omega (arith, h)) in
    next_window text pattern (power n % modulus) (value 0 pattern % modulus) hw i here test fuel
      matches x c (le→leb_false _ _ size) (get_elem?-append_at before x (w ++ c ∷ r) i (sym e))
      in_at
    ∙ ap
        (λ l.
          windows_loop fuel l pattern (power n % modulus) (value 0 pattern % modulus)
            (roll (power n % modulus) hw x c) (i + 1) (found_at here i matches))
        (sym (moved before x w c r))
    ∙ ih
    ∙ ap some (
        ap (λ l. found_at here i matches ++ occurrences (i + 1) pattern l)
          (append_assoc w (c ∷ []) r)
        ∙ occurrences_cons i x (w ++ c ∷ r) pattern matches)

-- A text at least as long as the pattern starts with a window of its length.
cut :
    (n : ℕ) (text : List ℕ)
    → n ≤ length text
    → (window : List ℕ) × (rest : List ℕ) × (text ≡ window ++ rest) × (length window ≡ n)
cut zero text h = ([], text, refl, refl)
cut (suc n) [] h = absurd (omega (arith, h))
cut (suc n) (x ∷ text) h =
    let (window, rest, e, m) = cut n text (omega (arith, h)) in
    (x ∷ window, rest, ap (◌∷◌ x) e, omega (arith, m))

search_windows :
    (p : ℕ) (pattern window rest : List ℕ)
    → length window ≡ suc (length pattern)
    → AreSmall (p ∷ pattern)
    → AreSmall window
    → AreSmall rest
    → rabin_karp_search (window ++ rest) (p ∷ pattern)
      ≡ some (occurrences 0 (p ∷ pattern) (window ++ rest))
unfolding rabin_karp_search
search_windows p pattern window rest m sp sw sr =
    let long : ltb (length (window ++ rest)) (suc (length pattern)) ≡ false =
      le→ltb_false _ _ (omega (arith, m, length-append window rest)) in
    let hashes = first_hashes-value (p ∷ pattern) window rest 0 0 m sp sw in
    let order : high_order_loop (length pattern) 1 ≡ power (length pattern) % modulus =
      high_order_loop-power (length pattern) 1 ∙ ap (λ k. k % modulus) (omega arith) in
    let nonempty : (suc (length pattern) == 0) ≡ false = ground arith in
    let one_less : suc (length pattern) - 1 ≡ length pattern = omega arith in
    rw (nonempty, long, one_less, hashes, order)
      (windows_loop-occurrences (suc (length (window ++ rest))) (length pattern) [] window rest
        (p ∷ pattern) 0 (value 0 window % modulus) [] refl m refl sw sr refl
        (omega (arith, length-append window rest)))

-- In a text and a nonempty pattern of symbols below 2 ^ 34, `rabin_karp_search` finds the positions
-- where the pattern stands, in ascending order, and no others.
pub rabin_karp_search-occurrences :
    (text pattern : List ℕ)
    → 0 < length pattern
    → AreSmall text
    → AreSmall pattern
    → rabin_karp_search text pattern ≡ some (occurrences 0 pattern text)
unfolding rabin_karp_search
rabin_karp_search-occurrences text [] h st sp = absurd (omega (arith, h))
rabin_karp_search-occurrences text (p ∷ pattern) h st sp =
    elim (Bool-cases (ltb (length text) (suc (length pattern)))) [
      | inl short ↦
          let nonempty : (suc (length pattern) == 0) ≡ false = ground arith in
          rw (short, nonempty, occurrences_short 0 (p ∷ pattern) text (ltb→lt _ _ short)) refl
      | inr long ↦
          let (window, rest, e, m) = cut (suc (length pattern)) text (ltb_false→le _ _ long) in
          let small = All-of_append (λ c. c < 2 ^ 34) window rest (subst AreSmall e st) in
          rw e (search_windows p pattern window rest m sp small.0 small.1)
    ]
