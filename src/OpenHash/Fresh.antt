-- ===== src/OpenHash/Fresh.antt =====
-- An empty table of include/openhash.hpp, and the number of its slots, which `next_pow2` finds.
use de_si_gnar.Prelude.{
  ℕ, zero, suc, ◌+◌, ◌*◌, ◌%◌, ◌^◌, ◌<◌, ◌≤◌, ◌≡◌, ◌∙◌, refl, sym, ap, Bool, Bool-cases, ltb,
  ltb→lt, lt→ltb, ltb_false→le, Option, some, inl, inr, get_elem?, length, arith, some_inj,
}
use de_si_gnar.Prelude.Updates.{tally}
use de_si_gnar.OpenHash.{
  empty, occupied, OaEntry, HashTable, count_occupied, count_deleted, make_empty_table,
  next_pow2_loop, next_pow2,
}
use de_si_gnar.OpenHash.Probe.{pow2, pow2-suc, pow2_pos, pow2_mono}
use de_si_gnar.OpenHash.Laws.{IsValid}

not_past : (j : ℕ) → pow2 j < 2 ^ 63 → ¬ (63 ≤ j)
unfolding pow2
not_past j h past = let top : 2 ^ 63 ≤ pow2 j = pow2_mono 63 j past in omega (arith, top, h)

small_enough : (j : ℕ) → pow2 j < 2 ^ 63 → pow2 (suc j) ≤ 2 ^ 63
unfolding pow2
small_enough j h = elim (Bool-cases (ltb j 63)) [
  | inl less ↦ pow2_mono (suc j) 63 (omega (arith, ltb→lt _ _ less))
  | inr past ↦ absurd (not_past j h (ltb_false→le _ _ past))
]

-- From a power of two below `n`, the loop of `next_pow2` ends at the least one that is not.
next_pow2_loop-least :
    (fuel j n : ℕ)
    → pow2 j < n
    → n ≤ 2 ^ 63
    → 65 ≤ fuel + j
    → (k : ℕ) × (next_pow2_loop fuel (pow2 j) n ≡ some (pow2 (suc k)))
      × (n ≤ pow2 (suc k))
      × (pow2 (suc k) < n * 2)
      × (pow2 (suc k) ≤ 2 ^ 63)
unfolding next_pow2_loop pow2
next_pow2_loop-least zero j n below fits enough =
    absurd (not_past j (omega (arith, below, fits)) (omega (arith, enough)))
next_pow2_loop-least (suc zero) j n below fits enough =
    absurd (not_past j (omega (arith, below, fits)) (omega (arith, enough)))
next_pow2_loop-least (suc (suc fuel)) j n below fits enough =
    let exact : pow2 j * 2 % 2 ^ 64 ≡ pow2 (suc j) = omega (arith, below, fits) in
    elim (Bool-cases (ltb (pow2 (suc j)) n)) [
      | inl again ↦
          let (k, found, enough', few, small) =
            next_pow2_loop-least (suc fuel) (suc j) n (ltb→lt _ _ again) fits
              (omega (arith, enough)) in
          (k, rw (lt→ltb _ _ below, exact) found, enough', few, small)
      | inr last ↦ (
        j,
        rw (lt→ltb _ _ below, exact, last) refl,
        ltb_false→le _ _ last,
        omega (arith, below),
        small_enough j (omega (arith, below, fits)),
      )
    ]

-- For 2 to 2 ^ 63, `next_pow2` ends with the least power of two that is not below.
pub next_pow2-least :
    (n : ℕ)
    → 2 ≤ n
    → n ≤ 2 ^ 63
    → (k : ℕ) × (next_pow2 n ≡ some (pow2 (suc k)))
      × (n ≤ pow2 (suc k))
      × (pow2 (suc k) < n * 2)
      × (pow2 (suc k) ≤ 2 ^ 63)
unfolding next_pow2 pow2
next_pow2-least n two fits = next_pow2_loop-least 65 0 n (omega (arith, two)) fits (omega arith)

-- A power of two is the least one that is not below itself.
pub next_pow2-pow2 :
    (k : ℕ) → pow2 (suc k) ≤ 2 ^ 63 → next_pow2 (pow2 (suc k)) ≡ some (pow2 (suc k))
next_pow2-pow2 k fits =
    let two : 2 ≤ pow2 (suc k) = omega (arith, pow2-suc k, pow2_pos k) in
    let (k', found, enough, few, small) = next_pow2-least (pow2 (suc k)) two fits in
    elim (Bool-cases (ltb k k')) [
      | inl more ↦
          let twice = pow2_mono (suc (suc k)) (suc k') (omega (arith, ltb→lt _ _ more)) in
          absurd (omega (arith, twice, pow2-suc (suc k), few))
      | inr no_more ↦
          let at_most = pow2_mono (suc k') (suc k) (omega (arith, ltb_false→le _ _ no_more)) in
          let same : pow2 (suc k') ≡ pow2 (suc k) = omega (arith, at_most, enough) in
          found ∙ ap some same
    ]

module _ {ℓ} (K : Type ℓ) where
  pub length-make_empty_table : (n : ℕ) → length (make_empty_table {K = K} n) ≡ n
  unfolding make_empty_table
  length-make_empty_table zero = refl
  length-make_empty_table (suc n) = ap suc (length-make_empty_table n)

  get-make_empty_table :
      (n s : ℕ) (e : OaEntry K)
      → get_elem? (make_empty_table {K = K} n) s ≡ some e
      → e.state ≡ empty
  unfolding make_empty_table
  get-make_empty_table zero s e h = cc
  get-make_empty_table (suc n) zero e h = ap (λ r. r.state) (sym (some_inj h))
  get-make_empty_table (suc n) (suc s) e h = get-make_empty_table n s e h

  tally-make_empty_table :
      (n : ℕ)
      → (tally count_occupied (make_empty_table {K = K} n) ≡ 0)
        × (tally count_deleted (make_empty_table {K = K} n) ≡ 0)
  unfolding make_empty_table
  tally-make_empty_table zero = (refl, refl)
  tally-make_empty_table (suc n) = let h = tally-make_empty_table n in omega (arith, h)

  -- A fresh table holds no key.
  pub no_keys :
      (n s : ℕ) (key : Option K)
      → ¬ (get_elem? (make_empty_table {K = K} n) s ≡ some (record { state = occupied; key = key }))
  no_keys n s key h = let clash = get-make_empty_table n s _ h in cc

module _ {ℓ} {K : Type ℓ} (cmp : K → K → Bool) (hash_fct : K → ℕ) (probe : ℕ → ℕ → ℕ → ℕ → ℕ) where
  abbrev pub fresh : ℕ → HashTable K
  fresh n = record { table = make_empty_table n; num_items = 0; num_tombstones = 0 }

  pub fresh-IsValid :
      (k : ℕ) → pow2 (suc k) ≤ 2 ^ 63 → IsValid cmp hash_fct probe (fresh (pow2 (suc k)))
  fresh-IsValid k fits =
      let n = pow2 (suc k) in
      let counts = tally-make_empty_table K n in
      record {
        order = k;
        size = length-make_empty_table K n;
        fits = omega (arith, length-make_empty_table K n, fits);
        slots = record {
          keyed = λ s key h. absurd (no_keys K n s key h);
          reached = λ s x h. absurd (no_keys K n s (some x) h);
          unique = λ s s' x y h h' same. absurd (no_keys K n s (some x) h);
        };
        items = sym counts.0;
        tombstones = sym counts.1;
      }
