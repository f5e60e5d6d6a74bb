-- ===== src/OpenHash/Growth.antt =====
-- `grow_if_needed` and `insert` of include/openhash.hpp.
use native.Mathlib.Nat
use de_si_gnar.Prelude.{
  ℕ, suc, ◌+◌, ◌*◌, ◌%◌, ◌^◌, ◌<◌, ◌≤◌, ◌≡◌, ◌∙◌, ◌↔◌, refl, ap, Bool, true, false, Bool-cases,
  ◌==◌, ltb, ltb→lt, ltb_false→le, Option, none, some, ◌>>=◌, ◌⊎◌, inl, inr, List, [], ◌∷◌, length,
  arith,
}
use de_si_gnar.Prelude.Updates.{tally}
use de_si_gnar.OpenHash.{
  OaState, empty, occupied, deleted, OaEntry, HashTable, count_occupied, rehash, reinsert,
  next_pow2, grow_if_needed, insert,
}
use de_si_gnar.OpenHash.Probe.{pow2, pow2_pos, pow2-suc}
use de_si_gnar.OpenHash.Laws.{IsSetting, IsValid, Has, find_slot-IsFound, not_length, self}
use de_si_gnar.OpenHash.Insertion.{HasRoom, raw_insert-IsAdded}
use de_si_gnar.OpenHash.Fresh.{
  next_pow2-pow2, fresh, fresh-IsValid, no_keys, length-make_empty_table,
}
use de_si_gnar.OpenHash.Rehash.{reinsert-IsMoved}

module _ {ℓ} {K : Type ℓ} where
  count-le-one :
      (q : OaState) (key : Option K) → count_occupied (record { state = q; key = key }) ≤ 1
  count-le-one empty key = omega arith
  count-le-one occupied key = omega arith
  count-le-one deleted key = omega arith

  tally-le-length : (table : List (OaEntry K)) → tally count_occupied table ≤ length table
  tally-le-length [] = omega arith
  tally-le-length (e ∷ table) = omega (arith, tally-le-length table, count-le-one e.state e.key)

module _ {ℓ} {K : Type ℓ} (cmp : K → K → Bool) (hash_fct : K → ℕ) (probe : ℕ → ℕ → ℕ → ℕ → ℕ)
    (setting : IsSetting cmp hash_fct probe) where
  -- A table with the same keys and room for another.
  record IsGrown (t : HashTable K) (res : Option (HashTable K)) : Type ℓ where
    after : HashTable K
    result : res ≡ some after
    valid : IsValid cmp hash_fct probe after
    room : HasRoom after
    content : (x : K) → Has after x ↔ Has t x

  rehash_to :
      (t : HashTable K) (n cap : ℕ) (after : HashTable K)
      → next_pow2 n ≡ some cap
      → reinsert hash_fct probe (fresh cmp hash_fct probe cap) t.table ≡ some after
      → after.num_items ≡ t.num_items
      → rehash hash_fct probe t n ≡ some after
  unfolding rehash
  rehash_to t n cap after e moved same =
      let kept : (after.num_items == t.num_items) ≡ true = ground (arith, same) in
      rw (e, ◌>>=◌, moved, kept) refl

  rehash-IsGrown :
      (t : HashTable K)
      → IsValid cmp hash_fct probe t
      → length t.table ≤ 2 ^ 62
      → IsGrown t (rehash hash_fct probe t (length t.table * 2 % 2 ^ 64))
  rehash-IsGrown t v small =
      let k = suc v.order in
      let double : length t.table * 2 % 2 ^ 64 ≡ pow2 (suc k) =
        omega (arith, small, v.size, pow2-suc k) in
      let twice : pow2 (suc k) ≡ length t.table * 2 = omega (arith, v.size, pow2-suc k) in
      let size = length-make_empty_table K (pow2 (suc k)) in
      let m =
        reinsert-IsMoved cmp hash_fct probe setting (fresh cmp hash_fct probe (pow2 (suc k)))
          t.table (fresh-IsValid cmp hash_fct probe k (omega (arith, twice, small)))
          (record { keyed = v.slots.keyed; unique = v.slots.unique })
          (omega (arith, size, twice, tally-le-length t.table, v.size, pow2_pos k))
          (λ x y s h a. absurd (no_keys K (pow2 (suc k)) h.0 (some x) h.1)) in
      record {
        after = m.after;
        result =
            ap (rehash hash_fct probe t) double
            ∙ rehash_to t (pow2 (suc k)) (pow2 (suc k)) m.after
                (next_pow2-pow2 k (omega (arith, twice, small))) m.result
                (omega (arith, m.items, v.items));
        valid = m.valid;
        room = omega (
          arith,
          m.size,
          m.items,
          m.tombstones,
          size,
          twice,
          tally-le-length t.table,
          v.size,
          pow2_pos k,
        );
        content = λ x. (
          λ h. elim ((m.content x).0 h) [
            | inl there ↦ absurd (no_keys K (pow2 (suc k)) there.0 (some x) there.1)
            | inr old ↦ old
          ],
          λ h. (m.content x).1 (inr h),
        );
      }

  module _ (alpha_num alpha_den : ℕ) (at_most_one : alpha_num ≤ alpha_den) where
    below_load : (n size : ℕ) → n * alpha_den < alpha_num * size → n < size
    below_load n size h = elim (Bool-cases (ltb n size)) [
      | inl fits ↦ ltb→lt _ _ fits
      | inr full ↦
          let more = Nat.mul-le-mul at_most_one (ltb_false→le _ _ full) in
          absurd (omega (arith, h, more, Nat.mul_comm n alpha_den))
    ]

    grow-IsGrown :
        (t : HashTable K)
        → IsValid cmp hash_fct probe t
        → length t.table ≤ 2 ^ 62
        → IsGrown t (grow_if_needed hash_fct probe alpha_num alpha_den t)
    unfolding grow_if_needed
    grow-IsGrown t v small =
        elim (Bool-cases
          (ltb ((t.num_items + t.num_tombstones) * alpha_den) (alpha_num * length t.table))) [
            | inl loose ↦ rw loose (record {
              after = t;
              result = refl;
              valid = v;
              room = below_load _ _ (ltb→lt _ _ loose);
              content = λ x. (λ h. h, λ h. h);
            })
            | inr tight ↦ rw tight (rehash-IsGrown t v small)
          ]

    -- The keys are compared by an equality, equal keys have one hash, and the policy visits
    -- each slot. At a valid table of up to 2 ^ 62 slots, with an upper load factor of at
    -- most one, `insert` then ends with a valid table, whether or not it grows. Where a key
    -- was equal to `k`, nothing changes and `nullptr` is reported; otherwise the table
    -- holds `k` and the keys that it held.
    pub insert-Has :
        (t : HashTable K) (k : K)
        → IsValid cmp hash_fct probe t
        → length t.table ≤ 2 ^ 62
        → ((insert cmp hash_fct probe alpha_num alpha_den t k ≡ some (t, none))
            × ((x : K) × Has t x × (cmp x k ≡ true)))
          ⊎ ((t' : HashTable K) × (insert cmp hash_fct probe alpha_num alpha_den t k
                ≡ some (t', some k))
              × IsValid cmp hash_fct probe t'
              × ((x : K) → Has t x → cmp x k ≡ false)
              × ((x : K) → Has t' x ↔ (Has t x ⊎ (x ≡ k))))
    unfolding insert
    insert-Has t k v small = elim (find_slot-IsFound cmp hash_fct probe setting t k v) [
      | inr (s, x, found, a, same) ↦
          inl (
            rw (found, ◌>>=◌, not_length cmp hash_fct probe setting t s x a) refl,
            (x, (s, a), same),
          )
      | inl missing ↦
          let g = grow-IsGrown t v small in
          let apart : (x : K) → Has g.after x → cmp x k ≡ false =
            λ x h. let old = (g.content x).0 h in missing.1 old.0 x old.1 in
          let a =
            raw_insert-IsAdded cmp hash_fct probe setting g.after k g.valid
              (λ j x h. apart x (j, h)) g.room in
          inr (
            a.after,
            rw
                (
                  missing.0,
                  ◌>>=◌,
                  self cmp hash_fct probe setting (length t.table),
                  g.result,
                  a.result,
                )
                refl,
            a.valid,
            λ x h. missing.1 h.0 x h.1,
            λ x. (
              λ h. elim ((a.content x).0 h) [
                | inl there ↦ inl ((g.content x).0 there)
                | inr new ↦ inr new
              ],
              λ h.
                  (a.content x).1
                    (elim h [ inl there ↦ inl ((g.content x).1 there) | inr new ↦ inr new ]),
            ),
          )
    ]
