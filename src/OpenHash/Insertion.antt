-- ===== src/OpenHash/Insertion.antt =====
-- `raw_insert` of include/openhash.hpp: with an empty slot left, a key that is not there is put into a
-- slot where a search finds it.
use de_si_gnar.Prelude.{
  ℕ, suc, ◌+◌, ◌-◌, ◌<◌, ◌≤◌, ◌≡◌, ◌∙◌, ◌↔◌, refl, sym, subst, Bool, false, Option, some, ◌⊎◌, inl,
  inr, List, [], ◌∷◌, get_elem?, length, arith,
}
use de_si_gnar.Prelude.Updates.{set, tally, tally-set, length-set}
use de_si_gnar.OpenHash.{
  OaState, empty, occupied, deleted, OaEntry, HashTable, count_occupied, count_deleted, raw_insert,
}
use native.Mathlib.Nat
use de_si_gnar.OpenHash.Probe.{pow2, pow2_pos, bit_and-mask}
use de_si_gnar.OpenHash.Table.{IsTable, IsReached, At, holding}
use de_si_gnar.OpenHash.Target.{InState, target_loop-IsTarget}
use de_si_gnar.OpenHash.Place.{IsTable-placed, placed-At}
use de_si_gnar.OpenHash.Laws.{IsSetting, IsValid, Has, way, way-within, hash_defined}

module _ {ℓ} {K : Type ℓ} where
  or_later :
      (q : OaState) (key : Option K) (table : List (OaEntry K))
      → tally count_occupied (record { state = q; key = key } ∷ table)
          + tally count_deleted (record { state = q; key = key } ∷ table)
        < suc (length table)
      → (tally count_occupied table + tally count_deleted table < length table
          → (s : ℕ) × (s < length table) × InState table s empty)
      → (s : ℕ) × (s < suc (length table))
        × InState (record { state = q; key = key } ∷ table) s empty
  or_later empty key table h later = (0, omega arith, (key, refl))
  or_later occupied key table h later =
      let (s, within, there) = later (omega (arith, h)) in (suc s, omega (arith, within), there)
  or_later deleted key table h later =
      let (s, within, there) = later (omega (arith, h)) in (suc s, omega (arith, within), there)

  -- With fewer keys and tombstones than slots, a slot is empty.
  some_empty :
      (table : List (OaEntry K))
      → tally count_occupied table + tally count_deleted table < length table
      → (s : ℕ) × (s < length table) × InState table s empty
  some_empty [] h = absurd (omega (arith, h))
  some_empty (e ∷ table) h = or_later e.state e.key table h (some_empty table)

  -- Fewer keys and tombstones than slots.
  abbrev pub HasRoom : HashTable K → Type 0
  HasRoom t = t.num_items + t.num_tombstones < length t.table

module _ {ℓ} {K : Type ℓ} (cmp : K → K → Bool) (hash_fct : K → ℕ) (probe : ℕ → ℕ → ℕ → ℕ → ℕ)
    (setting : IsSetting cmp hash_fct probe) where
  -- An insertion of `k` into `t`.
  pub record IsAdded (t : HashTable K) (k : K) (res : Option (HashTable K)) : Type ℓ where
    pub after : HashTable K
    pub result : res ≡ some after
    pub valid : IsValid cmp hash_fct probe after
    pub size : length after.table ≡ length t.table
    pub items : after.num_items ≡ t.num_items + 1
    pub tombstones : after.num_tombstones ≤ t.num_tombstones
    pub content : (x : K) → Has after x ↔ (Has t x ⊎ (x ≡ k))

  module _ (t : HashTable K) (k : K) (v : IsValid cmp hash_fct probe t)
      (absent : (j : ℕ) (x : K) → At t.table j x → cmp x k ≡ false) where
    -- The new state where the key is written into slot `s`, which was not occupied.
    written_at :
        (s n : ℕ) (d : OaEntry K)
        → get_elem? t.table s ≡ some d
        → ¬ (d.state ≡ occupied)
        → count_occupied d ≡ 0
        → n + count_deleted d ≡ t.num_tombstones
        → IsReached (way cmp hash_fct probe (length t.table) k) t.table s
        → IsAdded t k (
            some (record {
              table = set t.table s (holding k);
              num_items = t.num_items + 1;
              num_tombstones = n;
            }))
    written_at s n d was free no_key tombs r =
        let same_size = length-set t.table s (holding k) in
        let occupied_now = tally-set count_occupied t.table s d (holding k) was in
        let deleted_now = tally-set count_deleted t.table s d (holding k) was in
        let placed =
          placed-At cmp setting.equality (way cmp hash_fct probe (length t.table)) t.table v.slots s
            d was k free r absent in
        record {
          after = record {
            table = set t.table s (holding k);
            num_items = t.num_items + 1;
            num_tombstones = n;
          };
          result = refl;
          valid = record {
            order = v.order;
            size = same_size ∙ v.size;
            fits = omega (arith, same_size, v.fits);
            slots =
                subst (λ m. IsTable cmp (way cmp hash_fct probe m) (set t.table s (holding k)))
                  (sym same_size)
                  (IsTable-placed cmp setting.equality (way cmp hash_fct probe (length t.table))
                    t.table v.slots s d was k free r absent);
            items = omega (arith, v.items, occupied_now, no_key);
            tombstones = omega (arith, v.tombstones, deleted_now, tombs);
          };
          size = same_size;
          items = refl;
          tombstones = omega (arith, tombs);
          content = λ x. (
            λ h. elim ((placed h.0 x).0 h.1) [ inl old ↦ inl (h.0, old) | inr new ↦ inr new.1 ],
            λ h. elim h [
              | inl old ↦ (old.0, (placed old.0 x).1 (inl old.1))
              | inr new ↦ (s, (placed s x).1 (inr (refl, new)))
            ],
          );
        }

    -- The probes for `k` reach each slot.
    to_slot :
        (s : ℕ)
        → s < length t.table
        → (i : ℕ) × (i < length t.table) × (way cmp hash_fct probe (length t.table) k i ≡ s)
    to_slot s within =
        subst (λ n. s < n → (i : ℕ) × (i < n) × (way cmp hash_fct probe n k i ≡ s)) (sym v.size)
          (λ h.
            setting.probing.covers (suc v.order) _ _ s (omega (arith, v.fits, v.size))
              (subst (λ n. n < pow2 (suc v.order)) (sym (bit_and-mask (suc v.order) (hash_fct k)))
                (Nat.mod-lt (hash_fct k) (pow2_pos (suc v.order))))
              (omega arith) h)
          within

    -- With room, `raw_insert` puts a key into the table that is not there.
    pub raw_insert-IsAdded : HasRoom t → IsAdded t k (raw_insert hash_fct probe t k)
    unfolding raw_insert
    raw_insert-IsAdded room =
        let path = way cmp hash_fct probe (length t.table) k in
        let (s, within, open_slot) =
          some_empty t.table (omega (arith, room, v.items, v.tombstones)) in
        let (goal, goal_within, ends) = to_slot s within in
        let target =
          target_loop-IsTarget path t.table (way-within cmp hash_fct probe setting t v k) goal
            goal_within (subst (λ n. InState t.table n empty) (sym ends) open_slot) in
        elim target [
          | inl (idx, found, r, (key, there)) ↦
              rw (hash_defined cmp hash_fct probe t (hash_fct k) v, found)
                (written_at idx t.num_tombstones (record { state = empty; key = key }) there
                  (λ e. cc) refl (omega arith) r)
          | inr (idx, at, found, r, (key, there)) ↦
              let one =
                tally-set count_deleted t.table at (record { state = deleted; key = key })
                  (holding k) there in
              rw (hash_defined cmp hash_fct probe t (hash_fct k) v, found)
                (written_at at (t.num_tombstones - 1) (record { state = deleted; key = key }) there
                  (λ e. cc) refl (omega (arith, v.tombstones, one)) r)
        ]
