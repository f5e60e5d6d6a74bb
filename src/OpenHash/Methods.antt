-- ===== src/OpenHash/Methods.antt =====
-- The other methods of `OpenAddressingHashTable` (include/openhash.hpp): the constructor, `clear`,
-- and `search_or_insert`.
use de_si_gnar.Prelude.{
  ℕ, zero, suc, ◌*◌, ◌^◌, ◌<◌, ◌≤◌, ◌≡◌, ◌∙◌, refl, sym, ap, Bool, true, false, Option, none, some,
  some_inj, ◌>>=◌, ◌⊎◌, inl, inr, List, [], ◌∷◌, get_elem?, length, arith,
}
use de_si_gnar.Prelude.Updates.{tally}
use de_si_gnar.OpenHash.{
  occupied, OaEntry, HashTable, count_occupied, count_deleted, insert, clear_slots, clear,
  new_table, search_or_insert, grow_if_needed, raw_insert,
}
use de_si_gnar.OpenHash.Probe.{pow2}
use de_si_gnar.OpenHash.Laws.{IsSetting, IsValid, Has, search-Has, find_slot-IsFound, self}
use de_si_gnar.OpenHash.Growth.{insert-Has}
use de_si_gnar.OpenHash.Fresh.{fresh-IsValid, next_pow2-least, no_keys, length-make_empty_table}

module _ {ℓ} (K : Type ℓ) where
  length-clear_slots : (table : List (OaEntry K)) → length (clear_slots table) ≡ length table
  unfolding clear_slots
  length-clear_slots [] = refl
  length-clear_slots (e ∷ table) = ap suc (length-clear_slots table)

  tally-clear_slots :
      (table : List (OaEntry K))
      → (tally count_occupied (clear_slots table) ≡ 0)
        × (tally count_deleted (clear_slots table) ≡ 0)
  unfolding clear_slots
  tally-clear_slots [] = (refl, refl)
  tally-clear_slots (e ∷ table) = let h = tally-clear_slots table in omega (arith, h)

  cleared :
      (table : List (OaEntry K)) (s : ℕ) (key : Option K)
      → ¬ (get_elem? (clear_slots table) s ≡ some (record { state = occupied; key = key }))
  unfolding clear_slots
  cleared [] s key h = cc
  cleared (e ∷ table) zero key h = let clash = ap (λ r. r.state) (some_inj h) in cc
  cleared (e ∷ table) (suc s) key h = cleared table s key h

module _ {ℓ} {K : Type ℓ} (cmp : K → K → Bool) (hash_fct : K → ℕ) (probe : ℕ → ℕ → ℕ → ℕ → ℕ) where
  -- `clear` leaves a valid table with as many slots and no key.
  pub clear-Has :
      (t : HashTable K)
      → IsValid cmp hash_fct probe t
      → IsValid cmp hash_fct probe (clear t)
        × (length (clear t).table ≡ length t.table)
        × ((x : K) → ¬ (Has (clear t) x))
  unfolding clear
  clear-Has t v =
      let counts = tally-clear_slots K t.table in
      (
        record {
          order = v.order;
          size = length-clear_slots K t.table ∙ v.size;
          fits = omega (arith, length-clear_slots K t.table, v.fits);
          slots = record {
            keyed = λ s key h. absurd (cleared K t.table s key h);
            reached = λ s x h. absurd (cleared K t.table s (some x) h);
            unique = λ s s' x y h h' same. absurd (cleared K t.table s (some x) h);
          };
          items = sym counts.0;
          tombstones = sym counts.1;
        },
        length-clear_slots K t.table,
        λ x h. cleared K t.table h.0 (some x) h.1,
      )

  -- The constructor, asked for 2 to 2 ^ 63 slots, ends with a valid table without a key, of at least
  -- as many slots and less than twice as many.
  pub new_table-Has :
      (n : ℕ)
      → 2 ≤ n
      → n ≤ 2 ^ 63
      → (t : HashTable K) × (new_table n ≡ some t)
        × IsValid cmp hash_fct probe t
        × (n ≤ length t.table)
        × (length t.table < n * 2)
        × ((x : K) → ¬ (Has t x))
  unfolding new_table
  new_table-Has n two fits =
      let (k, found, enough, few, small) = next_pow2-least n two fits in
      let size = length-make_empty_table K (pow2 (suc k)) in
      (
        _,
        rw found refl,
        fresh-IsValid cmp hash_fct probe k small,
        omega (arith, size, enough),
        omega (arith, size, few),
        λ x h. no_keys K (pow2 (suc k)) h.0 (some x) h.1,
      )

  -- What `insert` and `search_or_insert` hand out with a new table.
  abbrev reported : K → HashTable K → HashTable K × Option K
  reported k t = (t, some k)

  abbrev handed : K → HashTable K → HashTable K × K
  handed k t = (t, k)

  repack_last :
      (k : K) (m : Option (HashTable K)) (t : HashTable K)
      → (m >>= λ b. some (reported k b)) ≡ some (reported k t)
      → (m >>= λ b. some (handed k b)) ≡ some (handed k t)
  repack_last k none t h = cc
  repack_last k (some b) t h = ap (λ r. some (handed k r.0)) (some_inj h)

  repack :
      (k : K) (g : Option (HashTable K)) (r : HashTable K → Option (HashTable K)) (t : HashTable K)
      → (g >>= λ a. r a >>= λ b. some (reported k b)) ≡ some (reported k t)
      → (g >>= λ a. r a >>= λ b. some (handed k b)) ≡ some (handed k t)
  repack k none r t h = cc
  repack k (some a) r t h = repack_last k (r a) t h

  module _ (setting : IsSetting cmp hash_fct probe) (alpha_num alpha_den : ℕ)
      (at_most_one : alpha_num ≤ alpha_den) where
    -- Where `search` finds nothing, `insert` grows the table and puts the key in.
    inserted :
        (t : HashTable K) (k : K) {res : Option (HashTable K × Option K)}
        → IsValid cmp hash_fct probe t
        → ((x : K) → Has t x → cmp x k ≡ false)
        → insert cmp hash_fct probe alpha_num alpha_den t k ≡ res
        → (do
          a ← grow_if_needed hash_fct probe alpha_num alpha_den t
          b ← raw_insert hash_fct probe a k
          some (b, some k))
          ≡ res
    unfolding insert
    inserted t k v missing e = elim (find_slot-IsFound cmp hash_fct probe setting t k v) [
      | inl absent ↦ (rw (absent.0, ◌>>=◌, self cmp hash_fct probe setting (length t.table)) at e)
      | inr (s, x, found, a, same) ↦ let clash = sym (missing x (s, a)) ∙ same in cc
    ]

    -- The keys are compared by an equality, equal keys have one hash, and the policy visits
    -- each slot. At a valid table of up to 2 ^ 62 slots, with an upper load factor of at
    -- most one, `search_or_insert` then gives a key that is equal to `k` where one is
    -- there, and leaves the table as it is; otherwise it gives `k`, and leaves the table
    -- that `insert` leaves.
    pub search_or_insert-insert :
        (t : HashTable K) (k : K)
        → IsValid cmp hash_fct probe t
        → length t.table ≤ 2 ^ 62
        → ((x : K) × (search_or_insert cmp hash_fct probe alpha_num alpha_den t k ≡ some (t, x))
            × Has t x
            × (cmp x k ≡ true))
          ⊎ ((t' : HashTable K) × (search_or_insert cmp hash_fct probe alpha_num alpha_den t k
                ≡ some (t', k))
              × (insert cmp hash_fct probe alpha_num alpha_den t k ≡ some (t', some k)))
    unfolding search_or_insert
    search_or_insert-insert t k v small = elim (search-Has cmp hash_fct probe setting t k v) [
      | inr (x, found, there, same) ↦ inl (x, rw found refl, there, same)
      | inl missing ↦
          elim (insert-Has cmp hash_fct probe setting alpha_num alpha_den at_most_one t k v small) [
            | inl present ↦
                let (x, there, same) = present.1 in let clash = sym (missing.1 x there) ∙ same in cc
            | inr added ↦ inr (
              added.0,
              rw missing.0 (
                  repack k (grow_if_needed hash_fct probe alpha_num alpha_den t)
                    (λ a. raw_insert hash_fct probe a k) added.0
                    (inserted t k v missing.1 added.1)),
              added.1,
            )
          ]
    ]
