-- ===== src/OpenHash/Laws.antt =====
-- The class `OpenAddressingHashTable` of include/openhash.hpp: its invariant, `search` and `remove`.
use Prim.Native.Nat.{bit_and}
use de_si_gnar.Prelude.{
  ℕ, suc, ◌+◌, ◌-◌, ◌*◌, ◌/◌, ◌%◌, ◌^◌, ◌<◌, ◌≤◌, ◌≡◌, ◌∙◌, ◌↔◌, refl, sym, ap, subst, Bool, true,
  false, Bool-cases, inl, inr, ◌==◌, none, some, some_inj, ◌>>=◌, ◌⊎◌, length, in_range, arith,
}
use de_si_gnar.Prelude.Updates.{set, tally, tally-set, length-set}
use de_si_gnar.OpenHash.{
  HashTable, count_occupied, count_deleted, secondary_hash, find_slot, search, remove, verify,
}
use de_si_gnar.OpenHash.Probe.{pow2, pow2_pos, IsProbing}
use de_si_gnar.OpenHash.Table.{IsEquality, IsTable, At, holding, tombstone, state_at}
use de_si_gnar.OpenHash.Find.{IsFound, find_loop-IsFound}
use de_si_gnar.OpenHash.Place.{IsTable-buried, buried}

-- What the class takes as parameters: an equality of keys, a hash that equal keys share, a policy for
-- the probes.
pub record IsSetting {ℓ} {K : Type ℓ} (cmp : K → K → Bool) (hash_fct : K → ℕ)
    (probe : ℕ → ℕ → ℕ → ℕ → ℕ) : Type ℓ where
  pub equality : IsEquality cmp
  pub hashes : (x y : K) → cmp x y ≡ true → hash_fct x ≡ hash_fct y
  pub probing : IsProbing probe

module _ {ℓ} {K : Type ℓ} where
  -- The table holds the key `x`.
  abbrev pub Has : HashTable K → K → Type ℓ
  Has t x = (s : ℕ) × At t.table s x

module _ {ℓ} {K : Type ℓ} (cmp : K → K → Bool) (hash_fct : K → ℕ) (probe : ℕ → ℕ → ℕ → ℕ → ℕ) where
  -- The slots that the probes for `x` visit in a table of `cap` slots.
  abbrev pub way : ℕ → K → ℕ → ℕ
  way cap x i =
      probe (bit_and (hash_fct x) (cap - 1)) (2 * (hash_fct x / cap % (cap / 2)) + 1) i cap

  -- Two slots at least, a power of two of them up to `2 ^ 63`; each key can be found; the counts are right.
  pub record IsValid (t : HashTable K) : Type ℓ where
    pub order : ℕ
    pub size : length t.table ≡ pow2 (suc order)
    pub fits : length t.table ≤ 2 ^ 63
    pub slots : IsTable cmp (way (length t.table)) t.table
    pub items : t.num_items ≡ tally count_occupied t.table
    pub tombstones : t.num_tombstones ≡ tally count_deleted t.table

  pub hash_defined :
      (t : HashTable K) (raw : ℕ)
      → IsValid t
      → secondary_hash raw (length t.table)
        ≡ some (2 * (raw / length t.table % (length t.table / 2)) + 1)
  unfolding secondary_hash pow2
  hash_defined t raw v =
      let nonzero : (length t.table / 2 == 0) ≡ false = ground (arith, v.size, pow2_pos v.order) in
      rw nonzero refl

  module _ (setting : IsSetting cmp hash_fct probe) where
    pub way-within :
        (t : HashTable K) → IsValid t → (x : K) (i : ℕ) → way (length t.table) x i < length t.table
    way-within t v x i =
        subst (λ n. way n x i < n) (sym v.size) (setting.probing.in_range (suc v.order) _ _ i)

    pub way-equal : (cap : ℕ) (x y : K) (i : ℕ) → cmp x y ≡ true → way cap x i ≡ way cap y i
    way-equal cap x y i same =
        ap (λ h. probe (bit_and h (cap - 1)) (2 * (h / cap % (cap / 2)) + 1) i cap)
          (setting.hashes x y same)

    pub find_slot-IsFound :
        (t : HashTable K) (k : K)
        → IsValid t
        → IsFound cmp t.table k (find_slot cmp hash_fct probe t k)
    unfolding find_slot
    find_slot-IsFound t k v = rw (hash_defined t (hash_fct k) v) (
        find_loop-IsFound cmp (way (length t.table)) t.table k v.slots
          (λ x i same. way-equal (length t.table) x k i same) (way-within t v k))

    pub not_length :
        (t : HashTable K) (s : ℕ) (x : K) → At t.table s x → (s == length t.table) ≡ false
    not_length t s x a = ground (arith, in_range t.table s (holding x) a)

    pub self : (n : ℕ) → (n == n) ≡ true
    self n = ground arith

    -- The keys are compared by an equality, equal keys have one hash, and the policy visits
    -- each slot. At a valid table, `search` then ends: it gives a key that is equal to `k`
    -- where the table holds one, and `nullptr` only where it holds none.
    pub search-Has :
        (t : HashTable K) (k : K)
        → IsValid t
        → ((search cmp hash_fct probe t k ≡ some none) × ((x : K) → Has t x → cmp x k ≡ false))
          ⊎ ((x : K) × (search cmp hash_fct probe t k ≡ some (some x)) × Has t x × (cmp x k ≡ true))
    unfolding search
    search-Has t k v = elim (find_slot-IsFound t k v) [
      | inl missing ↦
          inl (rw (missing.0, ◌>>=◌, self (length t.table)) refl, λ x h. missing.1 h.0 x h.1)
      | inr (s, x, found, a, same) ↦
          inr (x, rw (found, ◌>>=◌, not_length t s x a, a) refl, (s, a), same)
    ]

    -- Where `x` was the key equal to `k`, the others are not equal to `k`.
    left_over :
        (t : HashTable K) (k : K)
        → IsValid t
        → (s : ℕ) (x : K) (a : At t.table s x) → cmp x k ≡ true
        → (y : K) → ((j : ℕ) × At (set t.table s tombstone) j y) ↔ (Has t y × (cmp y k ≡ false))
    left_over t k v s x a same y =
        let content = λ (j : ℕ).
          buried cmp setting.equality (way (length t.table)) t.table v.slots s (holding x) a j y in
        (
          λ h.
              let old = (content h.0).0 h.1 in
              (
                (h.0, old.1),
                elim (Bool-cases (cmp y k)) [
                  | inl also ↦ absurd (
                      old.0 (
                        v.slots.unique h.0 s y x old.1 a
                          (setting.equality.chain y k x also (setting.equality.back x k same))))
                  | inr other ↦ other
                ],
              ),
          λ h. (
            h.0.0,
            (content h.0.0).1 (
              λ e.
                  let x_y = (state_at a (subst (λ n. At t.table n y) e h.0.1)).1 in
                  let clash = subst (λ z. cmp z k ≡ true) (some_inj x_y) same in cc,
              h.0.1,
            ),
          ),
        )

    -- The keys are compared by an equality, equal keys have one hash, and the policy visits
    -- each slot. At a valid table, `remove` then ends with a valid table. It reports `true`
    -- where a key was equal to `k`, and the table then holds the keys that are not equal to
    -- `k`; it reports `false`, and the table holds the same keys, where none was.
    pub remove-Has :
        (t : HashTable K) (k : K)
        → IsValid t
        → (t' : HashTable K) × (done : Bool) × (remove cmp hash_fct probe t k ≡ some (t', done))
          × IsValid t'
          × ((x : K) → Has t' x ↔ (Has t x × (cmp x k ≡ false)))
          × ((done ≡ true) ↔ ((x : K) × Has t x × (cmp x k ≡ true)))
    unfolding remove
    remove-Has t k v = elim (find_slot-IsFound t k v) [
      | inl missing ↦ (
        t,
        false,
        rw (missing.0, ◌>>=◌, self (length t.table)) refl,
        v,
        λ x. (λ h. (h, missing.1 h.0 x h.1), λ h. h.0),
        (λ e. cc, λ h. sym (missing.1 h.1.0 h.0 h.1.1) ∙ h.2),
      )
      | inr (s, x, found, a, same) ↦
          let t' : HashTable K = record {
            table = set t.table s tombstone;
            num_items = t.num_items - 1;
            num_tombstones = t.num_tombstones + 1;
          } in
          (
            t',
            true,
            rw (found, ◌>>=◌, not_length t s x a) refl,
            record {
              order = v.order;
              size = length-set t.table s tombstone ∙ v.size;
              fits = omega (arith, length-set t.table s tombstone, v.fits);
              slots =
                  subst (λ n. IsTable cmp (way n) (set t.table s tombstone))
                    (sym (length-set t.table s tombstone))
                    (IsTable-buried cmp setting.equality (way (length t.table)) t.table v.slots s
                      (holding x) a);
              items =
                  omega
                    (arith, v.items, tally-set count_occupied t.table s (holding x) tombstone a);
              tombstones =
                  omega (
                    arith,
                    v.tombstones,
                    tally-set count_deleted t.table s (holding x) tombstone a,
                  );
            },
            λ y. left_over t k v s x a same y,
            (λ e. (x, (s, a), same), λ h. refl),
          )
    ]

  -- `verify` accepts each valid table.
  pub verify-accepts_valid : (t : HashTable K) → IsValid t → verify t ≡ true
  unfolding verify
  verify-accepts_valid t v = ground (arith, v.items, v.tombstones)
