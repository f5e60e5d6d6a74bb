-- ===== src/OpenHash.antt =====
-- `OpenAddressingHashTable` of include/openhash.hpp. The hash function, the comparison `cmp` (an
-- equality) and the policy `Probing` are parameters. The `DynArray` is a list, and `none` is an
-- access out of range, a division by zero, an exception, or fuel that ran out.
pub mod Probe
pub mod DoubleHashing
pub mod QuadraticProbing
pub mod Policies
pub mod Table
pub mod Find
pub mod Target
pub mod Place
pub mod Insertion
pub mod Fresh
pub mod Rehash
pub mod Growth
pub mod Methods
pub mod Laws
use Prim.Native.Nat.{bit_and}
use de_si_gnar.Prelude.{
  ℕ, zero, suc, ◌+◌, ◌-◌, ◌*◌, ◌/◌, ◌%◌, ◌^◌, ◌==◌, ltb, Bool, true, false, ◌&&◌, not, Option, none,
  some, ◌>>=◌, List, [], ◌∷◌, get_elem?, length, if◌then◌else◌,
}
use de_si_gnar.Prelude.Updates.{set, tally}

pub data OaState : Type 0 where
  empty : OaState
  occupied : OaState
  deleted : OaState

pub record OaEntry {ℓ} (K : Type ℓ) : Type ℓ where
  pub state : OaState
  pub key : Option K

-- The three policies: the slot of the `i`-th probe, in arithmetic modulo `2 ^ 64`.
unfoldable pub linear_probe : ℕ → ℕ → ℕ → ℕ → ℕ
linear_probe h1 h2 i cap = bit_and ((h1 + i) % 2 ^ 64) (cap - 1)

unfoldable pub quadratic_probe : ℕ → ℕ → ℕ → ℕ → ℕ
quadratic_probe h1 h2 i cap = bit_and ((h1 + i * (i + 1) % 2 ^ 64 / 2) % 2 ^ 64) (cap - 1)

unfoldable pub double_probe : ℕ → ℕ → ℕ → ℕ → ℕ
double_probe h1 h2 i cap = bit_and ((h1 + i * h2) % 2 ^ 64) (cap - 1)

-- `while (p < n) p <<= 1`, with fuel: 64 rounds at most, since `p` has 64 bits.
unfoldable pub next_pow2_loop : ℕ → ℕ → ℕ → Option ℕ
next_pow2_loop zero p n = none
next_pow2_loop (suc fuel) p n =
    let rest = next_pow2_loop fuel (p * 2 % 2 ^ 64) n in if ltb p n then rest else some p

unfoldable pub next_pow2 : ℕ → Option ℕ
unfolding next_pow2_loop
next_pow2 n = next_pow2_loop 65 1 n

module _ {ℓ} {K : Type ℓ} where
  abbrev pub empty_entry : OaEntry K
  empty_entry = record { state = empty; key = none }

  unfoldable pub make_empty_table : ℕ → List (OaEntry K)
  make_empty_table zero = []
  make_empty_table (suc cap) = empty_entry ∷ make_empty_table cap

  abbrev pub count_occupied : OaEntry K → ℕ
  count_occupied e = elim e.state [ empty ↦ 0 | occupied ↦ 1 | deleted ↦ 0 ]

  abbrev pub count_deleted : OaEntry K → ℕ
  count_deleted e = elim e.state [ empty ↦ 0 | occupied ↦ 0 | deleted ↦ 1 ]

pub record HashTable {ℓ} (K : Type ℓ) : Type ℓ where
  pub table : List (OaEntry K)
  pub num_items : ℕ
  pub num_tombstones : ℕ

-- `h2` of a raw hash, and `secondary_hash`.
unfoldable pub secondary_hash : ℕ → ℕ → Option ℕ
secondary_hash raw cap = if cap / 2 == 0 then none else some (2 * (raw / cap % (cap / 2)) + 1)

-- The loops over the probes: `path` gives the slot of each, and `rounds` is the number of probes left
-- from the `i`-th on.
module _ {ℓ} {K : Type ℓ} (cmp : K → K → Bool) (k : K) (path : ℕ → ℕ)
    (table : List (OaEntry K)) where
  abbrev pub hit : Option K → Option Bool
  hit key = do x ← key; some (cmp x k)

  unfoldable pub find_loop : ℕ → ℕ → Option ℕ
  find_loop zero i = some (length table)
  find_loop (suc rounds) i =
      let rest = find_loop rounds (i + 1) in
      do
        e ← get_elem? table (path i)
        elim e.state [
          | empty ↦ some (length table)
          | occupied ↦ do found ← hit e.key; if found then some (path i) else rest
          | deleted ↦ rest
        ]

-- `if (first_tombstone == cap) first_tombstone = idx`.
abbrev pub first_of : Option ℕ → ℕ → Option ℕ
first_of none idx = some idx
first_of (some t) idx = some t

-- The first slot that is `EMPTY`, and the first that was `DELETED` on the way there.
module _ {ℓ} {K : Type ℓ} (path : ℕ → ℕ) (table : List (OaEntry K)) where
  unfoldable pub target_loop : ℕ → ℕ → Option ℕ → Option (ℕ × Option ℕ)
  target_loop zero i first_tombstone = none
  target_loop (suc rounds) i first_tombstone =
      let rest = target_loop rounds (i + 1) in
      do
        e ← get_elem? table (path i)
        elim e.state [
          | empty ↦ some (path i, first_tombstone)
          | occupied ↦ rest first_tombstone
          | deleted ↦ rest (first_of first_tombstone (path i))
        ]

module _ {ℓ} {K : Type ℓ} where
  -- The slot is found and marked, and then the key is written into it. The key of a slot that holds
  -- a tombstone takes that tombstone off the count.
  abbrev pub occupy : HashTable K → K → ℕ × Option ℕ → HashTable K
  occupy t k (idx, none) = record {
    table = set t.table idx (record { state = occupied; key = some k });
    num_items = t.num_items + 1;
    num_tombstones = t.num_tombstones;
  }
  occupy t k (idx, some target) = record {
    table = set t.table target (record { state = occupied; key = some k });
    num_items = t.num_items + 1;
    num_tombstones = t.num_tombstones - 1;
  }

  abbrev pub key_at : HashTable K → ℕ → Option (Option K)
  key_at t idx = do e ← get_elem? t.table idx; x ← e.key; some (some x)

  unfoldable pub verify : HashTable K → Bool
  verify t =
      tally count_occupied t.table == t.num_items && tally count_deleted t.table == t.num_tombstones

  -- The keys stay in their slots, which are marked empty.
  unfoldable pub clear_slots : List (OaEntry K) → List (OaEntry K)
  clear_slots [] = []
  clear_slots (e ∷ table) = record { state = empty; key = e.key } ∷ clear_slots table

  unfoldable pub clear : HashTable K → HashTable K
  clear t = record { table = clear_slots t.table; num_items = 0; num_tombstones = 0 }

  -- The constructor, for a number of slots.
  unfoldable pub new_table : ℕ → Option (HashTable K)
  new_table size = do
    cap ← next_pow2 size
    some (record { table = make_empty_table cap; num_items = 0; num_tombstones = 0 })

module _ {ℓ} {K : Type ℓ} (hash_fct : K → ℕ) (probe : ℕ → ℕ → ℕ → ℕ → ℕ) where
  abbrev pub slots : K → ℕ → ℕ → ℕ → ℕ
  slots k cap h2 i = probe (bit_and (hash_fct k) (cap - 1)) h2 i cap

  unfoldable pub raw_insert : HashTable K → K → Option (HashTable K)
  raw_insert t k =
      let cap = length t.table in
      do
        h2 ← secondary_hash (hash_fct k) cap
        target ← target_loop (slots k cap h2) t.table cap 0 none
        some (occupy t k target)

  -- The loop of `rehash` over the old entries.
  unfoldable pub reinsert : HashTable K → List (OaEntry K) → Option (HashTable K)
  reinsert t [] = some t
  reinsert t (e ∷ old) = elim e.state [
    | empty ↦ reinsert t old
    | occupied ↦ do k ← e.key; t' ← raw_insert t k; reinsert t' old
    | deleted ↦ reinsert t old
  ]

  -- With the assertion that no key is lost.
  unfoldable pub rehash : HashTable K → ℕ → Option (HashTable K)
  rehash t new_cap = do
    cap ← next_pow2 new_cap
    t' ←
        reinsert (record { table = make_empty_table cap; num_items = 0; num_tombstones = 0 })
          t.table
    if t'.num_items == t.num_items then some t' else none

  module _ (alpha_num alpha_den : ℕ) where
    -- `alpha() < upper_alpha`, where `upper_alpha` is the fraction `alpha_num / alpha_den`.
    unfoldable pub grow_if_needed : HashTable K → Option (HashTable K)
    grow_if_needed t =
        if ltb ((t.num_items + t.num_tombstones) * alpha_den) (alpha_num * length t.table)
        then some t
        else rehash t (length t.table * 2 % 2 ^ 64)

module _ {ℓ} {K : Type ℓ} (cmp : K → K → Bool) (hash_fct : K → ℕ) (probe : ℕ → ℕ → ℕ → ℕ → ℕ) where
  unfoldable pub find_slot : HashTable K → K → Option ℕ
  find_slot t k =
      let cap = length t.table in
      do
        h2 ← secondary_hash (hash_fct k) cap
        find_loop cmp k (slots hash_fct probe k cap h2) t.table cap 0

  -- Inside, `nullptr` is `none`.
  unfoldable pub search : HashTable K → K → Option (Option K)
  search t k = do
    idx ← find_slot t k
    elim (idx == length t.table) [ true ↦ some none | false ↦ key_at t idx ]

  unfoldable pub find : HashTable K → K → Option K
  find t k = do found ← search t k; found

  unfoldable pub remove : HashTable K → K → Option (HashTable K × Bool)
  remove t k = do
    idx ← find_slot t k
    elim (idx == length t.table) [
      | true ↦ some (t, false)
      | false ↦ some (
        record {
          table = set t.table idx (record { state = deleted; key = none });
          num_items = t.num_items - 1;
          num_tombstones = t.num_tombstones + 1;
        },
        true,
      )
    ]

  module _ (alpha_num alpha_den : ℕ) where
    -- The pointer that `insert` returns is the key, or `nullptr`.
    unfoldable pub insert : HashTable K → K → Option (HashTable K × Option K)
    insert t k = do
      idx ← find_slot t k
      elim (idx == length t.table) [
        | true ↦ do
          t' ← grow_if_needed hash_fct probe alpha_num alpha_den t
          t'' ← raw_insert hash_fct probe t' k
          some (t'', some k)
        | false ↦ some (t, none)
      ]

    -- The key that was there, or the new one.
    unfoldable pub search_or_insert : HashTable K → K → Option (HashTable K × K)
    search_or_insert t k = do
      found ← search t k
      elim found [
        | none ↦ do
          t' ← grow_if_needed hash_fct probe alpha_num alpha_den t
          t'' ← raw_insert hash_fct probe t' k
          some (t'', k)
        | some x ↦ some (t, x)
      ]
