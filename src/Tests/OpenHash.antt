-- ===== src/Tests/OpenHash.antt =====
-- include/openhash.hpp at a table of four slots: 5 and 1 share their first slot, and a key was
-- removed from the last one. The hash of a number is the number.
use de_si_gnar.Prelude.{
  ℕ, zero, suc, ◌*◌, ◌<◌, ◌≤◌, ◌≡◌, ◌↔◌, refl, sym, subst, Bool, true, false, ◌==◌, ==_iff, Option,
  none, some, ◌⊎◌, inl, inr, List, [], ◌∷◌, get_elem?, length, arith,
}
use de_si_gnar.OpenHash.{
  occupied, HashTable, OaEntry, empty_entry, linear_probe, double_probe, quadratic_probe,
  next_pow2_loop, next_pow2, make_empty_table, secondary_hash, find_loop, target_loop, raw_insert,
  reinsert, rehash, grow_if_needed, find_slot, search, insert, remove, search_or_insert, new_table,
}
use de_si_gnar.Prelude.Updates.{set}
use de_si_gnar.OpenHash.Probe.{pow2, linear-IsProbing}
use de_si_gnar.OpenHash.Policies.{Visits, policies_visit}
use de_si_gnar.OpenHash.Table.{At, IsReached, Blocked, holding, tombstone}
use de_si_gnar.OpenHash.Laws.{IsSetting, IsValid, Has, way, search-Has, remove-Has}
use de_si_gnar.OpenHash.Growth.{insert-Has}
use de_si_gnar.OpenHash.Methods.{search_or_insert-insert, new_table-Has}

abbrev same : ℕ → ℕ → Bool
same x y = x == y

abbrev itself : ℕ → ℕ
itself x = x

abbrev four_slots : List (OaEntry ℕ)
four_slots = empty_entry ∷ holding 5 ∷ holding 1 ∷ tombstone ∷ []

abbrev two_keys : HashTable ℕ
two_keys = record { table = four_slots; num_items = 2; num_tombstones = 1 }

setting : IsSetting same itself linear_probe
setting = record {
  equality = record {
    same = λ x. ground arith;
    back = λ x y h. ground (arith, h);
    chain = λ x y z h k. ground (arith, h, k);
  };
  hashes = λ x y h. (==_iff x y).0 h;
  probing = linear-IsProbing;
}

-- The two keys, and where they are.
only : (s : ℕ) (x : ℕ) → At four_slots s x → ((s ≡ 1) × (x ≡ 5)) ⊎ ((s ≡ 2) × (x ≡ 1))
only zero x h = cc
only (suc zero) x h = inl (refl, cc)
only (suc (suc zero)) x h = inr (refl, cc)
only (suc (suc (suc zero))) x h = cc
only (suc (suc (suc (suc s)))) x h = cc

keyed_two :
    (s : ℕ) (key : Option ℕ)
    → get_elem? four_slots s ≡ some (record { state = occupied; key = key })
    → (x : ℕ) × (key ≡ some x)
keyed_two zero key h = cc
keyed_two (suc zero) key h = (5, cc)
keyed_two (suc (suc zero)) key h = (1, cc)
keyed_two (suc (suc (suc zero))) key h = cc
keyed_two (suc (suc (suc (suc s)))) key h = cc

IsReached-five : IsReached (way same itself linear_probe 4 5) four_slots 1
IsReached-five = record {
  probes = 0;
  within = omega arith;
  ends = (unfold linear_probe in refl);
  blocked = λ j h. absurd (omega (arith, h));
}

passed_by : (j : ℕ) → j < 1 → Blocked four_slots (way same itself linear_probe 4 1 j)
unfolding linear_probe
passed_by zero h = (holding 5, refl, refl)
passed_by (suc j) h = absurd (omega (arith, h))

IsReached-one : IsReached (way same itself linear_probe 4 1) four_slots 2
IsReached-one = record {
  probes = 1;
  within = omega arith;
  ends = (unfold linear_probe in refl);
  blocked = passed_by;
}

valid : IsValid same itself linear_probe two_keys
valid = record {
  order = 1;
  size = (unfold pow2 in refl);
  fits = omega arith;
  slots = record {
    keyed = keyed_two;
    reached = λ s x h. elim (only s x h) [
      | inl five ↦
          subst (λ n. IsReached (way same itself linear_probe 4 x) four_slots n) (sym five.0)
            (subst (λ y. IsReached (way same itself linear_probe 4 y) four_slots 1) (sym five.1)
              IsReached-five)
      | inr one ↦
          subst (λ n. IsReached (way same itself linear_probe 4 x) four_slots n) (sym one.0)
            (subst (λ y. IsReached (way same itself linear_probe 4 y) four_slots 2) (sym one.1)
              IsReached-one)
    ];
    unique = λ s s' x y h h' e.
        let equal = (==_iff x y).0 e in
        elim (only s x h) [
          | inl five ↦ elim (only s' y h') [
            | inl five' ↦ omega (arith, five, five')
            | inr one' ↦ omega (arith, five, one', equal)
          ]
          | inr one ↦ elim (only s' y h') [
            | inl five' ↦ omega (arith, one, five', equal)
            | inr one' ↦ omega (arith, one, one')
          ]
        ];
  };
  items = refl;
  tombstones = refl;
}

-- The load is at least a half, so that the table grows; the tombstone is gone.
grows :
    insert same itself linear_probe 1 2 two_keys 9
    ≡ some (
      record {
        table =
            empty_entry
            ∷ holding 1
            ∷ holding 9
            ∷ empty_entry
            ∷ empty_entry
            ∷ holding 5
            ∷ empty_entry
            ∷ empty_entry
            ∷ [];
        num_items = 3;
        num_tombstones = 0;
      },
      some 9,
    )
unfolding insert find_slot find_loop secondary_hash linear_probe grow_if_needed rehash reinsert
    raw_insert target_loop next_pow2 next_pow2_loop make_empty_table set
grows = refl

insert-Has_example :
    ((insert same itself linear_probe 1 2 two_keys 9 ≡ some (two_keys, none))
      × ((x : ℕ) × Has two_keys x × (same x 9 ≡ true)))
    ⊎ ((t' : HashTable ℕ) × (insert same itself linear_probe 1 2 two_keys 9 ≡ some (t', some 9))
        × IsValid same itself linear_probe t'
        × ((x : ℕ) → Has two_keys x → same x 9 ≡ false)
        × ((x : ℕ) → Has t' x ↔ (Has two_keys x ⊎ (x ≡ 9))))
insert-Has_example =
    insert-Has same itself linear_probe setting 1 2 (omega arith) two_keys 9 valid (omega arith)

remove-Has_example :
    (t' : HashTable ℕ) × (done : Bool) × (remove same itself linear_probe two_keys 5
      ≡ some (t', done))
    × IsValid same itself linear_probe t'
    × ((x : ℕ) → Has t' x ↔ (Has two_keys x × (same x 5 ≡ false)))
    × ((done ≡ true) ↔ ((x : ℕ) × Has two_keys x × (same x 5 ≡ true)))
remove-Has_example = remove-Has same itself linear_probe setting two_keys 5 valid

search-Has_example :
    ((search same itself linear_probe two_keys 1 ≡ some none)
      × ((x : ℕ) → Has two_keys x → same x 1 ≡ false))
    ⊎ ((x : ℕ) × (search same itself linear_probe two_keys 1 ≡ some (some x))
        × Has two_keys x
        × (same x 1 ≡ true))
search-Has_example = search-Has same itself linear_probe setting two_keys 1 valid

search_or_insert-insert_example :
    ((x : ℕ) × (search_or_insert same itself linear_probe 1 2 two_keys 9 ≡ some (two_keys, x))
      × Has two_keys x
      × (same x 9 ≡ true))
    ⊎ ((t' : HashTable ℕ) × (search_or_insert same itself linear_probe 1 2 two_keys 9
          ≡ some (t', 9))
        × (insert same itself linear_probe 1 2 two_keys 9 ≡ some (t', some 9)))
search_or_insert-insert_example =
    search_or_insert-insert same itself linear_probe setting 1 2 (omega arith) two_keys 9 valid
      (omega arith)

-- A constructor that is asked for no slots gives one, and there the second hash divides by zero.
abbrev lone : HashTable ℕ
lone = record { table = empty_entry ∷ []; num_items = 0; num_tombstones = 0 }

lone_slot : new_table 0 ≡ some lone
unfolding new_table next_pow2 next_pow2_loop make_empty_table
lone_slot = refl

lone_divides : search same itself linear_probe lone 7 ≡ none
unfolding search find_slot secondary_hash
lone_divides = refl

new_table-Has_example :
    (t : HashTable ℕ) × (new_table 100 ≡ some t)
    × IsValid same itself linear_probe t
    × (100 ≤ length t.table)
    × (length t.table < 100 * 2)
    × ((x : ℕ) → ¬ (Has t x))
new_table-Has_example = new_table-Has same itself linear_probe 100 (omega arith) (omega arith)

policies_visit_example :
    Visits linear_probe 3 6 5 1 × Visits quadratic_probe 3 6 5 1 × Visits double_probe 3 6 5 1
policies_visit_example =
    policies_visit 3 6 5 1 (unfold pow2 in omega arith) (unfold pow2 in omega arith) refl
      (unfold pow2 in omega arith)

-- The slots that the other policies probe first in a table of eight.
triangular : quadratic_probe 6 1 3 8 ≡ 4
unfolding quadratic_probe
triangular = refl

stepping : double_probe 6 3 3 8 ≡ 7
unfolding double_probe
stepping = refl
