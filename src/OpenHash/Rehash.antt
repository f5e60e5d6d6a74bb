-- ===== src/OpenHash/Rehash.antt =====
-- The loop of `rehash` of include/openhash.hpp: the keys move to another table, and none is lost.
use de_si_gnar.Prelude.{
  ℕ, zero, suc, ◌+◌, ◌<◌, ◌≤◌, ◌≡◌, ◌∙◌, ◌↔◌, refl, sym, ap, subst, Bool, true, false, Bool-cases,
  Option, none, some, ◌>>=◌, ◌⊎◌, inl, inr, List, [], ◌∷◌, get_elem?, length, arith, some_inj,
}
use de_si_gnar.Prelude.Updates.{tally}
use de_si_gnar.OpenHash.{
  OaState, empty, occupied, deleted, OaEntry, HashTable, count_occupied, raw_insert, reinsert,
}
use de_si_gnar.OpenHash.Table.{At, holding}
use de_si_gnar.OpenHash.Laws.{IsSetting, IsValid, Has}
use de_si_gnar.OpenHash.Insertion.{raw_insert-IsAdded}

module _ {ℓ} {K : Type ℓ} (cmp : K → K → Bool) (hash_fct : K → ℕ) (probe : ℕ → ℕ → ℕ → ℕ → ℕ)
    (setting : IsSetting cmp hash_fct probe) where
  -- The old entries, moved into the table `t`.
  pub record IsMoved (t : HashTable K) (old : List (OaEntry K)) (res : Option (HashTable K))
      : Type ℓ where
    pub after : HashTable K
    pub result : res ≡ some after
    pub valid : IsValid cmp hash_fct probe after
    pub size : length after.table ≡ length t.table
    pub items : after.num_items ≡ t.num_items + tally count_occupied old
    pub tombstones : after.num_tombstones ≤ t.num_tombstones
    pub content : (x : K) → Has after x ↔ (Has t x ⊎ ((s : ℕ) × At old s x))

  -- The old entries hold keys where they are occupied, no two of them equal.
  pub record IsOld (old : List (OaEntry K)) : Type ℓ where
    pub keyed :
        (s : ℕ) (key : Option K)
        → get_elem? old s ≡ some (record { state = occupied; key = key })
        → (x : K) × (key ≡ some x)
    pub unique : (s s' : ℕ) (x y : K) → At old s x → At old s' y → cmp x y ≡ true → s ≡ s'

  -- Below an entry that holds no key.
  skipped :
      (q : OaState) (key : Option K) (old : List (OaEntry K)) (x : K)
      → ¬ (q ≡ occupied)
      → (s : ℕ) → At (record { state = q; key = key } ∷ old) s x
      → (s : ℕ) × At old s x
  skipped q key old x free zero h = absurd (free (ap (λ r. r.state) (some_inj h)))
  skipped q key old x free (suc s) h = (s, h)

  IsOld-tail : (e : OaEntry K) (old : List (OaEntry K)) → IsOld (e ∷ old) → IsOld old
  IsOld-tail e old o = record {
    keyed = λ s key h. o.keyed (suc s) key h;
    unique = λ s s' x y h h' same. omega (arith, o.unique (suc s) (suc s') x y h h' same);
  }

  -- The loop over the other entries.
  abbrev Others : List (OaEntry K) → Type ℓ
  Others old =
      (t : HashTable K)
      → IsValid cmp hash_fct probe t
      → IsOld old
      → t.num_items + t.num_tombstones + tally count_occupied old < length t.table
      → ((x y : K) (s : ℕ) → Has t x → At old s y → cmp x y ≡ false)
      → IsMoved t old (reinsert hash_fct probe t old)

  skip :
      (t : HashTable K) (q : OaState) (key : Option K) (old : List (OaEntry K))
      (res : Option (HashTable K))
      → ¬ (q ≡ occupied)
      → IsMoved t old res
      → count_occupied (record { state = q; key = key }) ≡ 0
      → IsMoved t (record { state = q; key = key } ∷ old) res
  skip t q key old res free m none_here = record {
    after = m.after;
    result = m.result;
    valid = m.valid;
    size = m.size;
    items = omega (arith, m.items, none_here);
    tombstones = m.tombstones;
    content = λ x. (
      λ h. elim ((m.content x).0 h) [
        | inl there ↦ inl there
        | inr moved ↦ inr (suc moved.0, moved.1)
      ],
      λ h. elim h [
        | inl there ↦ (m.content x).1 (inl there)
        | inr moved ↦ (m.content x).1 (inr (skipped q key old x free moved.0 moved.1))
      ],
    );
  }

  move :
      (t : HashTable K) (y : K) (old : List (OaEntry K))
      → IsValid cmp hash_fct probe t
      → IsOld (holding y ∷ old)
      → t.num_items + t.num_tombstones + tally count_occupied (holding y ∷ old) < length t.table
      → ((x z : K) (s : ℕ) → Has t x → At (holding y ∷ old) s z → cmp x z ≡ false)
      → Others old
      → IsMoved t
          (holding y ∷ old)
          (do t' ← raw_insert hash_fct probe t y; reinsert hash_fct probe t' old)
  move t y old v o room apart others =
      let a =
        raw_insert-IsAdded cmp hash_fct probe setting t y v (λ j x h. apart x y 0 (j, h) refl)
          (omega (arith, room)) in
      let m =
        others a.after a.valid (IsOld-tail (holding y) old o)
          (omega (arith, room, a.items, a.tombstones, a.size))
          (λ x z s h at_z. elim ((a.content x).0 h) [
            | inl there ↦ apart x z (suc s) there at_z
            | inr new ↦ elim (Bool-cases (cmp x z)) [
              | inl same ↦ absurd (
                  omega (
                    arith,
                    o.unique 0 (suc s) y z refl at_z (subst (λ w. cmp w z ≡ true) new same),
                  ))
              | inr other ↦ other
            ]
          ]) in
      record {
        after = m.after;
        result = rw a.result m.result;
        valid = m.valid;
        size = m.size ∙ a.size;
        items = omega (arith, m.items, a.items);
        tombstones = omega (arith, m.tombstones, a.tombstones);
        content = λ x. (
          λ h. elim ((m.content x).0 h) [
            | inl there ↦ elim ((a.content x).0 there) [
              | inl old_key ↦ inl old_key
              | inr new ↦ inr (0, ap (λ w. some (holding w)) (sym new))
            ]
            | inr moved ↦ inr (suc moved.0, moved.1)
          ],
          λ h. elim h [
            | inl there ↦ (m.content x).1 (inl ((a.content x).1 (inl there)))
            | inr moved ↦ (m.content x).1 (placed a.after x moved.0 moved.1 (a.content x).1)
          ],
        );
      }
    where
      placed :
          (t' : HashTable K) (x : K) (s : ℕ)
          → At (holding y ∷ old) s x
          → (Has t x ⊎ (x ≡ y) → Has t' x)
          → Has t' x ⊎ ((s : ℕ) × At old s x)
      placed t' x zero h add = inl (add (inr (some_inj (ap (λ r. r.key) (some_inj (sym h))))))
      placed t' x (suc s) h add = inr (s, h)

  reinsert_step :
      (t : HashTable K) (q : OaState) (key : Option K) (old : List (OaEntry K))
      → IsValid cmp hash_fct probe t
      → IsOld (record { state = q; key = key } ∷ old)
      → t.num_items
          + t.num_tombstones
          + tally count_occupied (record { state = q; key = key } ∷ old)
        < length t.table
      → ((x y : K) (s : ℕ)
          → Has t x
          → At (record { state = q; key = key } ∷ old) s y
          → cmp x y ≡ false)
      → Others old
      → IsMoved t
          (record { state = q; key = key } ∷ old)
          (reinsert hash_fct probe t (record { state = q; key = key } ∷ old))
  unfolding reinsert
  reinsert_step t empty key old v o room apart others =
      skip t empty key old _ (λ e. cc)
        (others t v (IsOld-tail _ old o) (omega (arith, room)) (λ x y s. apart x y (suc s))) refl
  reinsert_step t deleted key old v o room apart others =
      skip t deleted key old _ (λ e. cc)
        (others t v (IsOld-tail _ old o) (omega (arith, room)) (λ x y s. apart x y (suc s))) refl
  reinsert_step t occupied none old v o room apart others = let (x, e) = o.keyed 0 none refl in cc
  reinsert_step t occupied (some y) old v o room apart others = move t y old v o room apart others

  pub reinsert-IsMoved :
      (t : HashTable K) (old : List (OaEntry K))
      → IsValid cmp hash_fct probe t
      → IsOld old
      → t.num_items + t.num_tombstones + tally count_occupied old < length t.table
      → ((x y : K) (s : ℕ) → Has t x → At old s y → cmp x y ≡ false)
      → IsMoved t old (reinsert hash_fct probe t old)
  unfolding reinsert
  reinsert-IsMoved t [] v o room apart = record {
    after = t;
    result = refl;
    valid = v;
    size = refl;
    items = omega arith;
    tombstones = omega arith;
    content = λ x. (
      λ h. inl h,
      λ h. elim h [ inl there ↦ there | inr none_left ↦ let clash = none_left.1 in cc ],
    );
  }
  reinsert-IsMoved t (e ∷ old) v o room apart =
      reinsert_step t e.state e.key old v o room apart (λ t'. reinsert-IsMoved t' old)
