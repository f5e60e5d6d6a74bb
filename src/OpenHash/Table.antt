-- ===== src/OpenHash/Table.antt =====
-- The invariant of the slots of an open-addressing table (include/openhash.hpp): each key can be
-- reached by the probes for it, and no two keys are equal.
use de_si_gnar.Prelude.{
  ℕ, ◌<◌, ◌≡◌, ◌∙◌, sym, ap, some_inj, Bool, true, false, Option, none, some, List, get_elem?,
  length,
}
use de_si_gnar.OpenHash.{OaState, empty, occupied, deleted, OaEntry}

-- The key equality that the class takes as `Cmp`: an equivalence, as std::equal_to is.
pub record IsEquality {ℓ} {K : Type ℓ} (cmp : K → K → Bool) : Type ℓ where
  pub same : (x : K) → cmp x x ≡ true
  pub back : (x y : K) → cmp x y ≡ true → cmp y x ≡ true
  pub chain : (x y z : K) → cmp x y ≡ true → cmp y z ≡ true → cmp x z ≡ true

module _ {ℓ} {K : Type ℓ} where
  abbrev pub holding : K → OaEntry K
  holding x = record { state = occupied; key = some x }

  -- What a removal leaves behind.
  abbrev pub tombstone : OaEntry K
  tombstone = record { state = deleted; key = none }

  -- Slot `s` holds the key `x`.
  abbrev pub At : List (OaEntry K) → ℕ → K → Type ℓ
  At table s x = get_elem? table s ≡ some (holding x)

  abbrev pub is_open : OaEntry K → Bool
  is_open e = elim e.state [ empty ↦ true | occupied ↦ false | deleted ↦ false ]

  -- The slot does not stop a search.
  abbrev pub Blocked : List (OaEntry K) → ℕ → Type ℓ
  Blocked table s = (e : OaEntry K) × (get_elem? table s ≡ some e) × (is_open e ≡ false)

  -- A run of probes that nothing stops leads to the slot `s`.
  pub record IsReached (path : ℕ → ℕ) (table : List (OaEntry K)) (s : ℕ) : Type ℓ where
    pub probes : ℕ
    pub within : probes < length table
    pub ends : path probes ≡ s
    pub blocked : (j : ℕ) → j < probes → Blocked table (path j)

  -- Occupied slots hold keys, each key is reached by its own probes, and equal keys share a slot.
  pub record IsTable (cmp : K → K → Bool) (path : K → ℕ → ℕ) (table : List (OaEntry K))
      : Type ℓ where
    pub keyed :
        (s : ℕ) (key : Option K)
        → get_elem? table s ≡ some (record { state = occupied; key = key })
        → (x : K) × (key ≡ some x)
    pub reached : (s : ℕ) (x : K) → At table s x → IsReached (path x) table s
    pub unique : (s s' : ℕ) (x y : K) → At table s x → At table s' y → cmp x y ≡ true → s ≡ s'

  -- One entry, read twice.
  pub state_at :
      {o : Option (OaEntry K)} {p q : OaState} {k l : Option K}
      → o ≡ some (record { state = p; key = k })
      → o ≡ some (record { state = q; key = l })
      → (p ≡ q) × (k ≡ l)
  state_at h k = let e = some_inj (sym h ∙ k) in (ap (λ r. r.state) e, ap (λ r. r.key) e)
