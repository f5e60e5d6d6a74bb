-- ===== src/OpenHash/Place.antt =====
-- Writing an entry into a table of include/openhash.hpp keeps the invariant of the slots.
use de_si_gnar.Prelude.{
  ℕ, ◌<◌, ◌≡◌, ◌∙◌, ◌↔◌, refl, sym, ap, subst, Bool, true, false, Bool-cases, inl, inr, ◌==◌,
  ==_iff, ==_ne, some, some_inj, ◌⊎◌, List, get_elem?,
}
use de_si_gnar.Prelude.Updates.{set, get_elem?-set, get_elem?-set_other, length-set}
use de_si_gnar.OpenHash.{occupied, OaEntry}
use de_si_gnar.OpenHash.Table.{
  IsEquality, IsTable, IsReached, At, Blocked, holding, tombstone, is_open,
}

module _ {ℓ} {K : Type ℓ} (table : List (OaEntry K)) (s : ℕ) (d e : OaEntry K)
    (was : get_elem? table s ≡ some d) where
  at_slot : get_elem? (set table s e) s ≡ some e
  at_slot = get_elem?-set table s d e was

  -- An entry after the write: the new one, or an old one.
  written :
      (j : ℕ) (c : OaEntry K)
      → get_elem? (set table s e) j ≡ some c
      → ((j ≡ s) × (c ≡ e)) ⊎ (¬ (j ≡ s) × (get_elem? table j ≡ some c))
  written j c h = elim (Bool-cases (j == s)) [
    | inl here ↦
        let at_s = (==_iff j s).0 here in
        inl (
          at_s,
          some_inj (sym (subst (λ n. get_elem? (set table s e) n ≡ some c) at_s h) ∙ at_slot),
        )
    | inr there ↦
        let away = ==_ne j s there in inr (away, sym (get_elem?-set_other table s j e away) ∙ h)
  ]

  module _ (closed : is_open e ≡ false) where
    Blocked-set : (j : ℕ) → Blocked table j → Blocked (set table s e) j
    Blocked-set j (c, h, shut) = elim (Bool-cases (j == s)) [
      | inl here ↦ (
        e,
        subst (λ n. get_elem? (set table s e) n ≡ some e) (sym ((==_iff j s).0 here)) at_slot,
        closed,
      )
      | inr there ↦ (c, get_elem?-set_other table s j e (==_ne j s there) ∙ h, shut)
    ]

    IsReached-set :
        (path : ℕ → ℕ) (j : ℕ) → IsReached path table j → IsReached path (set table s e) j
    IsReached-set path j r = record {
      probes = r.probes;
      within = subst (λ n. r.probes < n) (sym (length-set table s e)) r.within;
      ends = r.ends;
      blocked = λ i h. Blocked-set (path i) (r.blocked i h);
    }

module _ {ℓ} {K : Type ℓ} (cmp : K → K → Bool) (equality : IsEquality cmp) (path : K → ℕ → ℕ)
    (table : List (OaEntry K)) (t : IsTable cmp path table) (s : ℕ) (d : OaEntry K)
    (was : get_elem? table s ≡ some d) where
  -- A new key in a slot that its probes reach.
  module _ (k : K) (free : ¬ (d.state ≡ occupied)) (r : IsReached (path k) table s)
      (absent : (j : ℕ) (x : K) → At table j x → cmp x k ≡ false) where
    placed :
        (j : ℕ) (x : K) → At (set table s (holding k)) j x ↔ (At table j x ⊎ ((j ≡ s) × (x ≡ k)))
    placed j x = (
      λ a. elim (written table s d (holding k) was j (holding x) a) [
        | inl here ↦ inr (here.0, some_inj (ap (λ c. c.key) here.1))
        | inr there ↦ inl there.1
      ],
      λ a. elim a [
        | inl old ↦
            get_elem?-set_other table s j (holding k) (λ at_s.
              free (ap (λ c. c.state) (some_inj (sym was ∙ subst (λ n. At table n x) at_s old))))
            ∙ old
        | inr new ↦
            subst (λ n. At (set table s (holding k)) n x) (sym new.0)
              (subst (λ y. At (set table s (holding k)) s y) (sym new.1)
                (at_slot table s d (holding k) was))
      ],
    )

    pub IsTable-placed : IsTable cmp path (set table s (holding k))
    IsTable-placed = record {
      keyed = λ j key h. elim (written table s d (holding k) was j _ h) [
        | inl here ↦ (k, ap (λ c. c.key) here.1)
        | inr there ↦ t.keyed j key there.1
      ];
      reached = λ j x a. elim ((placed j x).0 a) [
        | inl old ↦ IsReached-set table s d (holding k) was refl (path x) j (t.reached j x old)
        | inr new ↦ IsReached-set table s d (holding k) was refl (path x) j (
            subst (λ n. IsReached (path x) table n) (sym new.0)
              (subst (λ y. IsReached (path y) table s) (sym new.1) r))
      ];
      unique = λ i j x y a b same. elim ((placed i x).0 a) [
        | inl old ↦ elim ((placed j y).0 b) [
          | inl old' ↦ t.unique i j x y old old' same
          | inr new ↦
              let clash = sym (absent i x old) ∙ subst (λ z. cmp x z ≡ true) new.1 same in cc
        ]
        | inr new ↦ elim ((placed j y).0 b) [
          | inl old ↦
              let clash =
                sym (absent j y old) ∙ equality.back k y (subst (λ z. cmp z y ≡ true) new.1 same) in
              cc
          | inr new' ↦ new.0 ∙ sym new'.0
        ]
      ];
    }

    pub placed-At :
        (j : ℕ) (x : K) → At (set table s (holding k)) j x ↔ (At table j x ⊎ ((j ≡ s) × (x ≡ k)))
    placed-At = placed

  -- A tombstone in the place of a key.
  pub buried : (j : ℕ) (x : K) → At (set table s tombstone) j x ↔ (¬ (j ≡ s) × At table j x)
  buried j x = (
    λ a. elim (written table s d tombstone was j (holding x) a) [
      | inl here ↦ let clash = ap (λ c. c.state) here.1 in cc
      | inr there ↦ there
    ],
    λ a. get_elem?-set_other table s j tombstone a.0 ∙ a.1,
  )

  pub IsTable-buried : IsTable cmp path (set table s tombstone)
  IsTable-buried = record {
    keyed = λ j key h. elim (written table s d tombstone was j _ h) [
      | inl here ↦ let clash = ap (λ c. c.state) here.1 in cc
      | inr there ↦ t.keyed j key there.1
    ];
    reached = λ j x a.
        IsReached-set table s d tombstone was refl (path x) j (t.reached j x ((buried j x).0 a).1);
    unique = λ i j x y a b same. t.unique i j x y ((buried i x).0 a).1 ((buried j y).0 b).1 same;
  }
