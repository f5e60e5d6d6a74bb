-- ===== src/OpenHash/Find.antt =====
-- The loop of `find_slot_by` of include/openhash.hpp.
use de_si_gnar.Prelude.{
  ℕ, zero, suc, ◌+◌, ◌<◌, ◌≡◌, ◌∙◌, refl, sym, ap, subst, Bool, true, false, Bool-cases, inl, inr,
  ltb, ltb→lt, ltb_false→le, Option, none, some, some_inj, ◌⊎◌, List, get_elem?, length,
  get_in_range, arith,
}
use de_si_gnar.OpenHash.{OaState, empty, occupied, deleted, OaEntry, find_loop}
use de_si_gnar.OpenHash.Table.{IsTable, IsReached, At, Blocked, state_at, is_open}

module _ {ℓ} {K : Type ℓ} (cmp : K → K → Bool) where
  -- What a search for `k` gives: a slot with a key that is equal to `k`, or the number of slots, and
  -- then there is none.
  abbrev pub IsFound : List (OaEntry K) → K → Option ℕ → Type ℓ
  IsFound table k res =
      ((res ≡ some (length table)) × ((s : ℕ) (x : K) → At table s x → cmp x k ≡ false))
      ⊎ ((s : ℕ) × (x : K) × (res ≡ some s) × At table s x × (cmp x k ≡ true))

  module _ (path : K → ℕ → ℕ) (table : List (OaEntry K)) (k : K) (t : IsTable cmp path table)
      (same_path : (x : K) (i : ℕ) → cmp x k ≡ true → path x i ≡ path k i)
      (in_range : (i : ℕ) → path k i < length table) where
    -- The probes before the `i`-th have not met a key equal to `k`.
    abbrev Missed : ℕ → Type ℓ
    Missed i = (j : ℕ) (x : K) → j < i → At table (path k j) x → cmp x k ≡ false

    -- A key equal to `k` stands on the path of `k`.
    on_path :
        (s : ℕ) (x : K)
        → At table s x
        → cmp x k ≡ true
        → (r : IsReached (path k) table s) × At table (path k r.probes) x
    on_path s x a same =
        let r = t.reached s x a in
        let ends = sym (same_path x r.probes same) ∙ r.ends in
        (
          record {
            probes = r.probes;
            within = r.within;
            ends = ends;
            blocked = λ j h. subst (Blocked table) (same_path x j same) (r.blocked j h);
          },
          subst (λ n. At table n x) (sym ends) a,
        )

    absent-At_end : Missed (length table) → (s : ℕ) (x : K) → At table s x → cmp x k ≡ false
    absent-At_end missed s x a = elim (Bool-cases (cmp x k)) [
      | inl same ↦ let (r, b) = on_path s x a same in missed r.probes x r.within b
      | inr other ↦ other
    ]

    absent-At-empty :
        (i : ℕ) (key : Option K)
        → Missed i
        → get_elem? table (path k i) ≡ some (record { state = empty; key = key })
        → (s : ℕ) (x : K) → At table s x
        → cmp x k ≡ false
    absent-At-empty i key missed e s x a = elim (Bool-cases (cmp x k)) [
      | inr other ↦ other
      | inl same ↦
          let (r, b) = on_path s x a same in
          elim (Bool-cases (ltb r.probes i)) [
            | inl before ↦ missed r.probes x (ltb→lt _ _ before) b
            | inr after ↦ elim (Bool-cases (ltb i r.probes)) [
              | inl past ↦
                  let (d, there, closed) = r.blocked i (ltb→lt _ _ past) in
                  let same_entry = some_inj (sym e ∙ there) in
                  let open_entry : true ≡ false = ap is_open same_entry ∙ closed in cc
              | inr here ↦
                  let at_i : r.probes ≡ i =
                    omega (arith, ltb_false→le _ _ after, ltb_false→le _ _ here) in
                  let states = state_at e (subst (λ n. At table (path k n) x) at_i b) in
                  let clash = states.0 in cc
            ]
          ]
    ]

    Missed-suc :
        (i : ℕ) → Missed i → ((x : K) → At table (path k i) x → cmp x k ≡ false) → Missed (i + 1)
    Missed-suc i missed last j x h a = elim (Bool-cases (ltb j i)) [
      | inl before ↦ missed j x (ltb→lt _ _ before) a
      | inr here ↦
          let at_i : j ≡ i = omega (arith, h, ltb_false→le _ _ here) in
          last x (subst (λ n. At table (path k n) x) at_i a)
    ]

    find_step :
        (rounds i : ℕ) (state : OaState) (key : Option K)
        → get_elem? table (path k i) ≡ some (record { state = state; key = key })
        → Missed i
        → (Missed (i + 1) → IsFound table k (find_loop cmp k (path k) table rounds (i + 1)))
        → IsFound table k (find_loop cmp k (path k) table (suc rounds) i)
    unfolding find_loop
    find_step rounds i empty key e missed next = inl (rw e refl, absent-At-empty i key missed e)
    find_step rounds i deleted key e missed next =
        rw e (next (Missed-suc i missed (λ x a. let clash = (state_at e a).0 in cc)))
    find_step rounds i occupied none e missed next = let (x, p) = t.keyed (path k i) none e in cc
    find_step rounds i occupied (some y) e missed next = elim (Bool-cases (cmp y k)) [
      | inl same ↦ inr (path k i, y, rw (e, same) refl, e, same)
      | inr other ↦
          rw (e, other)
            (next (
              Missed-suc i missed
                (λ x a. subst (λ z. cmp z k ≡ false) (some_inj (state_at e a).1) other)))
    ]

    find_from :
        (rounds i : ℕ)
        → rounds + i ≡ length table
        → Missed i
        → IsFound table k (find_loop cmp k (path k) table rounds i)
    unfolding find_loop
    find_from zero i size missed =
        inl (refl, absent-At_end (subst Missed (omega (arith, size)) missed))
    find_from (suc rounds) i size missed =
        let (e, there) = get_in_range table (path k i) (in_range i) in
        find_step rounds i e.state e.key there missed
          (find_from rounds (i + 1) (omega (arith, size)))

    pub find_loop-IsFound : IsFound table k (find_loop cmp k (path k) table (length table) 0)
    find_loop-IsFound =
        find_from (length table) 0 (omega arith) (λ j x h a. absurd (omega (arith, h)))
