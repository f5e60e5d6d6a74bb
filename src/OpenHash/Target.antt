-- ===== src/OpenHash/Target.antt =====
-- The loop of `find_target_slot` of include/openhash.hpp: where an empty slot is on the path, it ends
-- at a free slot that the probes for the key reach.
use de_si_gnar.Prelude.{
  ℕ, zero, suc, ◌+◌, ◌<◌, ◌≤◌, ◌≡◌, refl, subst, Bool-cases, inl, inr, ltb, ltb→lt, ltb_false→le,
  Option, none, some, ◌⊎◌, List, get_elem?, length, get_in_range, arith,
}
use de_si_gnar.OpenHash.{OaState, empty, occupied, deleted, OaEntry, target_loop, first_of}
use de_si_gnar.OpenHash.Table.{IsReached, Blocked, state_at}

module _ {ℓ} {K : Type ℓ} where
  -- Slot `s` is in the state `q`.
  abbrev pub InState : List (OaEntry K) → ℕ → OaState → Type ℓ
  InState table s q =
      (key : Option K) × (get_elem? table s ≡ some (record { state = q; key = key }))

  -- The slot that is found, and its state: a tombstone was passed, or none was.
  abbrev pub IsTarget : (ℕ → ℕ) → List (OaEntry K) → Option (ℕ × Option ℕ) → Type ℓ
  IsTarget path table res =
      ((idx : ℕ) × (res ≡ some (idx, none)) × IsReached path table idx × InState table idx empty)
      ⊎ ((idx : ℕ) × (t : ℕ) × (res ≡ some (idx, some t))
          × IsReached path table t
          × InState table t deleted)

  module _ (path : ℕ → ℕ) (table : List (OaEntry K)) (in_range : (i : ℕ) → path i < length table)
      (goal : ℕ) (goal_within : goal < length table)
      (open_goal : InState table (path goal) empty) where
    abbrev AllBlocked : ℕ → Type ℓ
    AllBlocked i = (j : ℕ) → j < i → Blocked table (path j)

    -- The first tombstone so far, if there was one.
    abbrev IsFirst : Option ℕ → Type ℓ
    IsFirst none = Unit
    IsFirst (some t) = IsReached path table t × InState table t deleted

    reach : (i : ℕ) → i < length table → AllBlocked i → IsReached path table (path i)
    reach i h b = record { probes = i; within = h; ends = refl; blocked = b }

    AllBlocked-suc : (i : ℕ) → AllBlocked i → Blocked table (path i) → AllBlocked (i + 1)
    AllBlocked-suc i b last j h = elim (Bool-cases (ltb j i)) [
      | inl before ↦ b j (ltb→lt _ _ before)
      | inr here ↦
          let at_i : i ≡ j = omega (arith, h, ltb_false→le _ _ here) in
          subst (λ n. Blocked table (path n)) at_i last
    ]

    -- A probe that finds no empty slot is not the last one.
    not_yet :
        (i : ℕ) (q : OaState) (key : Option K)
        → get_elem? table (path i) ≡ some (record { state = q; key = key })
        → ¬ (q ≡ empty)
        → i ≤ goal
        → i + 1 ≤ goal
    not_yet i q key e other h = elim (Bool-cases (ltb i goal)) [
      | inl before ↦ omega (arith, ltb→lt _ _ before)
      | inr here ↦
          let at_goal : goal ≡ i = omega (arith, h, ltb_false→le _ _ here) in
          let there = subst (λ n. InState table (path n) empty) at_goal open_goal in
          absurd (other ((state_at e there.1).0))
    ]

    at_empty :
        (rounds i : ℕ) (key : Option K) (ft : Option ℕ)
        → get_elem? table (path i) ≡ some (record { state = empty; key = key })
        → IsFirst ft
        → IsReached path table (path i)
        → IsTarget path table (target_loop path table (suc rounds) i ft)
    unfolding target_loop
    at_empty rounds i key none e first r = inl (path i, rw e refl, r, (key, e))
    at_empty rounds i key (some t) e first r = inr (path i, t, rw e refl, first.0, first.1)

    first_of-IsFirst :
        (i : ℕ) (ft : Option ℕ)
        → IsFirst ft
        → IsReached path table (path i)
        → InState table (path i) deleted
        → IsFirst (first_of ft (path i))
    first_of-IsFirst i none first r e = (r, e)
    first_of-IsFirst i (some t) first r e = first

    IsTarget-step :
        (rounds i : ℕ) (q : OaState) (key : Option K) (ft : Option ℕ)
        → get_elem? table (path i) ≡ some (record { state = q; key = key })
        → i ≤ goal
        → AllBlocked i
        → IsFirst ft
        → ((ft' : Option ℕ)
            → i + 1 ≤ goal
            → AllBlocked (i + 1)
            → IsFirst ft'
            → IsTarget path table (target_loop path table rounds (i + 1) ft'))
        → IsTarget path table (target_loop path table (suc rounds) i ft)
    unfolding target_loop
    IsTarget-step rounds i empty key ft e h b first next =
        at_empty rounds i key ft e first (reach i (omega (arith, h, goal_within)) b)
    IsTarget-step rounds i occupied key ft e h b first next = rw e (
        next ft (not_yet i occupied key e (λ c. cc) h)
          (AllBlocked-suc i b (record { state = occupied; key = key }, e, refl)) first)
    IsTarget-step rounds i deleted key ft e h b first next =
        let r = reach i (omega (arith, h, goal_within)) b in
        rw e (
          next (first_of ft (path i)) (not_yet i deleted key e (λ c. cc) h)
            (AllBlocked-suc i b (record { state = deleted; key = key }, e, refl))
            (first_of-IsFirst i ft first r (key, e)))

    IsTarget-from :
        (rounds i : ℕ) (ft : Option ℕ)
        → rounds + i ≡ length table
        → i ≤ goal
        → AllBlocked i
        → IsFirst ft
        → IsTarget path table (target_loop path table rounds i ft)
    IsTarget-from zero i ft size h b first = absurd (omega (arith, size, h, goal_within))
    IsTarget-from (suc rounds) i ft size h b first =
        let (e, there) = get_in_range table (path i) (in_range i) in
        IsTarget-step rounds i e.state e.key ft there h b first
          (λ ft'. IsTarget-from rounds (i + 1) ft' (omega (arith, size)))

    pub target_loop-IsTarget : IsTarget path table (target_loop path table (length table) 0 none)
    target_loop-IsTarget =
        IsTarget-from (length table) 0 none (omega arith) (omega arith)
          (λ j h. absurd (omega (arith, h))) tt
