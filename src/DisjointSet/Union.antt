-- ===== src/DisjointSet/Union.antt =====
-- `union_sets` of `DisjointSet` (include/unionfind.hpp) on the partition.
use de_si_gnar.Prelude.{ℕ, ==_iff, ◌≡◌, ◌∙◌, refl, sym, subst, Bool, some, ◌⊎◌, ◌↔◌, inl, inr}
use de_si_gnar.DisjointSet.{DisjointSet, union_roots, index_of_existing, union_sets}
use de_si_gnar.DisjointSet.Forest.{IsRoot, IsRoot-unique, IsRoot-root}
use de_si_gnar.DisjointSet.Halving.{eq_or_not, differ}
use de_si_gnar.DisjointSet.Laws.{IsValid, Together}
use de_si_gnar.DisjointSet.Join.{Joined, link-IsLinked}
use de_si_gnar.DisjointSet.Calls.{IsPair, index_range, index_after, pair, Together-of}

module _ {ℓ} {K : Type ℓ} where
  -- The partition once the sets of `i` and `j` are one.
  abbrev pub Merged : DisjointSet K → ℕ → ℕ → ℕ → ℕ → Type 0
  Merged s i j x y =
      Together s x y ⊎ (Together s x i × Together s y j) ⊎ (Together s x j × Together s y i)

  module _ (s t : DisjointSet K) (i j ra rb : ℕ)
      (same : (x r : ℕ) → IsRoot s.parent x r ↔ IsRoot t.parent x r) (root_i : IsRoot s.parent i ra)
      (root_j : IsRoot s.parent j rb) where
    -- The set of an index by the root of that index.
    Together-root : (x k r : ℕ) → IsRoot s.parent k r → Together s x k ↔ IsRoot t.parent x r
    Together-root x k r root_k = (
      λ g. (same x r).0 (subst (IsRoot s.parent x) (IsRoot-unique s.parent k g.0 r g.2 root_k) g.1),
      λ g. (r, (same x r).1 g, root_k),
    )

    Joined-Merged : (x y : ℕ) → Joined t ra rb x y ↔ Merged s i j x y
    Joined-Merged x y = (forth, back)
      where
        forth : Joined t ra rb x y → Merged s i j x y
        forth (inl g) = inl ((Together-of s t x y same).1 g)
        forth (inr (inl (gx, gy))) =
            inr (inl ((Together-root x i ra root_i).1 gx, (Together-root y j rb root_j).1 gy))
        forth (inr (inr (gx, gy))) =
            inr (inr ((Together-root x j rb root_j).1 gx, (Together-root y i ra root_i).1 gy))

        back : Merged s i j x y → Joined t ra rb x y
        back (inl g) = inl ((Together-of s t x y same).0 g)
        back (inr (inl (gx, gy))) =
            inr (inl ((Together-root x i ra root_i).0 gx, (Together-root y j rb root_j).0 gy))
        back (inr (inr (gx, gy))) =
            inr (inr ((Together-root x j rb root_j).0 gx, (Together-root y i ra root_i).0 gy))

    -- One root already: nothing to join.
    already_one : ra ≡ rb → (x y : ℕ) → Together t x y ↔ Merged s i j x y
    already_one e x y = (λ g. inl ((Together-of s t x y same).1 g), back)
      where
        one : (p q : ℕ) → IsRoot t.parent p ra → IsRoot t.parent q rb → Together t p q
        one p q gp gq = (ra, gp, subst (IsRoot t.parent q) (sym e) gq)

        back : Merged s i j x y → Together t x y
        back (inl g) = (Together-of s t x y same).0 g
        back (inr (inl (gx, gy))) =
            one x y ((Together-root x i ra root_i).0 gx) ((Together-root y j rb root_j).0 gy)
        back (inr (inr (gx, gy))) =
            let (r, gy', gx') =
              one y x ((Together-root y i ra root_i).0 gy) ((Together-root x j rb root_j).0 gx) in
            (r, gx', gy')

  union_roots-Merged :
      (s : DisjointSet K) (i j : ℕ)
      → IsValid s
      → (w : IsPair s i j)
      → (t : DisjointSet K) × (union_roots w.second.after w.first.root w.second.root ≡ some t)
        × IsValid t
        × (t.index_of ≡ s.index_of)
        × ((x y : ℕ) → Together t x y ↔ Merged s i j x y)
  unfolding union_roots
  union_roots-Merged s i j v w =
      let p = w.first in
      let q = w.second in
      let root_j = p.back j q.root q.is_root in
      let keys = q.same_keys ∙ p.same_keys in
      elim (eq_or_not p.root q.root) [
        | inl e ↦ (
          q.after,
          rw ((==_iff p.root q.root).1 e) refl,
          q.valid,
          keys,
          already_one s q.after i j p.root q.root w.roots p.is_root root_j e,
        )
        | inr n ↦
            let at_a = IsRoot-root q.after.parent i p.root ((w.roots i p.root).0 p.is_root) in
            let at_b = IsRoot-root q.after.parent j q.root ((w.roots j q.root).0 root_j) in
            let l = link-IsLinked q.after p.root q.root q.valid at_a at_b n in
            (
              l.after,
              rw (differ p.root q.root n) l.result,
              l.valid,
              l.same_keys ∙ keys,
              λ x y.
                  let m = Joined-Merged s q.after i j p.root q.root w.roots p.is_root root_j x y in
                  (λ g. m.0 ((l.joined x y).0 g), λ g. (l.joined x y).1 (m.1 g)),
            )
      ]

module _ {ℓ} {K : Type ℓ} (equal : K → K → Bool) where
  -- At a valid state, with the keys at `i` and `j`, `union_sets` ends in a valid state with
  -- the same keys, and two indices are then in one set if and only if they were, or one was
  -- in the set of `i` and the other in that of `j`.
  pub union_sets-Merged :
      (s : DisjointSet K) (a b : K) (i j : ℕ)
      → IsValid s
      → index_of_existing equal s a ≡ some i
      → index_of_existing equal s b ≡ some j
      → (t : DisjointSet K) × (union_sets equal s a b ≡ some t)
        × IsValid t
        × (t.index_of ≡ s.index_of)
        × ((x y : ℕ) → Together t x y ↔ Merged s i j x y)
  unfolding union_sets
  union_sets-Merged s a b i j v ea eb =
      let w = pair s i j v (index_range equal s a i v ea) (index_range equal s b j v eb) in
      let eb' = index_after equal s w.first.after b j w.first.same_keys eb in
      let (t, result, valid, keys, merged) = union_roots-Merged s i j v w in
      (t, rw (ea, w.first.result, eb', w.second.result) result, valid, keys, merged)
