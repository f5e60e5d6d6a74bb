-- ===== src/DisjointSet/Halving.antt =====
-- Path halving in `find_root` of include/unionfind.hpp: it keeps the root above each index, and the
-- loop ends at the root.
use de_si_gnar.Prelude.{
  some_inj, ℕ, zero, suc, ◌<◌, ◌≤◌, ◌+◌, ◌==◌, ==_iff, ==_ne, ◌≡◌, ◌∙◌, refl, sym, ap, subst,
  Bool-cases, false, Option, some, ◌⊎◌, inl, inr, List, get_elem?, length, arith,
}
use de_si_gnar.Prelude.Updates.{set, get_elem?-set, get_elem?-set_other, length-set}
use de_si_gnar.DisjointSet.{find_root}
use de_si_gnar.DisjointSet.Forest.{IsRoot, IsForest, IsRoot-up}

pub eq_or_not : (i j : ℕ) → (i ≡ j) ⊎ (¬ (i ≡ j))
eq_or_not i j = elim (Bool-cases (i == j)) [
  | inl e ↦ inl ((==_iff i j).0 e)
  | inr n ↦ inr (==_ne i j n)
]

pub differ : (i j : ℕ) → ¬ (i ≡ j) → (i == j) ≡ false
differ i j n = elim (Bool-cases (i == j)) [ inl e ↦ absurd (n ((==_iff i j).0 e)) | inr m ↦ m ]

module _ (p : List ℕ) (rank : ℕ → ℕ) (f : IsForest p rank) (i u w : ℕ)
    (at_i : get_elem? p i ≡ some u) (at_u : get_elem? p u ≡ some w) (n : ¬ (u ≡ i)) where
  -- The ranks on the two steps up.
  lower : rank i < rank w
  lower = elim ((f i u at_i).0) [
    | inl same ↦ absurd (n same)
    | inr first ↦ elim ((f u w at_u).0) [
      | inl top ↦ rw top first
      | inr second ↦ omega (arith, first, second)
    ]
  ]

  skips : ¬ (w ≡ i)
  skips e = omega (arith, ap rank e, lower)

  halved_i : get_elem? (set p i w) i ≡ some w
  halved_i = get_elem?-set p i u w at_i

  halved_other : (j : ℕ) → ¬ (j ≡ i) → get_elem? (set p i w) j ≡ get_elem? p j
  halved_other j h = get_elem?-set_other p i j w h

  IsRoot-halved : (j r : ℕ) → IsRoot p j r → IsRoot (set p i w) j r
  IsRoot-halved j _ (IsRoot.here _ h) = elim (eq_or_not j i) [
    | inl e ↦ absurd (n (some_inj (sym at_i ∙ ap (get_elem? p) (sym e) ∙ h) ∙ e))
    | inr m ↦ IsRoot.here j (halved_other j m ∙ h)
  ]
  IsRoot-halved j r (IsRoot.above _ v _ h m rest) =
      let below = IsRoot-halved v r rest in
      elim (eq_or_not j i) [
        | inl e ↦
            let same : v ≡ u = some_inj (sym h ∙ ap (get_elem? p) e ∙ at_i) in
            let at_w =
              IsRoot-up (set p i w) u w r (halved_other u n ∙ at_u)
                (subst (λ z. IsRoot (set p i w) z r) same below) in
            IsRoot.above j w r (ap (get_elem? (set p i w)) e ∙ halved_i) (λ q. skips (q ∙ e)) at_w
        | inr o ↦ IsRoot.above j v r (halved_other j o ∙ h) m below
      ]

  -- One step more below a root.
  raised : (a b r : ℕ) → get_elem? p a ≡ some b → IsRoot p b r → IsRoot p a r
  raised a b r h g = elim (eq_or_not b a) [
    | inl e ↦ subst (λ z. IsRoot p z r) e g
    | inr m ↦ IsRoot.above a b r h m g
  ]

  IsRoot-of_halved : (j r : ℕ) → IsRoot (set p i w) j r → IsRoot p j r
  IsRoot-of_halved j _ (IsRoot.here _ h) = elim (eq_or_not j i) [
    | inl e ↦ absurd (skips (some_inj (sym halved_i ∙ ap (get_elem? (set p i w)) (sym e) ∙ h) ∙ e))
    | inr m ↦ IsRoot.here j (sym (halved_other j m) ∙ h)
  ]
  IsRoot-of_halved j r (IsRoot.above _ v _ h m rest) =
      let below = IsRoot-of_halved v r rest in
      elim (eq_or_not j i) [
        | inl e ↦
            let same : v ≡ w = some_inj (sym h ∙ ap (get_elem? (set p i w)) e ∙ halved_i) in
            let from_u = raised u w r at_u (subst (λ z. IsRoot p z r) same below) in
            raised j u r (ap (get_elem? p) e ∙ at_i) from_u
        | inr o ↦ raised j v r (sym (halved_other j o) ∙ h) below
      ]

  still_there : (j v : ℕ) → get_elem? p j ≡ some v → (x : ℕ) × (get_elem? (set p i w) j ≡ some x)
  still_there j v h = elim (eq_or_not j i) [
    | inl e ↦ (w, ap (get_elem? (set p i w)) e ∙ halved_i)
    | inr m ↦ (v, halved_other j m ∙ h)
  ]

  IsForest-halved : IsForest (set p i w) rank
  IsForest-halved j v h = elim (eq_or_not j i) [
    | inl e ↦
        let same : v ≡ w = some_inj (sym h ∙ ap (get_elem? (set p i w)) e ∙ halved_i) in
        let (order, x, range) = f u w at_u in
        let (y, range') = still_there w x range in
        (inr (rw (same, e) lower), y, ap (get_elem? (set p i w)) same ∙ range')
    | inr m ↦
        let (order, x, range) = f j v (sym (halved_other j m) ∙ h) in
        let (y, range') = still_there v x range in (order, y, range')
  ]

-- What `find_root` does: it returns the root above the index, and keeps the roots of all.
pub record IsFound (parent : List ℕ) (rank : ℕ → ℕ) (i : ℕ) (res : Option (List ℕ × ℕ))
    : Type 0 where
  pub after : List ℕ
  pub root : ℕ
  pub result : res ≡ some (after, root)
  pub is_root : IsRoot parent i root
  pub forest : IsForest after rank
  pub size : length after ≡ length parent
  pub kept : (j r : ℕ) → IsRoot parent j r → IsRoot after j r
  pub back : (j r : ℕ) → IsRoot after j r → IsRoot parent j r

-- In a forest whose parents are in range and of higher rank, with all ranks up to a bound, and
-- with fuel past the bound less the rank of an index in range, `find_root` ends at the root
-- above that index. It leaves a forest of the same size with the same ranks, and each index
-- under the root it was under.
pub find_root-IsFound :
    (fuel bound : ℕ) (parent : List ℕ) (rank : ℕ → ℕ) (i u : ℕ)
    → IsForest parent rank
    → ((j : ℕ) → rank j ≤ bound)
    → get_elem? parent i ≡ some u
    → bound < fuel + rank i
    → IsFound parent rank i (find_root fuel parent i)
unfolding find_root
find_root-IsFound zero bound p rank i u f bounded h enough =
    absurd (omega (arith, bounded i, enough))
find_root-IsFound (suc fuel) bound p rank i u f bounded h enough =
    let (order, w, at_u) = f i u h in
    elim (eq_or_not u i) [
      | inl top ↦ record {
        after = p;
        root = i;
        result = rw (h, at_u, (==_iff u i).1 top) refl;
        is_root = IsRoot.here i (h ∙ ap some top);
        forest = f;
        size = refl;
        kept = λ j r g. g;
        back = λ j r g. g;
      }
      | inr n ↦
          let low = lower p rank f i u w h at_u n in
          let (_, x, range) = f u w at_u in
          let (y, at_w) = still_there p rank f i u w h at_u n w x range in
          let rest =
            find_root-IsFound fuel bound (set p i w) rank w y
              (IsForest-halved p rank f i u w h at_u n) bounded at_w (omega (arith, low, enough)) in
          let not_top : (u == i) ≡ false = differ u i n in
          record {
            after = rest.after;
            root = rest.root;
            result = rw (h, at_u, not_top, rest.result) refl;
            is_root = raised p rank f i u w h at_u n i u rest.root h (
                raised p rank f i u w h at_u n u w rest.root at_u
                  (IsRoot-of_halved p rank f i u w h at_u n w rest.root rest.is_root));
            forest = rest.forest;
            size = rest.size ∙ length-set p i w;
            kept = λ j r g. rest.kept j r (IsRoot-halved p rank f i u w h at_u n j r g);
            back = λ j r g. IsRoot-of_halved p rank f i u w h at_u n j r (rest.back j r g);
          }
    ]
