-- ===== src/DisjointSet/Forest.antt =====
-- The forest that the array `parent` of include/unionfind.hpp stands for: the root above an index,
-- and ranks that grow on the way up.
use de_si_gnar.Prelude.{
  some_inj, ℕ, zero, suc, ◌<◌, ◌≤◌, ◌≡◌, ◌∙◌, refl, sym, subst, some, ◌⊎◌, List, [], ◌∷◌, get_elem?,
  arith,
}
use de_si_gnar.DisjointSet.{total}

-- `r` is the root above `i`.
pub data IsRoot (parent : List ℕ) : ℕ → ℕ → Type 0 where
  here : (i : ℕ) → get_elem? parent i ≡ some i → IsRoot parent i i
  above :
      (i u r : ℕ) → get_elem? parent i ≡ some u → ¬ (u ≡ i) → IsRoot parent u r → IsRoot parent i r

-- Parents are in range, and have higher ranks.
abbrev pub IsForest : List ℕ → (ℕ → ℕ) → Type 0
IsForest parent rank =
    (i u : ℕ)
    → get_elem? parent i ≡ some u
    → ((u ≡ i) ⊎ (rank i < rank u)) × (v : ℕ) × (get_elem? parent u ≡ some v)

pub IsRoot-unique : (p : List ℕ) (i r s : ℕ) → IsRoot p i r → IsRoot p i s → r ≡ s
IsRoot-unique p i r s (IsRoot.here _ h) (IsRoot.here _ g) = refl
IsRoot-unique p i r s (IsRoot.here _ h) (IsRoot.above _ u _ g n rest) =
    absurd (n (some_inj (sym g ∙ h)))
IsRoot-unique p i r s (IsRoot.above _ u _ h n rest) (IsRoot.here _ g) =
    absurd (n (some_inj (sym h ∙ g)))
IsRoot-unique p i r s (IsRoot.above _ u _ h n rest) (IsRoot.above _ v _ g m more) =
    IsRoot-unique p u r s rest (subst (λ w. IsRoot p w s) (some_inj (sym g ∙ h)) more)

-- The root above an index is the root above its parent, and back.
pub IsRoot-up : (p : List ℕ) (i u r : ℕ) → get_elem? p i ≡ some u → IsRoot p i r → IsRoot p u r
IsRoot-up p i u r h (IsRoot.here _ g) =
    subst (λ w. IsRoot p w i) (some_inj (sym g ∙ h)) (IsRoot.here i g)
IsRoot-up p i u r h (IsRoot.above _ v _ g n rest) =
    subst (λ w. IsRoot p w r) (some_inj (sym g ∙ h)) rest

pub IsRoot-root : (p : List ℕ) (i r : ℕ) → IsRoot p i r → get_elem? p r ≡ some r
IsRoot-root p i r (IsRoot.here _ g) = g
IsRoot-root p i r (IsRoot.above _ v _ g n rest) = IsRoot-root p v r rest

-- The rank at an index, 0 out of range.
abbrev pub rank_of : List ℕ → ℕ → ℕ
rank_of [] i = 0
rank_of (r ∷ rs) zero = r
rank_of (r ∷ rs) (suc i) = rank_of rs i

pub rank_of-total : (rs : List ℕ) (i : ℕ) → rank_of rs i ≤ total rs
rank_of-total [] i = omega arith
rank_of-total (r ∷ rs) zero = omega arith
rank_of-total (r ∷ rs) (suc i) = omega (arith, rank_of-total rs i)

pub rank_of-get : (rs : List ℕ) (i r : ℕ) → get_elem? rs i ≡ some r → rank_of rs i ≡ r
rank_of-get [] i r h = cc
rank_of-get (x ∷ rs) zero r h = some_inj h
rank_of-get (x ∷ rs) (suc i) r h = rank_of-get rs i r h
