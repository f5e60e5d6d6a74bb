-- ===== src/DisjointSet/Laws.antt =====
-- The class `DisjointSet` of include/unionfind.hpp: its invariant, and the partition that its calls
-- see and change.
use de_si_gnar.Prelude.{
  in_range, get_in_range, ℕ, suc, ◌<◌, ◌≡◌, ◌∙◌, refl, sym, Option, some, List, All, get_elem?,
  length, arith,
}
use de_si_gnar.DisjointSet.{DisjointSet, total, root_from}
use de_si_gnar.DisjointSet.Forest.{IsRoot, IsForest, rank_of, rank_of-total}
use de_si_gnar.DisjointSet.Halving.{find_root-IsFound}

pub rooted_range : (p : List ℕ) (i r : ℕ) → IsRoot p i r → i < length p
rooted_range p i r (IsRoot.here _ h) = in_range p i i h
rooted_range p i r (IsRoot.above _ u _ h n rest) = in_range p i u h

module _ {ℓ} {K : Type ℓ} where
  -- Parents are in range and have higher ranks; each index has a rank and a key; each key is stored
  -- at its index.
  pub record IsValid (s : DisjointSet K) : Type ℓ where
    pub forest : IsForest s.parent (rank_of s.rnk)
    pub ranks : length s.rnk ≡ length s.parent
    pub names : length s.key_of ≡ length s.parent
    pub indices : All (λ q. get_elem? s.key_of q.1 ≡ some q.0) s.index_of

  -- Two indices have one root.
  abbrev pub Together : DisjointSet K → ℕ → ℕ → Type 0
  Together s i j = (r : ℕ) × IsRoot s.parent i r × IsRoot s.parent j r

  -- What `find_root` promises of the whole state.
  pub record IsLooked (s : DisjointSet K) (i : ℕ) (res : Option (DisjointSet K × ℕ)) : Type ℓ where
    pub after : DisjointSet K
    pub root : ℕ
    pub result : res ≡ some (after, root)
    pub is_root : IsRoot s.parent i root
    pub valid : IsValid after
    pub same_keys : after.index_of ≡ s.index_of
    pub size : length after.parent ≡ length s.parent
    pub kept : (j r : ℕ) → IsRoot s.parent j r → IsRoot after.parent j r
    pub back : (j r : ℕ) → IsRoot after.parent j r → IsRoot s.parent j r

  pub root_from-IsLooked :
      (s : DisjointSet K) (i : ℕ) → IsValid s → i < length s.parent → IsLooked s i (root_from s i)
  unfolding root_from
  root_from-IsLooked s i v h =
      let (u, at_i) = get_in_range s.parent i h in
      let p =
        find_root-IsFound (suc (total s.rnk)) (total s.rnk) s.parent (rank_of s.rnk) i u v.forest
          (rank_of-total s.rnk) at_i (omega arith) in
      record {
        after = record s { parent = p.after };
        root = p.root;
        result = rw (p.result) refl;
        is_root = p.is_root;
        valid = record {
          forest = p.forest;
          ranks = v.ranks ∙ sym p.size;
          names = v.names ∙ sym p.size;
          indices = v.indices;
        };
        same_keys = refl;
        size = p.size;
        kept = p.kept;
        back = p.back;
      }

  -- Each index in range has a root.
  pub rooted :
      (s : DisjointSet K) (i : ℕ) → IsValid s → i < length s.parent → (r : ℕ) × IsRoot s.parent i r
  rooted s i v h = let p = root_from-IsLooked s i v h in (p.root, p.is_root)
