-- ===== src/RankedAvl/Container/Laws.antt =====
-- The representation invariant of the class `RankedAVLTree` (include/avltree.hpp), and its
-- methods on the list of keys, positions included.
use de_si_gnar.Prelude.{
  ℕ, zero, suc, leb→le, le→leb, le→leb_false, ◌≤◌, ◌<◌, ◌≡◌, ◌∙◌, refl, sym, ap, Bool, true, false,
  Option, none, some, List, [], ◌∷◌, arith, not, length, get_elem?, take, drop, remove_at,
  if◌then◌else◌, leb,
}
use de_si_gnar.Prelude.Int.{pos}
use de_si_gnar.Compare.{Compare}
use de_si_gnar.Ordered
use de_si_gnar.Ordered.{IsSorted, reported, is_none, index_or_absent}
use de_si_gnar.Ordered.Laws.{get_elem?-rank}
use de_si_gnar.Nodes.{inorder}
use de_si_gnar.Nodes.Ranked.{count-length, select-get_elem?, position-rank}
use de_si_gnar.Avl.Operations
use de_si_gnar.Avl.Keys
use de_si_gnar.RankedAvl
use de_si_gnar.RankedAvl.{RkNode, stored, count}
use de_si_gnar.RankedAvl.Erase.{erase, inorder-erase}
use de_si_gnar.RankedAvl.Simulate.{insert-erase, remove-erase}
use de_si_gnar.RankedAvl.Count.{IsCounted, remove_pos-IsCounted, split_pos-IsCounted}
use de_si_gnar.RankedAvl.CountKeys.{insert-IsCounted, remove-IsCounted}
use de_si_gnar.RankedAvl.Join.{IsRankedAvl}
use de_si_gnar.RankedAvl.Position.{
  remove_pos_lem, remove_pos-Shrinks, split_pos_lem, split_pos-IsRankedAvl,
}
use de_si_gnar.RankedAvl.Container.{
  RankedAvlTree, empty, insert, remove, select, position, size, split_pos, remove_pos, was_removed,
  removed,
}

guarded {κ} :
    {A : Type κ} (b : Bool) (g : Option A) (v : Option A)
    → (b ≡ true → v ≡ none)
    → (b ≡ false → g ≡ v)
    → (if b then none else g) ≡ v
guarded true g v h k = sym (h refl)
guarded false g v h k = k refl

module _ {ℓ} {K : Type ℓ} where
  abbrev pub keys : RankedAvlTree K → List K
  keys t = inorder t.root

  -- Balanced with right heights, and with right counts.
  pub record IsWell (t : RankedAvlTree K) : Type 0 where
    pub avl : IsRankedAvl t.root
    pub counts : IsCounted t.root

  pub empty-IsWell : IsWell empty
  unfolding empty
  empty-IsWell = record { avl = tt; counts = tt }

  pub size-length : (t : RankedAvlTree K) → IsWell t → size t ≡ length (keys t)
  unfolding size
  size-length t w = count-length stored t.root w.counts

  get_elem?-past : (xs : List K) (i : ℕ) → length xs ≤ i → get_elem? xs i ≡ none
  get_elem?-past [] i h = refl
  get_elem?-past (x ∷ xs) zero h = absurd (omega arith)
  get_elem?-past (x ∷ xs) (suc i) h = get_elem?-past xs i (omega arith)

  -- At a tree that is balanced with right heights and counts, `select` is the key at the
  -- position in the list of keys, and throws exactly where there is none.
  pub select_lem : (t : RankedAvlTree K) (i : ℕ) → IsWell t → select t i ≡ get_elem? (keys t) i
  unfolding select
  select_lem t i w =
      let s = size-length t w in
      guarded (leb (size t) i) _ _
        (λ e. get_elem?-past (keys t) i (omega (arith, s, leb→le (size t) i e)))
        (λ e. select-get_elem? stored t.root i w.counts)

  removed-some :
      (res : RkNode K × Option K) {k : K}
      → res.1 ≡ some k
      → removed res ≡ some (record { root = res.0 }, k)
  removed-some (r, none) e = cc
  removed-some (r, some k) e = cc

  get_elem?-within : (xs : List K) (i : ℕ) → i < length xs → (k : K) × (get_elem? xs i ≡ some k)
  get_elem?-within [] i h = absurd (omega arith)
  get_elem?-within (x ∷ xs) zero h = (x, refl)
  get_elem?-within (x ∷ xs) (suc i) h = get_elem?-within xs i (omega arith)

  -- At a tree that is balanced with right heights and counts, and a position below its size,
  -- `remove_pos` does not throw: it gives such a tree with the key at the position taken out
  -- and the others in order, and hands that key out.
  pub remove_pos_within :
      (t : RankedAvlTree K) (i : ℕ)
      → IsWell t
      → i < length (keys t)
      → (t' : RankedAvlTree K) × (k : K) × (remove_pos t i ≡ some (t', k))
        × IsWell t'
        × (keys t' ≡ remove_at (keys t) i)
        × (get_elem? (keys t) i ≡ some k)
  unfolding remove_pos
  remove_pos_within t i w h =
      let res = RankedAvl.remove_pos t.root i in
      let (content, gone) = remove_pos_lem t.root i w.counts in
      let (k, found) = get_elem?-within (keys t) i h in
      (
        record { root = res.0 },
        k,
        rw (le→leb_false (size t) i (omega (arith, size-length t w)))
            (removed-some res (gone ∙ found)),
        record {
          avl = (remove_pos-Shrinks t.root i w.avl).avl;
          counts = remove_pos-IsCounted t.root i w.counts;
        },
        content,
        found,
      )

  -- At a tree that is balanced with right heights and counts, and a position below its size,
  -- `split_pos` does not throw: it gives two such trees, with the keys before the position in
  -- the first, and the others in the second.
  pub split_pos_within :
      (t : RankedAvlTree K) (i : ℕ)
      → IsWell t
      → i < length (keys t)
      → (front : RankedAvlTree K) × (back : RankedAvlTree K) × (split_pos t i ≡ some (front, back))
        × IsWell front
        × IsWell back
        × (keys front ≡ take i (keys t))
        × (keys back ≡ drop i (keys t))
  unfolding split_pos
  split_pos_within t i w h =
      let parts = RankedAvl.split_pos t.root i in
      let (front, back) = split_pos_lem t.root i w.counts in
      let (af, ab) = split_pos-IsRankedAvl t.root i w.avl in
      let (cf, cb) = split_pos-IsCounted t.root i w.counts in
      (
        record { root = parts.0 },
        record { root = parts.1 },
        rw (le→leb_false (size t) i (omega (arith, size-length t w))) refl,
        record { avl = af; counts = cf },
        record { avl = ab; counts = cb },
        front,
        back,
      )

  -- At a tree that is balanced with right heights and counts, `select`, `remove_pos` and
  -- `split_pos` throw at each position from the size on.
  pub past_end :
      (t : RankedAvlTree K) (i : ℕ)
      → IsWell t
      → length (keys t) ≤ i
      → (select t i ≡ none) × (remove_pos t i ≡ none) × (split_pos t i ≡ none)
  unfolding select remove_pos split_pos
  past_end t i w h =
      let e = le→leb (size t) i (omega (arith, size-length t w)) in
      (rw e refl, rw e refl, rw e refl)

pos_injective : {m n : ℕ} → pos m ≡ pos n → m ≡ n
pos_injective h = ground arith

module _ {ℓ} {K : Type ℓ} ⦃o : Compare K⦄ where
  -- At a tree that is balanced with right heights and counts, and whose keys ascend, `insert`
  -- leaves such a tree with the keys of the ordered list after the insertion, and reports the
  -- key unless an equivalent one was there.
  pub insert-IsWell :
      (t : RankedAvlTree K) (k : K)
      → IsWell t
      → IsSorted (keys t)
      → IsWell (insert t k).0
        × (keys (insert t k).0 ≡ Ordered.insert k (keys t))
        × ((insert t k).1 ≡ reported (Ordered.search k (keys t)) k)
  unfolding insert
  insert-IsWell t k w s =
      let (same, report) = insert-erase t.root k in
      let flat = inorder-erase t.root in
      let (content, told) = Keys.insert-inorder (erase t.root) k (rw flat s) in
      (
        record {
          avl = rw same ((Operations.insert-Grows (erase t.root) k w.avl).avl);
          counts = insert-IsCounted t.root k w.counts;
        },
        sym (inorder-erase (RankedAvl.insert t.root k).0)
            ∙ ap inorder same
            ∙ content
            ∙ ap (Ordered.insert k) flat,
        report ∙ told ∙ ap (λ xs. reported (Ordered.search k xs) k) flat,
      )

  was_removed_lem : (f : Option K) → was_removed f ≡ not (is_none f)
  was_removed_lem none = refl
  was_removed_lem (some x) = refl

  -- At a tree that is balanced with right heights and counts, and whose keys ascend, `remove`
  -- leaves such a tree with the keys of the ordered list after the removal, and tells whether
  -- the key was there.
  pub remove-IsWell :
      (t : RankedAvlTree K) (k : K)
      → IsWell t
      → IsSorted (keys t)
      → IsWell (remove t k).0
        × (keys (remove t k).0 ≡ Ordered.remove k (keys t))
        × ((remove t k).1 ≡ not (is_none (Ordered.search k (keys t))))
  unfolding remove
  remove-IsWell t k w s =
      let (same, report) = remove-erase t.root k in
      let flat = inorder-erase t.root in
      let (content, told) = Keys.remove-inorder (erase t.root) k (rw flat s) in
      (
        record {
          avl = rw same ((Operations.remove-Shrinks (erase t.root) k w.avl).avl);
          counts = remove-IsCounted t.root k w.counts;
        },
        sym (inorder-erase (RankedAvl.remove t.root k).0)
            ∙ ap inorder same
            ∙ content
            ∙ ap (Ordered.remove k) flat,
        was_removed_lem _ ∙ ap (λ f. not (is_none f)) (report ∙ told ∙ ap (Ordered.search k) flat),
      )

  -- At a tree with right counts whose keys ascend, balanced with right heights, `position` is
  -- the number of keys before the given one if an equivalent key is there, and -1 otherwise.
  pub position_lem :
      (t : RankedAvlTree K) (k : K)
      → IsWell t
      → IsSorted (keys t)
      → position t k ≡ index_or_absent (Ordered.search k (keys t)) (Ordered.rank k (keys t))
  unfolding position
  position_lem t k w s = position-rank stored t.root k w.counts s

  -- At a tree that is balanced with right heights and counts, and whose keys ascend: if
  -- `position` places a key at `i`, then `select` at `i` gives the key in the tree that a
  -- search for it finds.
  pub select-position :
      (t : RankedAvlTree K) (k : K) (i : ℕ)
      → IsWell t
      → IsSorted (keys t)
      → position t k ≡ pos i
      → select t i ≡ Ordered.search k (keys t)
  select-position t k i w s e =
      select_lem t i w ∙ at_rank (Ordered.search k (keys t)) refl (sym (position_lem t k w s) ∙ e)
    where
      at_rank :
          (f : Option K)
          → Ordered.search k (keys t) ≡ f
          → index_or_absent f (Ordered.rank k (keys t)) ≡ pos i
          → get_elem? (keys t) i ≡ f
      at_rank none found p = cc
      at_rank (some x) found p = rw (← pos_injective p) (get_elem?-rank k (keys t) found)
