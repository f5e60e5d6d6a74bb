-- ===== src/ArraySet/Laws.antt =====
-- The methods of `GenArraySet` with `SortedArraySetOp` (include/set.hpp) on the ordered list.
use de_si_gnar.Prelude.{
  ℕ, ◌<◌, ◌==◌, ==_iff, ◌≡◌, refl, false, not, le→leb, le→leb_false, some, List, in_range, length,
  arith,
}
use de_si_gnar.Compare.{Compare, asymm}
use de_si_gnar.Ordered
use de_si_gnar.Ordered.{IsSorted, rank, reported, found_or, is_none}
use de_si_gnar.Ordered.Laws.{insert-IsSorted, remove-IsSorted}
use de_si_gnar.Sort.Search.{binary_search-rank}
use de_si_gnar.ArraySet.{
  remove_pos_closing_breach, search_pos, insert, search_or_insert, search, remove,
}
use de_si_gnar.ArraySet.Place.{Place, place}

below-== : (i n : ℕ) → i < n → (i == n) ≡ false
below-== i n h = ground arith

module _ {ℓ} {K : Type ℓ} ⦃o : Compare K⦄ where
  search_pos-rank : (a : List K) (k : K) → IsSorted a → search_pos a k ≡ some (rank k a)
  unfolding search_pos
  search_pos-rank a k s = binary_search-rank a k s

  insert_of :
      (a : List K) (k : K)
      → search_pos a k ≡ some (rank k a)
      → Place k a
      → insert a k ≡ some (Ordered.insert k a, reported (Ordered.search k a) k)
  unfolding insert
  insert_of a k at (Place.past r s i m) = rw (insert, at, (==_iff _ _).1 r, s, i) refl
  insert_of a k at (Place.before x g h s i m) =
      rw (insert, at, below-== _ _ (in_range a _ x g), g, h, i, s) refl
  insert_of a k at (Place.found x g h h' s i m) =
      rw (insert, at, below-== _ _ (in_range a _ x g), g, h, h', i, s) refl

  search_of :
      (a : List K) (k : K)
      → search_pos a k ≡ some (rank k a)
      → Place k a
      → search a k ≡ some (Ordered.search k a)
  unfolding search
  search_of a k at (Place.past r s i m) =
      rw (search, at, le→leb (length a) (rank k a) (omega (arith, r)), s) refl
  search_of a k at (Place.before x g h s i m) =
      rw (search, at, le→leb_false (length a) (rank k a) (in_range a _ x g), g, h, s) refl
  search_of a k at (Place.found x g h h' s i m) =
      rw (search, at, le→leb_false (length a) (rank k a) (in_range a _ x g), g, h, h', s) refl

  search_or_insert_of :
      (a : List K) (k : K)
      → search_pos a k ≡ some (rank k a)
      → Place k a
      → search_or_insert a k ≡ some (Ordered.insert k a, found_or (Ordered.search k a) k)
  unfolding search_or_insert
  search_or_insert_of a k at (Place.past r s i m) =
      rw (search_or_insert, at, (==_iff _ _).1 r, s, i) refl
  search_or_insert_of a k at (Place.before x g h s i m) =
      rw (search_or_insert, at, below-== _ _ (in_range a _ x g), g, h, i, s) refl
  search_or_insert_of a k at (Place.found x g h h' s i m) =
      rw (search_or_insert, at, below-== _ _ (in_range a _ x g), g, h, h', i, s) refl

  remove_of :
      (a : List K) (k : K)
      → search_pos a k ≡ some (rank k a)
      → Place k a
      → remove a k ≡ some (Ordered.remove k a, not (is_none (Ordered.search k a)))
  unfolding remove remove_pos_closing_breach
  remove_of a k at (Place.past r s i m) =
      rw (remove, at, le→leb (length a) (rank k a) (omega (arith, r)), s, m) refl
  remove_of a k at (Place.before x g h s i m) =
      let back = asymm k x h in
      rw (remove, at, le→leb_false (length a) (rank k a) (in_range a _ x g), g, back, h, s, m) refl
  remove_of a k at (Place.found x g h h' s i m) =
      rw
        (
          remove,
          at,
          le→leb_false (length a) (rank k a) (in_range a _ x g),
          g,
          h,
          h',
          remove_pos_closing_breach,
          s,
          m,
        )
        refl

  -- On an ascending array, `insert`, `search_or_insert`, `search` and `remove` end without an
  -- exception and do what an ordered list does; the arrays they leave ascend.
  pub array_refines :
      (a : List K) (k : K)
      → IsSorted a
      → (insert a k ≡ some (Ordered.insert k a, reported (Ordered.search k a) k))
        × (search_or_insert a k ≡ some (Ordered.insert k a, found_or (Ordered.search k a) k))
        × (search a k ≡ some (Ordered.search k a))
        × (remove a k ≡ some (Ordered.remove k a, not (is_none (Ordered.search k a))))
        × IsSorted (Ordered.insert k a)
        × IsSorted (Ordered.remove k a)
  array_refines a k s =
      let at = search_pos-rank a k s in
      let p = place k a in
      (
        insert_of a k at p,
        search_or_insert_of a k at p,
        search_of a k at p,
        remove_of a k at p,
        insert-IsSorted k a s,
        remove-IsSorted k a s,
      )
