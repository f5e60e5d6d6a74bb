-- ===== src/Tests/RankedAvl.antt =====
-- include/avltree.hpp at numbers: runs of `RankedAVLTree`, and its theorems at a tree that
-- insertions built.
use de_si_gnar.Prelude.{
  ℕ, ◌<◌, ◌≡◌, refl, sym, none, some, List, [], ◌∷◌, length, get_elem?, take, drop, remove_at,
  arith, subst,
}
use de_si_gnar.Prelude.Int.{pos, negsuc, ◌+ℤ◌, ◌-ℤ◌, max_ℤ, ltb_ℤ, eq_ℤ}
use de_si_gnar.Compare.{nat_less}
use de_si_gnar.Ordered
use de_si_gnar.Ordered.{IsSorted, reported, index_or_absent, is_none}
use de_si_gnar.Ordered.Laws
use de_si_gnar.Nodes.{generic_rotate_left, generic_rotate_right, generic_select, generic_position}
use de_si_gnar.RankedAvl
use de_si_gnar.RankedAvl.{
  RkInfo, RkNode, balance, rebalance, update, balance_factor, rotate_left, rotate_right,
  remove_here, join,
}
use de_si_gnar.RankedAvl.Join.{IsJoined, join-IsJoined, tall}
use de_si_gnar.RankedAvl.Container.{
  RankedAvlTree, empty, insert, select, position, size, split_pos, remove_pos,
}
use de_si_gnar.RankedAvl.Container.Laws.{
  IsWell, keys, insert-IsWell, select-position, remove_pos_within, split_pos_within, empty-IsWell,
}

abbrev inserted : List ℕ → RankedAvlTree ℕ
inserted [] = empty
inserted (k ∷ ks) = (insert (inserted ks) k).0

inserted-IsWell : (ks : List ℕ) → IsWell (inserted ks) × IsSorted (keys (inserted ks))
inserted-IsWell [] = (empty-IsWell, unfold empty in tt)
inserted-IsWell (k ∷ ks) =
    let (well, sorted) = inserted-IsWell ks in
    let (well', content, _) = insert-IsWell (inserted ks) k well sorted in
    (well', subst IsSorted (sym content) (Laws.insert-IsSorted k (keys (inserted ks)) sorted))

sample : RankedAvlTree ℕ
unfolding empty insert RankedAvl.insert balance rebalance update balance_factor rotate_left
    rotate_right generic_rotate_left generic_rotate_right ltb_ℤ ◌-ℤ◌ ◌+ℤ◌ max_ℤ
sample = inserted (4 ∷ 8 ∷ 2 ∷ 7 ∷ 1 ∷ 3 ∷ [])

well : IsWell sample
unfolding sample
well = (inserted-IsWell (4 ∷ 8 ∷ 2 ∷ 7 ∷ 1 ∷ 3 ∷ [])).0

sorted : IsSorted (keys sample)
unfolding sample
sorted = (inserted-IsWell (4 ∷ 8 ∷ 2 ∷ 7 ∷ 1 ∷ 3 ∷ [])).1

keys-sample : keys sample ≡ 1 ∷ 2 ∷ 3 ∷ 4 ∷ 7 ∷ 8 ∷ []
unfolding sample
keys-sample = refl

sample_reads : (size sample ≡ 6) × (select sample 3 ≡ some 4) × (select sample 6 ≡ none)
unfolding sample size select generic_select
sample_reads = (refl, refl, refl)

sample_places : (position sample 7 ≡ pos 4) × (position sample 5 ≡ negsuc 0)
unfolding sample position generic_position ◌+ℤ◌ eq_ℤ
sample_places = (refl, refl)

within : 2 < length (keys sample)
within = rw keys-sample (omega arith)

select-position_example : select sample 4 ≡ Ordered.search 7 (keys sample)
select-position_example = select-position sample 7 4 well sorted sample_places.0

remove_pos_within_example :
    (t' : RankedAvlTree ℕ) × (k : ℕ) × (remove_pos sample 2 ≡ some (t', k))
    × IsWell t'
    × (keys t' ≡ remove_at (keys sample) 2)
    × (get_elem? (keys sample) 2 ≡ some k)
remove_pos_within_example = remove_pos_within sample 2 well within

split_pos_within_example :
    (front : RankedAvlTree ℕ) × (back : RankedAvlTree ℕ) × (split_pos sample 2 ≡ some (front, back))
    × IsWell front
    × IsWell back
    × (keys front ≡ take 2 (keys sample))
    × (keys back ≡ drop 2 (keys sample))
split_pos_within_example = split_pos_within sample 2 well within

abbrev leaf : ℕ → RkNode ℕ
leaf k = RankedAvl.new_node k

join-IsJoined_example : IsJoined (tall sample.root) (tall (leaf 10)) (join sample.root 9 (leaf 10))
join-IsJoined_example =
    join-IsJoined sample.root 9 (leaf 10) well.avl (refl, omega arith, omega arith, tt, tt)
