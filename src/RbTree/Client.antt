-- ===== src/RbTree/Client.antt =====
-- `RbTree` (include/rbtree.hpp) as an ordered set, and the calls of a client.
use de_si_gnar.Prelude.{◌≡◌, refl, some, List}
use de_si_gnar.Compare.{Compare}
use de_si_gnar.OrderedSet.{Call, IsOrderedSet, calls, calls_keys, calls_lem}
use de_si_gnar.RbTree.Container.{RbTree, empty, insert, search_or_insert, remove, search}
use de_si_gnar.RbTree.Container.Laws.{
  IsValid, keys, empty-IsValid, insert_lem, search_or_insert_lem, lookups,
}
use de_si_gnar.RbTree.Container.Removal.{remove-IsTaken}

module _ {ℓ} {K : Type ℓ} ⦃o : Compare K⦄ where
  -- A red-black tree is an ordered set: its valid trees hold ascending keys, and the calls do on
  -- the list of keys what an ordered list does; `remove` ends at each of them.
  pub rb-IsOrderedSet :
      IsOrderedSet {K = K} IsValid keys empty insert search_or_insert remove search
  rb-IsOrderedSet = record {
    empty_valid = empty-IsValid;
    empty_keys = unfold empty in refl;
    ascending = λ s v. v.sorted;
    searched = λ s k v. (lookups s k v).0;
    inserted = insert_lem;
    found_or_inserted = search_or_insert_lem;
    removed = λ s k v. let p = remove-IsTaken s k v in (p.after, p.result, p.valid, p.content);
  }

  -- From a valid tree, any sequence of insertions, searches with insertion and removals
  -- ends in a valid tree (black root, red-black invariant, keys strictly ascending, keys counted),
  -- whose keys are what the same calls make of the ordered list.
  pub calls-keys :
      (cs : List (Call K)) (t : RbTree K)
      → IsValid t
      → (t' : RbTree K) × (calls insert search_or_insert remove cs t ≡ some t')
        × IsValid t'
        × (keys t' ≡ calls_keys cs (keys t))
  calls-keys = calls_lem rb-IsOrderedSet
