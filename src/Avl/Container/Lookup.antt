-- ===== src/Avl/Container/Lookup.antt =====
-- What `AVLTree::search` (include/avltree.hpp) finds after an insertion and after a removal.
use de_si_gnar.Prelude.{◌≡◌, ◌∙◌, ap, none, some, if◌then◌else◌}
use de_si_gnar.Compare.{Compare}
use de_si_gnar.Ordered
use de_si_gnar.Ordered.{found_or}
use de_si_gnar.Ordered.Laws.{equiv}
use de_si_gnar.Ordered.Laws
use de_si_gnar.Avl.Container.{AvlTree, insert, remove, search}
use de_si_gnar.Avl.Container.Laws.{IsValid, keys, insert-IsValid, keys-insert, remove_lem, lookups}

module _ {ℓ} {K : Type ℓ} ⦃o : Compare K⦄ (t : AvlTree K) (j k : K) (v : IsValid t) where
  -- At a valid tree, after `insert(k)` a search for a key equivalent to `k` finds the key
  -- that was there before, or else `k`; a search for any other key finds what it found
  -- before.
  pub search-insert :
      search (insert t k).0 j ≡ (if equiv j k then some (found_or (search t k) k) else search t j)
  search-insert =
      let at_j = (lookups t j v).0 in
      let at_k = (lookups t k v).0 in
      rw (at_j, at_k)
        ((lookups (insert t k).0 j (insert-IsValid t k v)).0
          ∙ ap (Ordered.search j) (keys-insert t k v.sorted)
          ∙ Laws.search-insert j k (keys t))

  -- At a valid tree, after `remove(k)` a search for a key equivalent to `k` finds nothing; a
  -- search for any other key finds what it found before.
  pub search-remove : search (remove t k).0 j ≡ (if equiv j k then none else search t j)
  search-remove =
      let (valid, content, done) = remove_lem t k v in
      rw ((lookups t j v).0) (
        (lookups (remove t k).0 j valid).0
        ∙ ap (Ordered.search j) content
        ∙ Laws.search-remove j k (keys t) v.sorted)
