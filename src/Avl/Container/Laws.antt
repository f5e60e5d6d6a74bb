-- ===== src/Avl/Container/Laws.antt =====
-- The representation invariant of the class `AVLTree` (include/avltree.hpp), and its methods on
-- the list of keys.
use de_si_gnar.Prelude.{
  ℕ, ◌+◌, ◌-◌, ◌≡◌, ◌∙◌, refl, sym, ap, Bool, Option, none, some, List, arith, not, length, first,
  last, if◌then◌else◌,
}
use de_si_gnar.Compare.{Compare}
use de_si_gnar.Ordered
use de_si_gnar.Ordered.{IsSorted, reported, found_or, is_none}
use de_si_gnar.Ordered.Laws.{insert-IsSorted, remove-IsSorted, length-insert, length-remove, hits}
use de_si_gnar.Nodes.{null, node, inorder}
use de_si_gnar.Nodes.Inorder.{min-inorder, max-inorder}
use de_si_gnar.Avl
use de_si_gnar.Avl.{AvlNode}
use de_si_gnar.Avl.Shape.{IsAvl}
use de_si_gnar.Avl.Operations.{insert-Grows, search_or_insert-Grows, remove-Shrinks}
use de_si_gnar.Avl.Keys.{insert-inorder, remove-inorder, search_or_insert-inorder}
use de_si_gnar.Avl.Search.{search-inorder_lem}
use de_si_gnar.Avl.Container.{
  AvlTree, empty, insert, search_or_insert, remove, search, find, counted, uncounted, minimum,
  maximum,
}

module _ {ℓ} {K : Type ℓ} where
  abbrev pub keys : AvlTree K → List K
  keys t = inorder t.root

module _ {ℓ} {K : Type ℓ} where
  minimum-first :
      (r : AvlNode K) (n : ℕ) → minimum (record { root = r; num_items = n }) ≡ first (inorder r)
  unfolding minimum
  minimum-first null n = refl
  minimum-first (node h l x r) n = min-inorder (node h l x r)

  maximum-last :
      (r : AvlNode K) (n : ℕ) → maximum (record { root = r; num_items = n }) ≡ last (inorder r)
  unfolding maximum
  maximum-last null n = refl
  maximum-last (node h l x r) n = max-inorder (node h l x r)

  same : (f : Option K) → (elim f [ none ↦ none | some x ↦ some x ]) ≡ f
  same none = refl
  same (some x) = refl

module _ {ℓ} {K : Type ℓ} ⦃o : Compare K⦄ where
  -- The tree is balanced with right heights, its keys ascend strictly, and they are counted.
  pub record IsValid (t : AvlTree K) : Type 0 where
    pub avl : IsAvl t.root
    pub sorted : IsSorted (keys t)
    pub counts : t.num_items ≡ length (keys t)

  pub empty-IsValid : IsValid empty
  unfolding empty
  empty-IsValid = record { avl = tt; sorted = tt; counts = refl }

  counted_root : (n : ℕ) (res : AvlNode K × Option K) → (counted n res).0.root ≡ res.0
  counted_root n (r, none) = refl
  counted_root n (r, some k) = refl

  counted_report : (n : ℕ) (res : AvlNode K × Option K) → (counted n res).1 ≡ res.1
  counted_report n (r, none) = refl
  counted_report n (r, some k) = refl

  counted_items :
      (n : ℕ) (res : AvlNode K × Option K) → (counted n res).0.num_items ≡ n + hits res.1
  counted_items n (r, none) = omega arith
  counted_items n (r, some k) = refl

  insert_items :
      (t : AvlTree K) (k : K) → (insert t k).0.num_items ≡ t.num_items + hits (insert t k).1
  unfolding insert
  insert_items t k =
      let res = Avl.insert t.root k in
      counted_items t.num_items res
      ∙ ap (λ f. t.num_items + hits f) (sym (counted_report t.num_items res))

  hits-reported : (f : Option K) (k : K) → hits (reported f k) + hits f ≡ 1
  hits-reported none k = refl
  hits-reported (some x) k = refl

  -- `insert`: what a client sees.
  pub keys-insert :
      (t : AvlTree K) (k : K) → IsSorted (keys t) → keys (insert t k).0 ≡ Ordered.insert k (keys t)
  unfolding insert
  keys-insert t k s =
      ap inorder (counted_root t.num_items (Avl.insert t.root k)) ∙ (insert-inorder t.root k s).0

  pub insert_report :
      (t : AvlTree K) (k : K)
      → IsSorted (keys t)
      → (insert t k).1 ≡ reported (Ordered.search k (keys t)) k
  unfolding insert
  insert_report t k s =
      counted_report t.num_items (Avl.insert t.root k) ∙ (insert-inorder t.root k s).1

  IsValid-of :
      (t : AvlTree K) {xs : List K}
      → IsAvl t.root
      → keys t ≡ xs
      → IsSorted xs
      → t.num_items ≡ length xs
      → IsValid t
  IsValid-of t a e s c = record { avl = a; sorted = rw e s; counts = rw e c }

  -- `insert` keeps a valid tree valid.
  pub insert-IsValid : (t : AvlTree K) (k : K) → IsValid t → IsValid (insert t k).0
  insert-IsValid t k v =
      IsValid-of (insert t k).0
        (unfold insert in
          rw (counted_root t.num_items (Avl.insert t.root k)) ((insert-Grows t.root k v.avl).avl))
        (keys-insert t k v.sorted) (insert-IsSorted k (keys t) v.sorted)
        (insert_items t k
          ∙ rw (insert_report t k v.sorted) (
              omega (
                arith,
                v.counts,
                length-insert k (keys t),
                hits-reported (Ordered.search k (keys t)) k,
              )))

  search_or_insert_items :
      (fresh : Bool) (n : ℕ) (f : Option K)
      → fresh ≡ is_none f
      → (if fresh then n + 1 else n) + hits f ≡ n + 1
  search_or_insert_items fresh n none e = rw e (omega arith)
  search_or_insert_items fresh n (some x) e = rw e refl

  -- At a valid tree, `search_or_insert` leaves a valid tree with the keys of the ordered list
  -- after the insertion, and hands out the equivalent key that was there, or else the new
  -- one.
  pub search_or_insert_lem :
      (t : AvlTree K) (k : K)
      → IsValid t
      → IsValid (search_or_insert t k).0
        × (keys (search_or_insert t k).0 ≡ Ordered.insert k (keys t))
        × ((search_or_insert t k).1 ≡ found_or (Ordered.search k (keys t)) k)
  unfolding search_or_insert
  search_or_insert_lem t k v =
      let (content, found, fresh) = search_or_insert-inorder t.root k v.sorted in
      (
        IsValid-of (search_or_insert t k).0 (search_or_insert-Grows t.root k v.avl).avl content
            (insert-IsSorted k (keys t) v.sorted)
            (omega (
              arith,
              v.counts,
              length-insert k (keys t),
              search_or_insert_items _ t.num_items (Ordered.search k (keys t)) fresh,
            )),
        content,
        found,
      )

  uncounted_root : (n : ℕ) (res : AvlNode K × Option K) → (uncounted n res).0.root ≡ res.0
  uncounted_root n (r, none) = refl
  uncounted_root n (r, some k) = refl

  uncounted_items :
      (n : ℕ) (res : AvlNode K × Option K) → (uncounted n res).0.num_items ≡ n - hits res.1
  uncounted_items n (r, none) = omega arith
  uncounted_items n (r, some k) = refl

  uncounted_done : (n : ℕ) (res : AvlNode K × Option K) → (uncounted n res).1 ≡ not (is_none res.1)
  uncounted_done n (r, none) = refl
  uncounted_done n (r, some k) = refl

  -- At a valid tree, `remove` leaves a valid tree with the keys of the ordered list after the
  -- removal, and tells whether the key was there.
  pub remove_lem :
      (t : AvlTree K) (k : K)
      → IsValid t
      → IsValid (remove t k).0
        × (keys (remove t k).0 ≡ Ordered.remove k (keys t))
        × ((remove t k).1 ≡ not (is_none (Ordered.search k (keys t))))
  unfolding remove
  remove_lem t k v =
      let res = Avl.remove t.root k in
      let (content, report) = remove-inorder t.root k v.sorted in
      let content' = ap inorder (uncounted_root t.num_items res) ∙ content in
      (
        IsValid-of (remove t k).0
            (rw (uncounted_root t.num_items res) ((remove-Shrinks t.root k v.avl).avl)) content'
            (remove-IsSorted k (keys t) v.sorted)
            (uncounted_items t.num_items res
              ∙ rw report (omega (arith, v.counts, length-remove k (keys t)))),
        content',
        uncounted_done t.num_items res ∙ rw report refl,
      )

  -- At a valid tree, `search` and `find` give what a search of the ordered list of keys
  -- gives, and `min` and `max` its first and last key; where there is none, `find`, `min` and
  -- `max` throw.
  pub lookups :
      (t : AvlTree K) (k : K)
      → IsValid t
      → (search t k ≡ Ordered.search k (keys t))
        × (find t k ≡ Ordered.search k (keys t))
        × (minimum t ≡ first (keys t))
        × (maximum t ≡ last (keys t))
  unfolding search find
  lookups t k v =
      let s = search-inorder_lem t.root k v.sorted in
      (s, same (search t k) ∙ s, minimum-first t.root t.num_items, maximum-last t.root t.num_items)
