-- ===== src/RbTree/Container/Laws.antt =====
-- The representation invariant of the class `RbTree` (include/rbtree.hpp), and its methods but
-- `remove` on the list of keys.
use de_si_gnar.Prelude.{
  ℕ, suc, ◌+◌, ◌≡◌, ◌∙◌, refl, sym, ap, Bool, false, Option, none, some, List, arith, length, first,
  last, if◌then◌else◌,
}
use de_si_gnar.Compare.{Compare}
use de_si_gnar.Ordered
use de_si_gnar.Ordered.{IsSorted, IsSortedDup, reported, found_or, is_none}
use de_si_gnar.Ordered.Laws.{length-insert_dup, insert-IsSorted, length-insert, hits}
use de_si_gnar.Nodes.{null, node, inorder}
use de_si_gnar.Nodes.Inorder.{min-inorder, max-inorder}
use de_si_gnar.RbTree as Rb
use de_si_gnar.RbTree.{RbColor, red, black, RbNode, is_red, with_color}
use de_si_gnar.RbTree.Shape.{IsRb, IsLoose}
use de_si_gnar.RbTree.Insert.{
  insert_dup-IsGrown, insert-none, insert-IsGrown, search_or_insert-IsGrown,
}
use de_si_gnar.RbTree.Keys.{
  insert_dup-inorder, insert-inorder, search_or_insert-inorder, search-inorder_lem,
}
use de_si_gnar.RbTree.Container.{
  insert_dup, RbTree, empty, insert, search_or_insert, search, find, counted, minimum, maximum,
}

module _ {ℓ} {K : Type ℓ} where
  abbrev pub keys : RbTree K → List K
  keys t = inorder t.root

  pub inorder-with_color : (c : RbColor) (t : RbNode K) → inorder (with_color c t) ≡ inorder t
  inorder-with_color c null = refl
  inorder-with_color c (node d l x r) = refl

  -- A black root: no red link into the tree, and each path has as many black nodes.
  abbrev pub IsBlack : RbNode K → Type 0
  IsBlack t = (n : ℕ) × IsRb t n × (is_red t ≡ false)

  -- `COLOR(root) = BLACK` after an operation that may leave the root red, over a red left child.
  pub blacken : (t : RbNode K) (n : ℕ) → IsLoose t n → IsBlack (with_color black t)
  blacken null n h = (n, h, refl)
  blacken (node red l x r) n h = (suc n, (h.0, h.1, h.2), refl)
  blacken (node black l x r) n h = (n, h, refl)

  minimum-first :
      (r : RbNode K) (n : ℕ) → minimum (record { root = r; num_items = n }) ≡ first (inorder r)
  unfolding minimum
  minimum-first null n = refl
  minimum-first (node h l x r) n = min-inorder (node h l x r)

  maximum-last :
      (r : RbNode K) (n : ℕ) → maximum (record { root = r; num_items = n }) ≡ last (inorder r)
  unfolding maximum
  maximum-last null n = refl
  maximum-last (node h l x r) n = max-inorder (node h l x r)

  same : (f : Option K) → (elim f [ none ↦ none | some x ↦ some x ]) ≡ f
  same none = refl
  same (some x) = refl

module _ {ℓ} {K : Type ℓ} ⦃o : Compare K⦄ where
  -- The root is black, no right link and no two links in a row are red, each path has as many black
  -- nodes, the keys ascend strictly, and they are counted.
  pub record IsValid (t : RbTree K) : Type 0 where
    pub colored : IsBlack t.root
    pub sorted : IsSorted (keys t)
    pub counts : t.num_items ≡ length (keys t)

  pub empty-IsValid : IsValid empty
  unfolding empty
  empty-IsValid = record { colored = (0, refl, refl); sorted = tt; counts = refl }

  pub IsValid-of :
      (t : RbTree K) {xs : List K}
      → IsBlack t.root
      → keys t ≡ xs
      → IsSorted xs
      → t.num_items ≡ length xs
      → IsValid t
  IsValid-of t a e s c = record { colored = a; sorted = rw e s; counts = rw e c }

  hits-reported : (f : Option K) (k : K) → hits (reported f k) + hits f ≡ 1
  hits-reported none k = refl
  hits-reported (some x) k = refl

  -- What an insertion of `k` into a tree with the keys `xs` and then the paint of the root give.
  counted_lem :
      (n : ℕ) (res : RbNode K × Option K) (k : K) (xs : List K)
      → ((m : ℕ) × IsLoose res.0 m)
      → (res.1 ≡ none → IsBlack res.0)
      → inorder res.0 ≡ Ordered.insert k xs
      → res.1 ≡ reported (Ordered.search k xs) k
      → IsSorted xs
      → n ≡ length xs
      → IsValid (counted n res).0
        × (keys (counted n res).0 ≡ Ordered.insert k xs)
        × ((counted n res).1 ≡ reported (Ordered.search k xs) k)
  counted_lem n (r, none) k xs (m, g) b content report s e =
      let size = ap hits report in
      (
        IsValid-of (record { root = r; num_items = n }) (b refl) content (insert-IsSorted k xs s)
            (omega (arith, e, length-insert k xs, hits-reported (Ordered.search k xs) k, size)),
        content,
        report,
      )
  counted_lem n (r, some y) k xs (m, g) b content report s e =
      let size = ap hits report in
      let content' = inorder-with_color black r ∙ content in
      (
        IsValid-of (record { root = with_color black r; num_items = n + 1 }) (blacken r m g)
            content' (insert-IsSorted k xs s)
            (omega (arith, e, length-insert k xs, hits-reported (Ordered.search k xs) k, size)),
        content',
        report,
      )

  -- At a valid tree, `insert` leaves a valid tree with the keys of the ordered list after the
  -- insertion, and hands out the new key, or nothing where an equivalent key was there.
  pub insert_lem :
      (t : RbTree K) (k : K)
      → IsValid t
      → IsValid (insert t k).0
        × (keys (insert t k).0 ≡ Ordered.insert k (keys t))
        × ((insert t k).1 ≡ reported (Ordered.search k (keys t)) k)
  unfolding insert
  insert_lem t k v =
      let (n, g, b) = v.colored in
      let (content, report) = insert-inorder t.root k v.sorted in
      counted_lem t.num_items (Rb.insert t.root k) k (keys t)
        (n, (insert-IsGrown t.root k n g).loose) (λ e. rw (insert-none t.root k e) v.colored)
        content report v.sorted v.counts

  search_or_insert_items :
      (fresh : Bool) (n : ℕ) (f : Option K)
      → fresh ≡ is_none f
      → (if fresh then n + 1 else n) + hits f ≡ n + 1
  search_or_insert_items fresh n none e = rw e (omega arith)
  search_or_insert_items fresh n (some x) e = rw e refl

  -- At a valid tree, `search_or_insert` leaves a valid tree with the keys of the ordered list
  -- after the insertion, and hands out the equivalent key that was there, or else the new one.
  pub search_or_insert_lem :
      (t : RbTree K) (k : K)
      → IsValid t
      → IsValid (search_or_insert t k).0
        × (keys (search_or_insert t k).0 ≡ Ordered.insert k (keys t))
        × ((search_or_insert t k).1 ≡ found_or (Ordered.search k (keys t)) k)
  unfolding search_or_insert
  search_or_insert_lem t k v =
      let (n, g, b) = v.colored in
      let (content, found, fresh) = search_or_insert-inorder t.root k v.sorted in
      let res = Rb.search_or_insert t.root k in
      let content' = inorder-with_color black res.0 ∙ content in
      (
        IsValid-of (search_or_insert t k).0
            (blacken res.0 n (search_or_insert-IsGrown t.root k n g).loose) content'
            (insert-IsSorted k (keys t) v.sorted)
            (omega (
              arith,
              v.counts,
              length-insert k (keys t),
              search_or_insert_items _ t.num_items (Ordered.search k (keys t)) fresh,
            )),
        content',
        found,
      )

  -- At a valid tree, `search` and `find` give what a search of the ordered list of keys
  -- gives, and `min` and `max` its first and last key; where there is none, `find`, `min` and
  -- `max` throw.
  pub lookups :
      (t : RbTree K) (k : K)
      → IsValid t
      → (search t k ≡ Ordered.search k (keys t))
        × (find t k ≡ Ordered.search k (keys t))
        × (minimum t ≡ first (keys t))
        × (maximum t ≡ last (keys t))
  unfolding search find
  lookups t k v =
      let s = search-inorder_lem t.root k v.sorted in
      (s, same (search t k) ∙ s, minimum-first t.root t.num_items, maximum-last t.root t.num_items)

  -- At a tree with the red-black invariant, a black root and a right count, whose keys ascend,
  -- equivalent ones allowed, `insert_dup` leaves such a tree, with the key after all keys that do
  -- not come after it.
  pub insert_dup_lem :
      (t : RbTree K) (k : K)
      → IsBlack t.root
      → IsSortedDup (keys t)
      → t.num_items ≡ length (keys t)
      → IsBlack (insert_dup t k).0.root
        × (keys (insert_dup t k).0 ≡ Ordered.insert_dup k (keys t))
        × ((insert_dup t k).0.num_items ≡ length (keys (insert_dup t k).0))
  unfolding insert_dup
  insert_dup_lem t k (n, g, b) s c =
      let r = Rb.insert_dup t.root k in
      let content = inorder-with_color black r ∙ insert_dup-inorder t.root k s in
      (
        blacken r n (insert_dup-IsGrown t.root k n g).loose,
        content,
        sym (ap length content ∙ length-insert_dup k (keys t) ∙ ap (λ m. m + 1) (sym c)),
      )
