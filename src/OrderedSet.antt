-- ===== src/OrderedSet.antt =====
-- The interface of an ordered set, which the search trees of include/ share, and a client: any
-- sequence of its calls, on the tree and on the ordered list.
use de_si_gnar.Prelude.{◌≡◌, refl, sym, Bool, Option, some, ◌>>=◌, List, [], ◌∷◌, not}
use de_si_gnar.Compare.{Compare}
use de_si_gnar.Ordered
use de_si_gnar.Ordered.{IsSorted, reported, found_or, is_none}

-- The calls of a client that change the set.
pub data Call {ℓ} (K : Type ℓ) : Type ℓ where
  insert : K → Call K
  search_or_insert : K → Call K
  remove : K → Call K

module _ {ℓ} {K : Type ℓ} ⦃o : Compare K⦄ where
  -- `keys` lists the keys in order; `none` is a `remove` that does not end or leaves the tree's nodes.
  pub record IsOrderedSet {κ} {S : Type κ} (IsValid : S → Type 0) (keys : S → List K) (empty : S)
      (insert : S → K → S × Option K) (search_or_insert : S → K → S × K)
      (remove : S → K → Option (S × Bool)) (search : S → K → Option K) : Type (ℓ ⊔ κ) where
    pub empty_valid : IsValid empty
    pub empty_keys : keys empty ≡ []
    pub ascending : (s : S) → IsValid s → IsSorted (keys s)
    pub searched : (s : S) (k : K) → IsValid s → search s k ≡ Ordered.search k (keys s)
    pub inserted :
        (s : S) (k : K)
        → IsValid s
        → IsValid (insert s k).0
          × (keys (insert s k).0 ≡ Ordered.insert k (keys s))
          × ((insert s k).1 ≡ reported (Ordered.search k (keys s)) k)
    pub found_or_inserted :
        (s : S) (k : K)
        → IsValid s
        → IsValid (search_or_insert s k).0
          × (keys (search_or_insert s k).0 ≡ Ordered.insert k (keys s))
          × ((search_or_insert s k).1 ≡ found_or (Ordered.search k (keys s)) k)
    pub removed :
        (s : S) (k : K)
        → IsValid s
        → (s' : S) × (remove s k ≡ some (s', not (is_none (Ordered.search k (keys s)))))
          × IsValid s'
          × (keys s' ≡ Ordered.remove k (keys s))

  -- The same calls on the ordered list.
  unfoldable pub call_keys : Call K → List K → List K
  call_keys (Call.insert k) xs = Ordered.insert k xs
  call_keys (Call.search_or_insert k) xs = Ordered.insert k xs
  call_keys (Call.remove k) xs = Ordered.remove k xs

  unfoldable pub calls_keys : List (Call K) → List K → List K
  calls_keys [] xs = xs
  calls_keys (c ∷ cs) xs = calls_keys cs (call_keys c xs)

  module _ {κ} {S : Type κ} (insert : S → K → S × Option K) (search_or_insert : S → K → S × K)
      (remove : S → K → Option (S × Bool)) where
    unfoldable pub call : Call K → S → Option S
    call (Call.insert k) s = some (insert s k).0
    call (Call.search_or_insert k) s = some (search_or_insert s k).0
    call (Call.remove k) s = do p ← remove s k; some p.0

    unfoldable pub calls : List (Call K) → S → Option S
    calls [] s = some s
    calls (c ∷ cs) s = do s' ← call c s; calls cs s'

  module _ {κ} {S : Type κ} {IsValid : S → Type 0} {keys : S → List K} {empty : S}
      {insert : S → K → S × Option K} {search_or_insert : S → K → S × K}
      {remove : S → K → Option (S × Bool)} {search : S → K → Option K}
      (p : IsOrderedSet IsValid keys empty insert search_or_insert remove search) where
    -- A call succeeds and does what it does to the list.
    call_lem :
        (c : Call K) (s : S)
        → IsValid s
        → (s' : S) × (call insert search_or_insert remove c s ≡ some s')
          × IsValid s'
          × (keys s' ≡ call_keys c (keys s))
    unfolding call call_keys
    call_lem (Call.insert k) s v =
        let done = p.inserted s k v in ((insert s k).0, refl, done.0, done.1)
    call_lem (Call.search_or_insert k) s v =
        let done = p.found_or_inserted s k v in ((search_or_insert s k).0, refl, done.0, done.1)
    call_lem (Call.remove k) s v =
        let (s', result, valid, content) = p.removed s k v in (s', rw result refl, valid, content)

    -- Any sequence of calls succeeds and does what it does to the list.
    pub calls_lem :
        (cs : List (Call K)) (s : S)
        → IsValid s
        → (s' : S) × (calls insert search_or_insert remove cs s ≡ some s')
          × IsValid s'
          × (keys s' ≡ calls_keys cs (keys s))
    unfolding calls calls_keys
    calls_lem [] s v = (s, refl, v, refl)
    calls_lem (c ∷ cs) s v =
        let (s', result, valid, content) = call_lem c s v in
        let (s'', result', valid', content') = calls_lem cs s' valid in
        (s'', rw (result, result') refl, valid', rw (sym content) content')
