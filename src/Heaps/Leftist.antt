-- ===== src/Heaps/Leftist.antt =====
-- include/leftistheap.hpp, `LeftistHeap`: a mergeable heap whose right spine is kept short. A node
-- stores its null path length, which is -1 for `nullptr`.
pub mod Merge
pub mod Order
pub mod Balance
pub mod Laws
use de_si_gnar.Prelude.{
  ℕ, ◌+◌, ◌-◌, ◌≡◌, ◌∙◌, refl, ap, Bool, true, false, Option, none, some, List, [], ◌∷◌, ◌++◌, not,
  if◌then◌else◌,
}
use de_si_gnar.Prelude.Int.{ℤ, pos, negsuc, ◌+ℤ◌, ltb_ℤ}
use de_si_gnar.Compare.{Compare}

-- `nullptr`, and a node with its `npl`, left child, key and right child.
pub data LeftistNode {ℓ} (K : Type ℓ) : Type ℓ where
  nil : LeftistNode K
  node : ℤ → LeftistNode K → K → LeftistNode K → LeftistNode K

pub record LeftistHeap {ℓ} (K : Type ℓ) : Type ℓ where
  pub root : LeftistNode K
  pub num_items : ℕ

module _ {ℓ} {K : Type ℓ} where
  abbrev pub npl_of : LeftistNode K → ℤ
  npl_of nil = negsuc 0
  npl_of (node n l x r) = n

  -- `new Node(k)`.
  abbrev pub new_node : K → LeftistNode K
  new_node k = node (pos 0) nil k nil

  -- The end of `merge`, with `r` the merged right child: the children change sides where the left
  -- one has the shorter null path.
  unfoldable pub attach : K → LeftistNode K → LeftistNode K → LeftistNode K
  attach x l r = elim (ltb_ℤ (npl_of l) (npl_of r)) [
    | true ↦ node (npl_of l +ℤ pos 1) r x l
    | false ↦ node (npl_of r +ℤ pos 1) l x r
  ]

  unfoldable pub copy : LeftistNode K → LeftistNode K
  copy nil = nil
  copy (node n l x r) = node n (copy l) x (copy r)

  unfoldable pub is_empty : LeftistHeap K → Bool
  is_empty h = elim h.root [ nil ↦ true | node n l x r ↦ false ]

  unfoldable pub clear : LeftistHeap K → LeftistHeap K
  clear h = record h { root = nil; num_items = 0 }

  unfoldable pub empty : LeftistHeap K
  empty = record { root = nil; num_items = 0 }

  -- `none` is the exception `std::underflow_error`.
  unfoldable pub get_min : LeftistHeap K → Option K
  get_min h = elim h.root [ nil ↦ none | node n l x r ↦ some x ]

module _ {ℓ} {K : Type ℓ} ⦃o : Compare K⦄ where
  -- Whether the root `x` stays on top of `y`: the root of the second argument wins only where it
  -- comes before that of the first. The flag says that `y` is the root of the first argument.
  abbrev pub stays : Bool → K → K → Bool
  stays false x y = not (o.cmp y x)
  stays true x y = o.cmp x y

  -- `merge(a, b)`, and with the flag `merge(b, a)`: `std::swap(a, b)` turns the flag, so that the
  -- recursion descends in one of the two heaps.
  unfoldable pub merge_flagged : Bool → LeftistNode K → LeftistNode K → LeftistNode K
  merge_flagged flag nil b = b
  merge_flagged flag (node m c x d) nil = node m c x d
  merge_flagged flag (node m c x d) (node n e y f) = elim (stays flag x y) [
    | true ↦ attach x c (merge_flagged false d (node n e y f))
    | false ↦ attach y e (merge_flagged true (node m c x d) f)
  ]

  unfoldable pub merge : LeftistNode K → LeftistNode K → LeftistNode K
  merge a b = merge_flagged false a b

  unfoldable pub insert : LeftistHeap K → K → LeftistHeap K
  insert h k = record { root = merge h.root (new_node k); num_items = h.num_items + 1 }

  -- `none` is the exception `std::underflow_error`.
  unfoldable pub extract_min : LeftistHeap K → Option (LeftistHeap K × K)
  extract_min h = elim h.root [
    | nil ↦ none
    | node n l x r ↦ some (record { root = merge l r; num_items = h.num_items - 1 }, x)
  ]
