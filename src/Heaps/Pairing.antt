-- ===== src/Heaps/Pairing.antt =====
-- include/pairingheap.hpp, `PairingHeap`: a tree of any width, held as first child and next sibling.
pub mod Merge
pub mod Laws
use de_si_gnar.Prelude.{ℕ, ◌+◌, ◌-◌, Bool, true, false, Option, none, some}
use de_si_gnar.Compare.{Compare}

-- `nullptr`, and a node with its key, first child and next sibling.
pub data PairingNode {ℓ} (K : Type ℓ) : Type ℓ where
  nil : PairingNode K
  node : K → PairingNode K → PairingNode K → PairingNode K

pub record PairingHeap {ℓ} (K : Type ℓ) : Type ℓ where
  pub root : PairingNode K
  pub num_items : ℕ

module _ {ℓ} {K : Type ℓ} where
  -- `new Node(k)`.
  abbrev pub new_node : K → PairingNode K
  new_node k = node k nil nil

  unfoldable pub copy : PairingNode K → PairingNode K
  copy nil = nil
  copy (node x c s) = node x (copy c) (copy s)

  unfoldable pub is_empty : PairingHeap K → Bool
  is_empty h = elim h.root [ nil ↦ true | node x c s ↦ false ]

  unfoldable pub clear : PairingHeap K → PairingHeap K
  clear h = record h { root = nil; num_items = 0 }

  unfoldable pub empty : PairingHeap K
  empty = record { root = nil; num_items = 0 }

  -- `none` is the exception `std::underflow_error`.
  unfoldable pub get_min : PairingHeap K → Option K
  get_min h = elim h.root [ nil ↦ none | node x c s ↦ some x ]

module _ {ℓ} {K : Type ℓ} ⦃o : Compare K⦄ where
  -- The root that loses becomes the first child of the other; its own sibling is overwritten.
  unfoldable pub meld : PairingNode K → PairingNode K → PairingNode K
  meld nil b = b
  meld (node x c s) nil = node x c s
  meld (node x c s) (node y d t) = elim (o.cmp y x) [
    | true ↦ node y (node x c d) t
    | false ↦ node x (node y d c) s
  ]

  unfoldable pub merge_pairs : PairingNode K → PairingNode K
  merge_pairs nil = nil
  merge_pairs (node x c nil) = node x c nil
  merge_pairs (node x c (node y d rest)) =
      meld (meld (node x c nil) (node y d nil)) (merge_pairs rest)

  unfoldable pub insert : PairingHeap K → K → PairingHeap K
  insert h k = record { root = meld h.root (new_node k); num_items = h.num_items + 1 }

  -- `none` is the exception `std::underflow_error`.
  unfoldable pub extract_min : PairingHeap K → Option (PairingHeap K × K)
  extract_min h = elim h.root [
    | nil ↦ none
    | node x c s ↦ some (record { root = merge_pairs c; num_items = h.num_items - 1 }, x)
  ]
