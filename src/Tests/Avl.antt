-- ===== src/Tests/Avl.antt =====
-- include/avltree.hpp at numbers: runs of `AVLTree`, and its theorems at a tree that the runs built.
use de_si_gnar.Prelude.{ℕ, ◌+◌, ◌/◌, ◌^◌, ◌≤◌, ◌≡◌, refl, true, List, [], ◌∷◌}
use de_si_gnar.Prelude.Int.{int_pred, pos, ◌+ℤ◌, ◌-ℤ◌, max_ℤ, ltb_ℤ}
use de_si_gnar.Compare.{nat_less}
use de_si_gnar.Ordered.{IsSorted}
use de_si_gnar.Nodes.{null, node, inorder, generic_rotate_left, generic_rotate_right}
use de_si_gnar.Avl
use de_si_gnar.Avl.{
  AvlNode, balance, rebalance, update_height, balance_factor, rotate_left, rotate_right, remove_min,
  remove_here, verify_node, height,
}
use de_si_gnar.Avl.Shape.{levels, IsAvl}
use de_si_gnar.Avl.Balance.{Shrinks}
use de_si_gnar.Avl.Operations.{remove-Shrinks}
use de_si_gnar.Avl.Verify.{verify-IsAvl, verify-accepts, verify_misses_order}
use de_si_gnar.Avl.Height.{height-run}
use de_si_gnar.Avl.Container
use de_si_gnar.Avl.Container.{
  AvlTree, empty, insert, remove, search, find, minimum, maximum, search_or_insert, from_list,
}
use de_si_gnar.Avl.Container.Laws.{IsValid, keys, empty-IsValid, insert-IsValid}
use de_si_gnar.Avl.Client
use de_si_gnar.Avl.Client.{Op, run, run_keys, run_refines}

abbrev calls : List (Op ℕ)
calls =
    Op.insert 3
    ∷ Op.insert 1
    ∷ Op.insert 2
    ∷ Op.insert 7
    ∷ Op.insert 2
    ∷ Op.search_or_insert 9
    ∷ Op.insert 8
    ∷ Op.remove 1
    ∷ []

sample : AvlTree ℕ
unfolding Client.run Client.step empty Container.insert Container.remove Container.search_or_insert
    Avl.insert Avl.remove Avl.search_or_insert remove_here remove_min balance rebalance
    update_height balance_factor rotate_left rotate_right generic_rotate_left generic_rotate_right
    ltb_ℤ ◌-ℤ◌ ◌+ℤ◌ max_ℤ
sample = run calls empty

sample_is : sample ≡ record {
  root =
      node
        (pos 2)
        (node (pos 1) null 2 (node (pos 0) null 3 null))
        7
        (node (pos 1) (node (pos 0) null 8 null) 9 null);
  num_items = 5;
}
unfolding sample
sample_is = refl

run_refines_example :
    IsValid (run calls empty) × (keys (run calls empty) ≡ run_keys calls (keys (empty {K = ℕ})))
run_refines_example = run_refines calls empty empty-IsValid

valid : IsValid sample
unfolding sample
valid = run_refines_example.0

insert-IsValid_example : IsValid (insert sample 5).0
insert-IsValid_example = insert-IsValid sample 5 valid

remove-Shrinks_example : Shrinks sample.root (Avl.remove sample.root 7).0
remove-Shrinks_example = remove-Shrinks sample.root 7 valid.avl

-- A left subtree of two levels over a missing right one, as a removal leaves it.
abbrev low : AvlNode ℕ
low = node (pos 1) null 2 (node (pos 0) null 3 null)

height-run_example :
    (height (run calls empty).root ≡ int_pred (levels (run calls empty).root))
    × (2 ^ (levels (run calls empty).root / 2) ≤ (run calls empty).num_items + 1)
height-run_example = height-run calls empty empty-IsValid

verify-IsAvl_example : IsAvl sample.root
verify-IsAvl_example = verify-IsAvl sample.root (verify-accepts sample.root valid.avl valid.sorted)

verify_misses_order_example :
    let t : AvlNode ℕ =
      node (pos 2) (node (pos 1) null 1 (node (pos 0) null 3 null)) 2 (node (pos 0) null 3 null) in
    (verify_node t ≡ true) × ¬ IsSorted (inorder t)
verify_misses_order_example = verify_misses_order 1 2 3 refl refl
