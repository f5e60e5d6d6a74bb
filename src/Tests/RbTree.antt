-- ===== src/Tests/RbTree.antt =====
-- include/rbtree.hpp at numbers: a run of `RbTree`, and its theorems at the tree that it builds.
use de_si_gnar.Prelude.{ℕ, ◌≡◌, refl, true, some, List, [], ◌∷◌, not}
use de_si_gnar.Compare.{nat_less}
use de_si_gnar.Ordered
use de_si_gnar.Ordered.{is_none}
use de_si_gnar.OrderedSet.{Call, IsOrderedSet, call, calls, calls_keys}
use de_si_gnar.Nodes.{null, node, min, generic_rotate_left, generic_rotate_right}
use de_si_gnar.RbTree as Rb
use de_si_gnar.RbTree.{
  red, black, balance, lean_left, lift_reds, split_reds, flip, flip_colors, rotate_left,
  rotate_right, move_red_left, move_red_right, prepared_left, prepared_right, delete_min,
}
use de_si_gnar.RbTree.Container.{RbTree, empty, insert, search_or_insert, remove, search, verify}
use de_si_gnar.RbTree.Container.Laws.{IsValid, IsBlack, keys, empty-IsValid}
use de_si_gnar.RbTree.Container.Removal.{IsTaken, remove-IsTaken}
use de_si_gnar.RbTree.Verify.{verify-IsBlack, verify-accepts_valid}
use de_si_gnar.RbTree.Client.{rb-IsOrderedSet, calls-keys}

abbrev script : List (Call ℕ)
script =
    Call.insert 5
    ∷ Call.insert 3
    ∷ Call.insert 8
    ∷ Call.insert 1
    ∷ Call.insert 4
    ∷ Call.search_or_insert 9
    ∷ Call.search_or_insert 3
    ∷ Call.remove 5
    ∷ Call.insert 7
    ∷ Call.remove 2
    ∷ []

abbrev sample : RbTree ℕ
sample = record {
  root =
      node black (node red (node black null 1 null) 3 (node black (node red null 4 null) 7 null)) 8
        (node black null 9 null);
  num_items = 6;
}

ran : calls insert search_or_insert remove script empty ≡ some sample
unfolding calls call empty insert search_or_insert remove Rb.insert Rb.search Rb.search_or_insert
    Rb.remove balance lean_left lift_reds split_reds flip flip_colors rotate_left rotate_right
    move_red_left move_red_right prepared_left prepared_right delete_min generic_rotate_left
    generic_rotate_right min
ran = refl

rb-IsOrderedSet_example :
    IsOrderedSet {K = ℕ} IsValid keys empty insert search_or_insert remove search
rb-IsOrderedSet_example = rb-IsOrderedSet

calls-keys_example :
    (t : RbTree ℕ) × (calls insert search_or_insert remove script empty ≡ some t)
    × IsValid t
    × (keys t ≡ calls_keys script (keys (empty {K = ℕ})))
calls-keys_example = calls-keys script empty empty-IsValid

valid : IsValid sample
valid = record {
  colored = (
    2,
    (
      refl,
      (refl, refl, (refl, refl, refl), (refl, (refl, refl, refl, refl), refl)),
      (refl, refl, refl),
    ),
    refl,
  );
  sorted = (
    (refl, (refl, (refl, (refl, (refl, tt))))),
    (
      (refl, (refl, (refl, (refl, tt)))),
      ((refl, (refl, (refl, tt))), ((refl, (refl, tt)), ((refl, tt), (tt, tt)))),
    ),
  );
  counts = refl;
}

remove-IsTaken_example :
    IsTaken sample 3 (remove sample 3) (not (is_none (Ordered.search 3 (keys sample))))
remove-IsTaken_example = remove-IsTaken sample 3 valid

verify-accepts_valid_example : verify sample ≡ true
verify-accepts_valid_example = verify-accepts_valid sample valid

verify-IsBlack_example : IsBlack sample.root
verify-IsBlack_example = verify-IsBlack sample verify-accepts_valid_example
