-- ===== src/Tests/Iterator.antt =====
-- The in-order iterator of include/avltree.hpp at a small tree.
use de_si_gnar.Prelude.{ℕ, ◌≡◌, refl, some, [], ◌∷◌, arith}
use de_si_gnar.Nodes.{BinTree, null, node, inorder}
use de_si_gnar.Nodes.Iterator.{begin, next, get_current, traverse, search_min, next_from}
use de_si_gnar.Nodes.Iterator.Traverse.{traverse-begin}

abbrev small : BinTree {0, 0} Unit ℕ
small = node tt (node tt null 1 (node tt null 2 null)) 3 (node tt (node tt null 4 null) 5 null)

begins : get_current (begin small) ≡ some 1
unfolding begin get_current search_min
begins = refl

visits : traverse 7 (begin small) ≡ 1 ∷ 2 ∷ 3 ∷ 4 ∷ 5 ∷ []
unfolding traverse next begin get_current search_min next_from
visits = refl

traverse-begin_example : traverse 7 (begin small) ≡ inorder small
traverse-begin_example = traverse-begin small 7 (omega arith)
