-- ===== src/Lib.antt =====
-- DeSiGNAR is a C++17 library of generic data structures. This development models its
-- height-balanced search trees, AVLTree and RankedAVLTree of include/avltree.hpp and RbTree of
-- include/rbtree.hpp, with the node type and the generic algorithms that they take from
-- include/nodesdef.hpp, its mergeable heaps LeftistHeap of include/leftistheap.hpp and PairingHeap
-- of include/pairingheap.hpp, the sorted array set of include/set.hpp with binary_search of
-- include/sort.hpp, its sorts of linked chains, DisjointSet of include/unionfind.hpp, two
-- functions of include/numbertheory.hpp and one of include/math.hpp, include/intutilities.hpp, the
-- algorithms of include/stringalgorithms.hpp, and the open-addressing hash table of
-- include/openhash.hpp.
--
-- How the parts interact. A tree class keeps a root and a comparator. Its public methods allocate a
-- node, call a static recursive function that returns the new subtree through a reference, and then
-- adjust the number of items or free the node that was not used. The recursive functions use the
-- generic rotations, and recompute what a node stores about its subtree: the height in AVLTree, the
-- height and the count in RankedAVLTree. The iterators walk the nodes with a stack of their own.
-- A heap keeps a root and a number of items, and each of its operations is a merge of trees.
--
-- Files.
--   Prelude    names that all modules share, lists by position and their updates, integers (the
--              source's int_t).
--   Compare    the comparator, which the source takes as the template parameter Cmp: a parameter of
--              the model, with the laws of a strict weak order that std::less and the documentation
--              of std::set ask for. Compare.nat_less is an instance on numbers.
--   Ordered    the abstract container: an ascending list of keys, with search, insertion, removal
--              and rank, and their laws. It is the specification, and models no code.
--   OrderedSet  the interface of an ordered set, and a client: any sequence of its calls.
--   Nodes      include/nodesdef.hpp: BaseBinTreeNode, L, R, KEY, COUNT, generic_select,
--              generic_position, generic_bst_search_by, the rotations. A node is a constructor, and
--              what a tree class adds to a node is a parameter of the type. Node::null is `null`.
--   Nodes/Iterator     the class InorderIterator.
--   Avl        the static functions of AVLTree: insert, insert_dup, search, search_or_insert,
--              remove, remove_min, balance, verify. Avl/Shape and Avl/Balance hold the invariant and
--              its repair, Avl/Operations the invariant at each operation, Avl/Keys, Avl/Duplicates
--              and Avl/Search their effect on the list of keys, Avl/Verify the check verify,
--              Avl/Height the bound on the height, Avl/Copy the copy.
--   Avl/Container      the class itself: the root and num_items, and its public methods.
--   Avl/Client         sequences of calls of a client.
--   RankedAvl  the static functions of RankedAVLTree, join and split_pos included. RankedAvl/Erase
--              and RankedAvl/Simulate forget the counts and compare with AVLTree; RankedAvl/Count and
--              RankedAvl/CountKeys are about the counts, RankedAvl/Join and RankedAvl/Position about
--              joining and positions, RankedAvl/Verify about the check verify,
--              RankedAvl/Copy about the copy.
--   RankedAvl/Container  the class itself and its public methods.
--   RbTree     the static functions of RbTree: rotations, flip_colors, balance (its three steps are
--              lean_left, lift_reds, split_reds), move_red_left, move_red_right, delete_min, insert,
--              insert_dup, search, search_or_insert, remove (whose parts are prepared_left,
--              remove_rotated and remove_below). Shape holds the invariant and its repair, Insert and
--              Keys the insertions, Prepare, PrepareRight, DeleteMin and Remove the removal, Verify the
--              check verify, Height the bound on the height. RbTree/Container is the class itself,
--              RbTree/Client the class as an ordered set.
--   Permutation  rearrangements of a list.
--   Heaps/Queue    the interface of a priority queue, which says what both heaps promise of the keys
--              they hold in any order, and a client: taking out the least key until none is left.
--   Heaps/Leftist  LeftistHeap: merge, attach (the end of merge), insert, get_min, extract_min. Below
--              it, Merge is about the keys, Order about the heap order, Balance about the leftist
--              invariant, and Laws about the class.
--   Heaps/Pairing  PairingHeap: meld, merge_pairs, insert, get_min, extract_min, with Merge and Laws.
--   SinglyLinked  NodeSLList of include/list.hpp: a chain of nodes, which is the list of its items.
--   Sort       binary_search of include/sort.hpp, with Sort/Search about what it finds.
--              Sort/NodeLists has partition, quicksort, merge and merge_sort on NodeSLList, with Quick
--              and Merge about the two sorts, and Order about ascending lists.
--   StringAlgorithms  edit_distance and rabin_karp_search of include/stringalgorithms.hpp. Script is
--              about edit scripts and the recursive distance, Distance about the rows that the code
--              fills, Occurrence about the positions of a pattern, Rolling about the rolling hash,
--              RabinKarp about the search, Wrapping about symbols that make its products wrap around.
--   Kmp        kmp_failure_function and kmp_search of the same file, whose inner loop is advance. Border
--              is about prefixes of the pattern that end in the text, Advance about the inner loop,
--              Failure about the failure function, Search about the search.
--   OpenHash   OpenAddressingHashTable: the policies LinearProbing, QuadraticProbing and DoubleHashing,
--              insert, search_or_insert, search, find, remove, clear, grow_if_needed, rehash and
--              raw_insert (find_target_slot is target_loop and occupy). Probe, DoubleHashing,
--              QuadraticProbing and Policies are about the probes, Table about the invariant of the
--              slots, Find, Target, Place and Insertion about finding and filling a slot, Fresh, Rehash
--              and Growth about new tables, Laws and Methods about the class.
--   ArraySet   GenArraySet with SortedArraySetOp (include/set.hpp), over insert and
--              remove_pos_closing_breach of DynArray (include/array.hpp), whose capacity is left out.
--              Place is about the position of a key, Laws about the methods.
--   DisjointSet  DisjointSet: make_set, contains, find, same_set, union_sets (whose parts are link and
--              attach), find_root with path halving. Below it, Forest is about the roots above an
--              index, Halving about find_root, Link and Join about linking two roots, Laws about the
--              whole state, and Calls, Union, Grow and Find about the methods.
--   NumberTheory  gcd and mod_pow at nat_t. Products wrap around at 2 ^ 64.
--   IntUtilities  include/intutilities.hpp at nat_t: forward_prod, backward_prod, factorial,
--              count_permutations, count_combinations, with Product and Count.
--   Math       fast_integral_pow of include/math.hpp at nat_t.
--   Tests      runs on numbers.
--
-- State and errors. A static function that changes a subtree through `Node*&` takes the subtree and
-- returns it. A returned pointer to a node or to its key is the key; Node::null and nullptr are
-- `none`. A method that throws returns `none` there. A removed or unused node is freed by the source,
-- and memory is left out: copy builds a value, and destroy has no content.
--
-- `remove` and `delete_min` of RbTree go down a tree that rotations reshape on the way: they take
-- fuel, and are `none` where it runs out, and where the source would paint the sentinel, which all
-- trees share. The number of items is fuel enough, and the theorems show that neither happens.
--
-- The hash function, the equality of keys and the policy are parameters of the hash table. Its load is
-- compared with upper_alpha by products, where the source divides floating-point numbers, and
-- upper_alpha is a fraction. The assertion of rehash is a test, and `none` where it fails.
--
-- The arrays of DisjointSet are lists, where an access out of range is `none`, and its HashMap is the
-- list of its pairs. A call that throws gives no state.
--
-- Bounds and fuel. find_root of DisjointSet takes fuel for the sum of the ranks, which bounds each
-- path since ranks grow on the way up; gcd takes the second argument and the two powers the
-- exponent, which get smaller in each round; binary_search takes the length of the array and one
-- more, the products of include/intutilities.hpp the number of factors and one more, the inner
-- loop of kmp_search the number of symbols matched and one more, the sorts the length of the chain
-- and one more, and the loop over the windows of a text its length and one more. The probes of the
-- hash table are as many as its slots, and next_pow2 takes fuel for the 65 values that its 64 bits
-- run through. A table has at most 2 ^ 62 slots when it grows. Two loops of a client take fuel:
-- the loop over an iterator, and the one that empties a heap. The length of the list of keys is
-- enough for both. Heights are integers, since the sentinel has height -1. Counts and numbers of
-- items are natural numbers: nat_t has 64 bits and counts allocated nodes, so it does not wrap.
--
-- Not modelled: swap and moves, which exchange whole values; del() of the iterators, which removes
-- from a tree while the iterator points into it; decrease_key of PairingHeap, which finds a node
-- by its address; the iterators of RankedAVLTree, which repeat those of AVLTree; the iterator of
-- the hash table, its constructor from a list and its search by a key of another type; the other
-- containers and algorithms of the library.
pub mod Prelude
pub mod Compare
pub mod Ordered
pub mod OrderedSet
pub mod Nodes
pub mod Avl
pub mod RankedAvl
pub mod Permutation
pub mod RbTree
pub mod DisjointSet
pub mod NumberTheory
pub mod Math
pub mod IntUtilities
pub mod SinglyLinked
pub mod Kmp
pub mod OpenHash
pub mod Sort
pub mod StringAlgorithms
pub mod ArraySet
pub mod Heaps
pub mod Tests
