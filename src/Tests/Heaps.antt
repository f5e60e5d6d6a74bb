-- ===== src/Tests/Heaps.antt =====
-- include/leftistheap.hpp and include/pairingheap.hpp at numbers.
use de_si_gnar.Prelude.{ℕ, ◌≡◌, refl, [], ◌∷◌}
use de_si_gnar.Prelude.Int.{◌+ℤ◌, ltb_ℤ}
use de_si_gnar.Compare.{nat_less}
use de_si_gnar.Heaps.Queue.{IsPriorityQueue, drain}
use de_si_gnar.Heaps.Leftist
use de_si_gnar.Heaps.Leftist.{LeftistHeap, LeftistNode}
use de_si_gnar.Heaps.Leftist.Laws.{leftist-IsPriorityQueue, leftist_sorts}
use de_si_gnar.Heaps.Pairing
use de_si_gnar.Heaps.Pairing.{PairingHeap}
use de_si_gnar.Heaps.Pairing.Laws.{pairing-IsPriorityQueue, pairing_sorts}

leftist-IsPriorityQueue_example :
    IsPriorityQueue {K = ℕ} Leftist.Laws.IsValid Leftist.Laws.keys Leftist.empty Leftist.insert
      Leftist.get_min Leftist.extract_min
leftist-IsPriorityQueue_example = leftist-IsPriorityQueue

abbrev lefty : LeftistHeap ℕ
lefty = Leftist.insert (Leftist.insert (Leftist.insert (Leftist.insert Leftist.empty 5) 3) 8) 1

lefty-IsValid : Leftist.Laws.IsValid lefty
lefty-IsValid =
    let q = leftist-IsPriorityQueue_example in
    q.insert_valid _ 1 (q.insert_valid _ 8 (q.insert_valid _ 3 (q.insert_valid _ 5 q.empty_valid)))

lefty_drains : drain Leftist.extract_min 4 lefty ≡ 1 ∷ 3 ∷ 5 ∷ 8 ∷ []
unfolding drain Leftist.extract_min Leftist.insert Leftist.empty Leftist.merge Leftist.merge_flagged
    Leftist.attach ltb_ℤ ◌+ℤ◌
lefty_drains = refl

pairing-IsPriorityQueue_example :
    IsPriorityQueue {K = ℕ} Pairing.Laws.IsValid Pairing.Laws.keys Pairing.empty Pairing.insert
      Pairing.get_min Pairing.extract_min
pairing-IsPriorityQueue_example = pairing-IsPriorityQueue

abbrev paired : PairingHeap ℕ
paired = Pairing.insert (Pairing.insert (Pairing.insert (Pairing.insert Pairing.empty 5) 3) 8) 1

paired-IsValid : Pairing.Laws.IsValid paired
paired-IsValid =
    let q = pairing-IsPriorityQueue_example in
    q.insert_valid _ 1 (q.insert_valid _ 8 (q.insert_valid _ 3 (q.insert_valid _ 5 q.empty_valid)))

paired_drains : drain Pairing.extract_min 4 paired ≡ 1 ∷ 3 ∷ 5 ∷ 8 ∷ []
unfolding drain Pairing.extract_min Pairing.insert Pairing.empty Pairing.meld Pairing.merge_pairs
paired_drains = refl

abbrev siblings : Pairing.PairingNode ℕ
siblings =
    Pairing.node 5 Pairing.nil (Pairing.node 3 Pairing.nil (Pairing.node 4 Pairing.nil Pairing.nil))
