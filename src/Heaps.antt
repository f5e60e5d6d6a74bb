-- ===== src/Heaps.antt =====
-- The mergeable heaps of include/: leftistheap.hpp and pairingheap.hpp, behind one interface.
pub mod Queue
pub mod Leftist
pub mod Pairing
