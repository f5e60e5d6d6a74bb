-- ===== src/Tests.antt =====
-- The theorems at concrete trees of numbers, and runs of the operations.
pub mod Avl
pub mod RankedAvl
pub mod Iterator
pub mod Heaps
pub mod DisjointSet
pub mod NumberTheory
pub mod IntUtilities
pub mod ArraySet
mod OpenHash
mod StringAlgorithms
mod Sorting
pub mod RbTree
