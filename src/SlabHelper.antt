-- ===== src/SlabHelper.antt =====
-- Allocators/SlabHelper.h, namespace `SlabImpl`: the table of free indices (`VecMap`), what a cache
-- wants of its slabs (`SlabOps`), the cache (`Cache`) and its invariant.
pub mod VecMap
pub mod SlabOps
pub mod Splice
pub mod Moves
pub mod Xtors
pub mod Cache
pub mod Inv
pub mod Allocate
pub mod Search
pub mod Deallocate
pub mod Edges
