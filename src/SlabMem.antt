-- ===== src/SlabMem.antt =====
-- Allocators/SlabMem.h, namespace `SlabMemImpl`: slabs of raw memory (`Slab`), and the caches of
-- several block sizes over them.
pub mod Slab
pub mod Lifetime
pub mod Interface
pub mod Buckets
pub mod Doubling
pub mod WellFormed
pub mod Facade
mod Tests
mod Runs
