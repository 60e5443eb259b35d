-- ===== src/FreeList.antt =====
-- Allocators/FreeList.h: the free list (`Policy`), the allocator over it (`Interface`) and what holds
-- of them.
pub mod Policy
pub mod Interface
pub mod Merge
pub mod Fit
pub mod Blocks
pub mod Returns
pub mod Facade
mod Tests
