-- ===== src/SlabObj.antt =====
-- Allocators/SlabObj.h, namespace `SlabObjImpl`: slabs of constructed objects (`Slab`), and the one
-- cache of a type (`Interface`).
pub mod Slab
pub mod Lifetime
pub mod Interface
pub mod Objects
pub mod Built
pub mod Facade
mod Tests
