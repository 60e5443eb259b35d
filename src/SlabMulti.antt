-- ===== src/SlabMulti.antt =====
-- Allocators/SlabMultiDispatcher.h, Allocators/ImplSlabMulti.h and Allocators/SlabMulti.h: the stock of
-- memory (`Dispatcher`), slabs that other threads return blocks to (`Slab`), the caches of one thread
-- (`Cache`), and the buckets of all threads (`Interface`). A call is one step, but in `Threads`, which
-- interleaves the single accesses of several threads to a cache.
pub mod Dispatcher
pub mod Stock
pub mod Slab
pub mod Cache
pub mod Vectors
pub mod Find
pub mod Ready
pub mod Settle
pub mod Pairs
pub mod Supply
pub mod Gives
mod Runs
mod Orders
pub mod Takes
pub mod Threads
pub mod Held
pub mod Lengths
pub mod Apart
pub mod Calm
pub mod Race
pub mod Copies
pub mod SpinLock
pub mod Foreign
pub mod Edges
pub mod Interface
pub mod Refs
pub mod Handles
pub mod Facade
mod Tests
