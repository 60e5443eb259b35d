-- ===== src/Lib.antt =====
-- Allocators: a library of C++ allocators, header files under Allocators/.
--
-- The program has these parts. A linear allocator (Allocators/Linear.h) moves an offset through a
-- static arena. A free-list allocator (Allocators/FreeList.h) keeps the free chunks of a static
-- arena in address order and puts a header with its size before each block. The slab allocators
-- keep blocks of one size in slabs, and slabs in caches (Allocators/SlabHelper.h): SlabMem
-- (Allocators/SlabMem.h) has a cache for each of several block sizes, SlabObj
-- (Allocators/SlabObj.h) one for each type and its constructors. A reader-writer lock is in
-- Allocators/SharedMutex.h. The concurrent allocator (Allocators/SlabMulti.h,
-- Allocators/ImplSlabMulti.h) gives each thread a bucket of caches, in a map behind such a lock
-- (Allocators/SmpContainer.h), which take their slabs from a common stock
-- (Allocators/SlabMultiDispatcher.h). All of them use the sizes that Allocators/AllocHelpers.h
-- computes.
--
-- Files.
-- Common: shared notation, Boolean tests on native numbers (Common/Tests), lists (Common/Lists).
-- Helpers: `nearestPageSz`, `FindSizeT`, `CacheInfo`, and the number of blocks of a slab, which
--   SlabMem and SlabObj compute in the same way (Sizes); `alignedAlloc`, `alignedFree` and
--   `allocatePage` (Aligned), where `std::align` is a parameter with what it promises.
-- ListT: `ListT` of Allocators/AllocHelpers.h on a heap of nodes, with `fresh` for what `operator
--   new` returns. Links has linked addresses, Shape what a list stands for (`IsList`), Frame what
--   a list does not depend on; Insert and Emplace, Erase, Transfer (`splice`), Loop and Clear its
--   operations, Iterator the loops of a program over it. The loops of `clear` and of the
--   destructor have one more than the size as fuel.
-- Linear: `LStorage` and `Linear`; a state is the static members of the class.
-- FreeList: `PolicyT` (Policy), `PolicyInterface` (Interface), `FreeList` (Facade). Merge, Fit, Blocks
--   and Returns say what the operations do to the free bytes.
-- SlabHelper: `vecMap` (VecMap), `splice` (Splice) and `Cache<Slab>` (Cache) over the operations
--   and laws of its slabs (SlabOps). Inv has the invariant; Allocate, Search, Deallocate and Edges
--   the theorems. Moves has `splice` as the moves of slabs that it makes, over an interface that
--   SlabMem/Lifetime and SlabObj/Lifetime fill, Xtors what makes and clears the objects of slabs.
-- SlabMem: `SlabMemImpl::Slab` (Slab), which has the laws of SlabOps, and `SlabMemImpl::Interface`
--   (Interface); Facade has the functions of Allocators/Slab.h that forward to it, Buckets says
--   which cache serves a request, Doubling what `addCache2` adds, WellFormed has the invariant.
-- SlabObj: `SlabObjImpl::Slab` (Slab) and `SlabObjImpl::Interface` (Interface), with a Facade as
--   above; Objects relates its slabs to those of SlabMem through the laws of SlabOps, Built says
--   what objects a slab holds.
-- SharedMutex: one step per atomic access; System interleaves the threads, Owner has the invariant
--   of the spill lock, Flags, Moves and Slots that of the flags, Progress which thread can go on,
--   Race what the order of the accesses allows.
-- SlabMulti: `GlobalDispatch` (Dispatcher, and Stock for what it hands out), the slabs and caches
--   of one thread (Slab, Cache; Ready has the invariant that `allocate` relies on, Find the search
--   of `deallocate`, Settle what it does with the slab, Vectors what it does to the vectors, Edges
--   where it goes wrong), the free blocks of a cache as a multiset (Supply over Pairs; Gives for
--   `allocate`, Takes for `deallocate`), a cache under several threads (Threads; Held and Lengths
--   say what every step keeps, Apart and Calm what a run keeps, Race where two threads go wrong),
--   copies and moves (Copies), the spin lock of a slab (SpinLock), the buckets of all threads
--   (Interface, and Foreign for blocks of other threads), the count of the handles of one
--   interface (Refs), and handles that are assigned (Handles).
-- SmpContainer: the containers under a lock of Allocators/SmpContainer.h.
--
-- How the code is read. Addresses and sizes are natural numbers, words wrap at 2 ^ 64 where the
-- code computes with `size_t`, and at the width of the narrower type where it uses one. What
-- `operator new` returns is an argument (`fresh`). A vector of indices is a list whose head is the
-- back of the vector; vectors of slabs are lists in order. Undefined behaviour and exceptions are
-- `none`, or an error value where a caller can tell them apart. Templates are modelled for given
-- parameters: sizes are arguments. `addCache2` runs on fuel; each turn doubles the block size, so
-- that 64 turns pass any bound below 2 ^ 63. The objects of a slab are a function of their
-- addresses, and the user's constructors and functions are parameters.
--
-- The fuel of `build_caches` is one more than the number of caches, that of `add_blocks` one more
-- than the blocks of a superblock, and that of `search` covers two turns over the slabs of a
-- cache.
--
-- A function that ends without the `return` that its type wants is undefined as well: `erase` of
-- ListT and `operator=` of SlabMulti are `none`, and their statements are definitions of their own
-- (`erase_body`, `assign_body`). In two places the model is what the code means where C++ promises
-- less: `splice` of Allocators/ImplSlabMulti.h moves slabs by `memmove`, which is undefined for a
-- class like `Slab`, and `merge_prev` takes the operands of `(--prev)->first + prev->second` in
-- Allocators/FreeList.h from left to right, an order that C++ leaves open.
--
-- SlabMulti/Threads interleaves single accesses of the threads, over a shared mutex that keeps
-- readers and writers apart; the one in Allocators/SharedMutex.h does not always (SharedMutex/Race).
-- Everywhere else in the concurrent allocator a call is one step. An iterator there is an index, also when a vector has moved to
-- another buffer since.
--
-- Not modelled: memory orders weaker than sequential consistency; the time limit of
-- `try_lock_shared_for`, which always returns false; the test whether a container has a member `find`
-- (`has_find`); Allocators/TMP.h, which is code of another project that the allocators do not use;
-- the benchmarks and the tests.
pub mod Common
pub mod Helpers
pub mod Linear
pub mod ListT
pub mod FreeList
pub mod SlabHelper
pub mod SlabMem
pub mod SlabObj
pub mod SharedMutex
pub mod SlabMulti
pub mod SmpContainer
