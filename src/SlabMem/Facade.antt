-- ===== src/SlabMem/Facade.antt =====
-- Allocators/Slab.h, `SlabMem<Type>`: the static functions of the allocator, over the one interface of the
-- program. `size` is the size of the type that a call names.
use allocators.Common.{ℕ, Bool, true, false, List, Option}
use allocators.Helpers.Sizes.{CacheInfo}
use allocators.SlabMem.Interface
use allocators.SlabMem.Interface.{Interface}

-- All handles are equal.
unfoldable pub eq : Bool
eq = true

unfoldable pub ne : Bool
ne = false

unfoldable pub allocate : (fresh size count : ℕ) → Interface → Option (ℕ × Interface)
unfolding Interface.allocate
allocate fresh size count w = Interface.allocate fresh size count w

-- `allocate()` with the default of its parameter.
unfoldable pub allocate_one : (fresh size : ℕ) → Interface → Option (ℕ × Interface)
unfolding allocate
allocate_one fresh size w = allocate fresh size 1 w

unfoldable pub deallocate : (ptr size n : ℕ) → Interface → Option Interface
unfolding Interface.deallocate
deallocate ptr size n w = Interface.deallocate ptr size n w

unfoldable pub add_cache : (page_size fresh block_size count : ℕ) → Interface → Option Interface
unfolding Interface.add_cache
add_cache page_size fresh block_size count w =
    Interface.add_cache page_size fresh block_size count w

-- `addCache<T>(count)`
unfoldable pub add_cache_of : (page_size fresh size count : ℕ) → Interface → Option Interface
unfolding add_cache
add_cache_of page_size fresh size count w = add_cache page_size fresh size count w

unfoldable pub add_cache2 :
    (fuel page_size : ℕ) (fresh : ℕ → ℕ) (start_size max_size count : ℕ)
    → Interface
    → Option Interface
unfolding Interface.add_cache2
add_cache2 fuel page_size fresh start_size max_size count w =
    Interface.add_cache2 fuel page_size fresh start_size max_size count w

unfoldable pub free_all : (cache_size : ℕ) → Interface → Interface
unfolding Interface.free_all
free_all cache_size w = Interface.free_all cache_size w

unfoldable pub free_empty : (cache_size : ℕ) → Interface → Interface
unfolding Interface.free_empty
free_empty cache_size w = Interface.free_empty cache_size w

unfoldable pub info : Interface → List CacheInfo
unfolding Interface.info
info w = Interface.info w
