-- ===== src/SlabMem/Interface.antt =====
-- Allocators/SlabMem.h, `SlabMemImpl::Interface`: caches of several block sizes, in the order in which
-- they were added, and the table of indices that they share. `fresh` is what `operator new` returns
-- where the code calls it, for the calls in order where there are several.
use allocators.Common.{
  ℕ, zero, suc, ◌*◌, Bool, true, false, List, [], ◌∷◌, ◌++◌, Option, none, some, ◌>>=◌, leb, ◌==◌,
  ◌||◌, if◌then◌else◌, get_elem?, set, map, u64,
}
use allocators.Helpers.Sizes.{CacheInfo, slab_count}
use allocators.SlabHelper.VecMap.{VecMap, add_to_map}
use allocators.SlabHelper.Cache
use allocators.SlabHelper.Cache.{Cache}
use allocators.SlabMem.Slab.{Slab, ops}

pub record Interface : Type 0 where
  pub vec_map : VecMap
  pub buckets : List (Cache Slab)

unfoldable pub add_cache : (page_size fresh block_size count : ℕ) → Interface → Option Interface
unfolding slab_count add_to_map Cache.construct
add_cache page_size fresh block_size count w = do
  count' ← slab_count page_size block_size count
  let (m, c) = Cache.construct ops block_size count' fresh (add_to_map count' w.vec_map)
  some (record { vec_map = m; buckets = w.buckets ++ c ∷ [] })

-- The loop of `addCache2`, on fuel; `none` means that the fuel ran out, or that a size
-- is 0.
unfoldable pub add_cache2 :
    (fuel page_size : ℕ) (fresh : ℕ → ℕ) (start_size max_size count : ℕ)
    → Interface
    → Option Interface
unfolding add_cache
add_cache2 zero page_size fresh start_size max_size count w = none
add_cache2 (suc fuel) page_size fresh start_size max_size count w =
    let next =
      add_cache2 fuel page_size (λ i. fresh (suc i)) (u64 (start_size * 2)) max_size count in
    let rest = add_cache page_size (fresh 0) start_size count w >>= next in
    if leb start_size max_size then rest else some w

-- The first cache whose blocks are large enough.
unfoldable pub find_bucket : (bytes : ℕ) → List (Cache Slab) → Option ℕ
find_bucket bytes [] = none
find_bucket bytes (c ∷ cs) =
    if leb bytes c.block_size
    then some 0
    else elim (find_bucket bytes cs) [ none ↦ none | some i ↦ some (suc i) ]

-- `allocate<T>(count)`, where `size` is `sizeof(T)`. With no cache the address is from `operator new`.
unfoldable pub allocate : (fresh size count : ℕ) → Interface → Option (ℕ × Interface)
unfolding find_bucket Cache.allocate
allocate fresh size count w = elim (find_bucket (u64 (count * size)) w.buckets) [
  | none ↦ some (fresh, w)
  | some i ↦ do
    c ← get_elem? w.buckets i
    (mem, m, c') ← Cache.allocate ops fresh w.vec_map c
    some (mem, record { vec_map = m; buckets = set w.buckets i c' })
]

unfoldable pub deallocate : (ptr size count : ℕ) → Interface → Option Interface
unfolding find_bucket Cache.deallocate
deallocate ptr size count w = elim (find_bucket (u64 (count * size)) w.buckets) [
  | none ↦ some w
  | some i ↦ do
    c ← get_elem? w.buckets i
    c' ← Cache.deallocate ops ptr c
    some (record w { buckets = set w.buckets i c' })
]

unfoldable pub info : Interface → List CacheInfo
unfolding Cache.info
info w = map Cache.info w.buckets

-- `freeFunc<all>`: it returns after the first cache that it frees.
unfoldable pub free_buckets : (all : Bool) (cache_size : ℕ) → List (Cache Slab) → List (Cache Slab)
unfolding Cache.free_all Cache.free_empty
free_buckets all cache_size [] = []
free_buckets all cache_size (c ∷ cs) =
    if (cache_size == 0) || (c.block_size == cache_size)
    then (if all then Cache.free_all c else Cache.free_empty c) ∷ cs
    else c ∷ free_buckets all cache_size cs

unfoldable pub free_all : (cache_size : ℕ) → Interface → Interface
unfolding free_buckets
free_all cache_size w = record w { buckets = free_buckets true cache_size w.buckets }

unfoldable pub free_empty : (cache_size : ℕ) → Interface → Interface
unfolding free_buckets
free_empty cache_size w = record w { buckets = free_buckets false cache_size w.buckets }
