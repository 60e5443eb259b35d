-- ===== src/SlabObj/Interface.antt =====
-- Allocators/SlabObj.h, `SlabObjImpl::Interface<T, Xtors>`: the one cache of a type and its
-- constructors, and the table of indices that all caches share. An object that constructs and destructs
-- is known by its address, which is 0 as long as none is set.
use allocators.Common.{ℕ, Option, some, ◌>>=◌}
use allocators.Helpers.Sizes.{CacheInfo, slab_count}
use allocators.SlabHelper.VecMap.{VecMap, add_to_map}
use allocators.SlabHelper.Cache
use allocators.SlabHelper.Cache.{Cache}
use allocators.SlabObj.Slab.{Slab, ops}

pub record Interface : Type 0 where
  pub vec_map : VecMap
  pub storage : Cache Slab
  pub xtors : ℕ

unfoldable pub set_xtors : (tors : ℕ) → Interface → Interface
set_xtors tors w = record w { xtors = tors }

module _ (size : ℕ) where
  -- The cache that was there is replaced.
  unfoldable pub add_cache : (page_size fresh count tors : ℕ) → Interface → Option Interface
  unfolding set_xtors slab_count add_to_map Cache.construct
  add_cache page_size fresh count tors w = do
    count' ← slab_count page_size size count
    let (m, c) = Cache.construct (ops size) size count' fresh (add_to_map count' w.vec_map)
    some (record (set_xtors tors w) { vec_map = m; storage = c })

  unfoldable pub allocate : (fresh : ℕ) → Interface → Option (ℕ × Interface)
  unfolding Cache.allocate
  allocate fresh w = do
    (mem, m, c) ← Cache.allocate (ops size) fresh w.vec_map w.storage
    some (mem, record w { vec_map = m; storage = c })

  unfoldable pub deallocate : (ptr : ℕ) → Interface → Option Interface
  unfolding Cache.deallocate
  deallocate ptr w = do
    c ← Cache.deallocate (ops size) ptr w.storage
    some (record w { storage = c })

unfoldable pub free_all : Interface → Interface
unfolding Cache.free_all
free_all w = record w { storage = Cache.free_all w.storage }

unfoldable pub free_empty : Interface → Interface
unfolding Cache.free_empty
free_empty w = record w { storage = Cache.free_empty w.storage }

unfoldable pub info : Interface → CacheInfo
unfolding Cache.info
info w = Cache.info w.storage
