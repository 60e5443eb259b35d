-- ===== src/SlabMulti/Settle.antt =====
-- `ImplSlabMulti::Cache::deallocate` by the thread that owns the cache.
use allocators.Common.{ℕ, ◌≡◌, some, get_elem?, set}
use allocators.SlabMulti.Slab
use allocators.SlabMulti.Slab.{Slab}
use allocators.SlabMulti.Cache.{Cache}
use allocators.SlabMulti.Ready.{Ready}

module _ (c : Cache) (r : Ready c) (ptr it : ℕ) (s : Slab)
    (at : get_elem? c.slabs it ≡ some s) where
  -- The cache once the slab has its block back.
  abbrev returned : Slab → Cache
  returned s' = record c { slabs = set c.slabs it s' }
