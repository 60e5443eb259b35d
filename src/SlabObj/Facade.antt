-- ===== src/SlabObj/Facade.antt =====
-- Allocators/Slab.h, `SlabObj<Type>`: the static functions of the allocator, over the interface of a type
-- and its constructors. `size` is the size of the type.
use allocators.Common.{ℕ, Bool, true, false, Option}
use allocators.Helpers.Sizes.{CacheInfo}
use allocators.SlabObj.Interface
use allocators.SlabObj.Interface.{Interface}

-- All handles are equal.
unfoldable pub eq : Bool
eq = true

unfoldable pub ne : Bool
ne = false

module _ (size : ℕ) where
  unfoldable pub add_cache : (page_size fresh count tors : ℕ) → Interface → Option Interface
  unfolding Interface.add_cache
  add_cache page_size fresh count tors w = Interface.add_cache size page_size fresh count tors w

  unfoldable pub allocate : (fresh : ℕ) → Interface → Option (ℕ × Interface)
  unfolding Interface.allocate
  allocate fresh w = Interface.allocate size fresh w

  unfoldable pub deallocate : (ptr : ℕ) → Interface → Option Interface
  unfolding Interface.deallocate
  deallocate ptr w = Interface.deallocate size ptr w

unfoldable pub free_all : Interface → Interface
unfolding Interface.free_all
free_all w = Interface.free_all w

unfoldable pub free_empty : Interface → Interface
unfolding Interface.free_empty
free_empty w = Interface.free_empty w

unfoldable pub obj_info : Interface → CacheInfo
unfolding Interface.info
obj_info w = Interface.info w
