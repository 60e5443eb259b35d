-- ===== src/FreeList/Facade.antt =====
-- Allocators/FreeList.h, the class `FreeList`: the calls that it forwards to the one storage of all its
-- handles of the same arena and policy. `size` is the size of the type that a call names.
use allocators.Common.{ℕ, Bool, true, false, Option, ◌%◌}
use allocators.FreeList.Interface
use allocators.FreeList.Interface.{Params, Storage}

-- All handles are equal.
unfoldable pub eq : Bool
eq = true

unfoldable pub ne : Bool
ne = false

module _ (c : Params) where
  open c use {modulus}

  -- `static_cast<size_type>(count)`
  unfoldable pub allocate : (size count : ℕ) → Storage → Option (ℕ × Storage)
  unfolding Interface.allocate
  allocate size count st = Interface.allocate c size (count % modulus) st

  -- `allocate()` with the default of its parameter.
  unfoldable pub allocate_one : (size : ℕ) → Storage → Option (ℕ × Storage)
  unfolding allocate
  allocate_one size st = allocate size 1 st

  -- The number of objects is not used.
  unfoldable pub deallocate : (ptr n : ℕ) → Storage → Storage
  unfolding Interface.deallocate
  deallocate ptr n st = Interface.deallocate c ptr st

  unfoldable pub free_all : Storage → Storage
  unfolding Interface.reset
  free_all st = Interface.reset c st
