-- ===== src/Linear.antt =====
-- Allocators/Linear.h: `LStorage`, an arena of `bytes` bytes that all allocators of that size share,
-- and `Linear` over it. The address that `operator new` returns is an argument.
pub mod Blocks
mod Tests
use allocators.Common.{ℕ, ◌+◌, ◌*◌, Bool, true, false, ltb, ◌==◌, not, if◌then◌else◌, u64}

pub record LStorage : Type 0 where
  pub init : Bool
  pub my_begin : ℕ
  pub my_last : ℕ

pub data Error : Type 0 where
  bad_alloc not_instantiated cannot_deallocate : Error

pub data Result {ℓ} (A : Type ℓ) : Type ℓ where
  ok : A → Result A
  err : Error → Result A

-- The values of the static members before the first constructor runs.
abbrev pub uninstantiated : LStorage
uninstantiated = record { init = true; my_begin = 0; my_last = 0 }

-- `LStorage()`, where `fresh` is what `operator new (bytes)` returns.
unfoldable pub construct : (fresh : ℕ) → LStorage → LStorage
construct fresh s = if s.init then record { init = false; my_begin = fresh; my_last = 0 } else s

-- `allocate<T>(count)`, where `size` is `sizeof(T)`.
unfoldable pub allocate : (bytes size count : ℕ) → LStorage → Result (ℕ × LStorage)
allocate bytes size count s =
    if ltb bytes (u64 (u64 (count * size) + s.my_last))
    then err bad_alloc
    else if s.init
    then err not_instantiated
    else ok (s.my_begin + s.my_last, record s { my_last = u64 (s.my_last + u64 (count * size)) })

-- `reset`: the arena is deleted.
unfoldable pub reset : LStorage → LStorage
reset s = record { init = true; my_begin = 0; my_last = 0 }

-- `Linear::deallocate` always throws.
unfoldable pub deallocate : (ptr : ℕ) → LStorage → Result LStorage
deallocate ptr s = err cannot_deallocate

-- `operator==` and `operator!=` compare the sizes of the arenas.
unfoldable pub eq : (bytes other_size : ℕ) → Bool
eq bytes other_size = other_size == bytes

unfoldable pub ne : (bytes other_size : ℕ) → Bool
ne bytes other_size = not (other_size == bytes)
