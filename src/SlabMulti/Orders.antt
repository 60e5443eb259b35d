-- ===== src/SlabMulti/Orders.antt =====
-- The theorems about threads over one cache of `SlabMulti` at concrete inputs: blocks of 64 bytes, two in a
-- slab.
use mathlib.Core.Logic.Or
use mathlib.Core.List.{Nodup, mem-cons_self}
use allocators.Common.{ℕ, ◌≡◌, refl, [], ◌∷◌, arith, List}
use allocators.SlabMulti.Dispatcher.{GlobalDispatch}
use allocators.SlabMulti.Slab
use allocators.SlabMulti.Slab.{Slab}
use allocators.SlabMulti.Cache
use allocators.SlabMulti.Cache.{Cache}
use allocators.SlabMulti.Supply.{blocks}
use allocators.SlabMulti.Threads.{Pc, Shared, System, Steps}
use allocators.SlabMulti.Race.{before_splice, before_dispatch, given_twice, dropped_twice}

abbrev addresses : ℕ → ℕ
addresses i = 4096

abbrev stock : GlobalDispatch
stock = record { blocks = 2000 ∷ 3000 ∷ []; total_sblocks = 4; availible = (64, 0 ∷ 1 ∷ []) ∷ [] }

abbrev slab : (availible foreigns : List ℕ) → Slab
slab availible foreigns = record {
  block_size = 64;
  count = 2;
  availible = availible;
  foreigns = foreigns;
}

abbrev one : Cache
one = record {
  my_size = 1;
  my_capacity = 2;
  count = 2;
  block_size = 64;
  threshold = 2;
  slabs = slab (1 ∷ []) [] ∷ [];
  ptrs = 1000 ∷ [];
  act = 0;
}

-- The program has the block of index 0.
abbrev shared : Shared
shared = record { dispatcher = stock; cache = one; out = 1000 ∷ [] }

-- The owner takes the other one.
abbrev shared_after : Shared
shared_after = record shared { cache = record one { slabs = slab [] [] ∷ [] } }

given_twice_example :
    (t : System) × Steps addresses
      (before_splice stock one (slab (1 ∷ []) []) (slab [] []) 1000 2000 0 1 [] (1000 ∷ []))
      t
    × (t.shared.out ≡ 1000 ∷ 1000 ∷ [])
    × (¬ Nodup t.shared.out)
given_twice_example =
    given_twice addresses stock one (slab (1 ∷ []) []) (slab [] []) 1000 2000 0 1 [] (1000 ∷ [])
      (omega arith) (omega arith) (omega arith) mem-cons_self

dropped_twice_example :
    (t : System) × Steps addresses
      (before_dispatch stock
        (record one { my_size = 5; my_capacity = 6 })
        (slab (0 ∷ []) (1 ∷ []))
        (slab [] [])
        (slab (0 ∷ 1 ∷ []) [])
        1000
        2000
        3000
        (2000 ∷ 2064 ∷ []))
      t
    × (t.shared.cache.slabs ≡ slab (0 ∷ 1 ∷ []) [] ∷ [])
    × (t.shared.cache.ptrs ≡ 3000 ∷ [])
    × (t.shared.out ≡ 2000 ∷ 2064 ∷ [])
dropped_twice_example =
    dropped_twice addresses stock (record one { my_size = 5; my_capacity = 6 })
      (slab (0 ∷ []) (1 ∷ [])) (slab [] []) (slab (0 ∷ 1 ∷ []) []) 1000 2000 3000 (2000 ∷ 2064 ∷ [])
      refl (omega arith)

abbrev all_idle : System
all_idle = record { shared = shared; pc = λ i. Pc.idle }
