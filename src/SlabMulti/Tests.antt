-- ===== src/SlabMulti/Tests.antt =====
-- The theorems about the dispatcher and the caches of `SlabMulti` at concrete inputs, and tests: blocks of
-- 64 bytes, two in a slab.
use allocators.Common.{
  ℕ, ◌≤◌, ◌≡◌, refl, true, false, [], ◌∷◌, Option, none, some, ◌>>=◌, arith, get_elem?, subst,
}
use mathlib.Core.Option.{some-injective}
use allocators.SlabMulti.Dispatcher.{
  GlobalDispatch, get_indicies, cache_sizes, blocks_per_slab, get_block, return_block,
}
use allocators.SlabMulti.Stock.{get_block-return_block}
use allocators.SlabMulti.Slab
use allocators.SlabMulti.Slab.{Slab}
use allocators.SlabMulti.Cache
use allocators.SlabMulti.Cache.{Cache}
use allocators.SlabMulti.Ready.{Ready, HasRoom, allocate-Ready}
use allocators.SlabMulti.Edges.{deallocate_foreign, two_slabs}
use allocators.SlabMulti.Handles
use allocators.SlabMulti.Handles.{Handles}
use allocators.SlabMulti.Facade.{World}
use allocators.SlabMulti.Interface.{Buckets}

sizes_test : cache_sizes ≡ 64 ∷ 128 ∷ 256 ∷ 512 ∷ 1024 ∷ 2048 ∷ 4096 ∷ 8192 ∷ []
unfolding cache_sizes
sizes_test = refl

per_slab_test : blocks_per_slab ≡ 256 ∷ 128 ∷ 64 ∷ 32 ∷ 16 ∷ 8 ∷ 4 ∷ 2 ∷ []
unfolding blocks_per_slab
per_slab_test = refl

abbrev addresses : ℕ → ℕ
addresses i = 4096

abbrev stock : GlobalDispatch
stock = record { blocks = 2000 ∷ 3000 ∷ []; total_sblocks = 4; availible = (64, 0 ∷ 1 ∷ []) ∷ [] }

get_block-return_block_example : get_block addresses (return_block 4000 stock) ≡ some (4000, stock)
get_block-return_block_example = get_block-return_block addresses 4000 stock

-- The only slab has one index left.
abbrev nearly : Cache
nearly = record {
  my_size = 1;
  my_capacity = 2;
  count = 2;
  block_size = 64;
  threshold = 0;
  slabs = record { block_size = 64; count = 2; availible = 1 ∷ []; foreigns = [] } ∷ [];
  ptrs = 1000 ∷ [];
  act = 0;
}

nearly_room : (j : ℕ) (s : Slab) → j ≤ nearly.act → get_elem? nearly.slabs j ≡ some s → HasRoom s
nearly_room ℕ.zero s le at = subst HasRoom (some-injective _ _ at) (omega arith)
nearly_room (ℕ.suc j) s le at = absurd (cc)

nearly-Ready : Ready nearly
nearly-Ready = record { same = refl; inside = omega arith; room = nearly_room }

allocate-Ready_example :
    (p : ℕ) × (d' : GlobalDispatch) × (c' : Cache) × (Cache.allocate addresses stock nearly
      ≡ some (p, d', c'))
    × Ready c'
unfolding get_indicies
allocate-Ready_example = allocate-Ready addresses stock nearly nearly-Ready 0 (1 ∷ []) refl

abbrev whole : Slab
whole = record { block_size = 64; count = 2; availible = 0 ∷ 1 ∷ []; foreigns = [] }

abbrev used_up : Slab
used_up = record { block_size = 64; count = 2; availible = []; foreigns = [] }

abbrev returned : Cache
returned = record {
  my_size = 3;
  my_capacity = 4;
  count = 2;
  block_size = 64;
  threshold = 0;
  slabs = whole ∷ used_up ∷ [];
  ptrs = 2000 ∷ 1000 ∷ [];
  act = 0;
}

-- The only slab has three blocks, two of them out.
abbrev three : Cache
three = record nearly {
  my_size = 2;
  my_capacity = 3;
  count = 3;
  slabs = record { block_size = 64; count = 3; availible = 1 ∷ []; foreigns = [] } ∷ [];
}

deallocate_foreign_example :
    (c' c'' : Cache) × (x : ℕ) × (Cache.deallocate 2064 false
        (two_slabs nearly used_up (record used_up { foreigns = 0 ∷ [] }) 1 1000 2000)
      ≡ some (true, c'))
    × (Cache.allocate addresses stock c' ≡ some (x, stock, c''))
    × (Cache.allocate addresses stock c'' ≡ none)
unfolding Slab.contains_mem
deallocate_foreign_example =
    deallocate_foreign nearly used_up (record used_up { foreigns = 0 ∷ [] }) 1000 2000 1 2064 refl
      refl addresses stock (omega arith) (omega arith) (omega arith)

-- Three blocks are taken, and the third one is returned.
abbrev third : Option (ℕ × GlobalDispatch × Cache)
third = do
  (p, d1, c1) ← Cache.allocate addresses stock (record nearly {
    my_size = 0;
    slabs = record { block_size = 64; count = 2; availible = 0 ∷ 1 ∷ []; foreigns = [] } ∷ [];
  })
  (q, d2, c2) ← Cache.allocate addresses d1 c1
  (r, d3, c3) ← Cache.allocate addresses d2 c2
  (found, c4) ← Cache.deallocate r true c3
  some (r, d3, c4)

third_test : (do (r, d, c) ← third; some r) ≡ some 2000
unfolding Cache.allocate Cache.deallocate
third_test = refl

fourth_test : (do (r, d, c) ← third; (p, d', c') ← Cache.allocate addresses d c; some p) ≡ none
unfolding Cache.allocate Cache.deallocate
fourth_test = refl

-- Thread 7 has a cache with one index left, and thread 9 has another one.
abbrev threads : Buckets
threads = (7, nearly ∷ []) ∷ (9, returned ∷ []) ∷ []

abbrev threads_after : Buckets
threads_after = (7, record returned { my_size = 2 } ∷ []) ∷ (9, returned ∷ []) ∷ []

-- The handle at 100 is the only one of interface 1, that at 200 of interface 2.
abbrev handles : Handles
handles = record {
  interface = Handles.update (Handles.update (λ h. none) 100 (some 1)) 200 (some 2);
  ref_count = λ i. 1;
  deleted = λ i. false;
}

eq_test : (do st ← Handles.copy 300 100 handles; Handles.eq 300 100 st) ≡ some true
unfolding Handles.copy Handles.eq
eq_test = refl

-- The handles at 100 and 300 refer to interface 1.
abbrev shared : World
shared = record {
  handles = record handles {
    interface = Handles.update (Handles.update (λ h. none) 100 (some 1)) 300 (some 1);
  };
  buckets = λ i. [];
  dispatcher = stock;
}
