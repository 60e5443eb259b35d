-- ===== src/SlabMulti/Runs.antt =====
-- The theorems about the free blocks of a cache of `SlabMulti` at concrete inputs: blocks of 64 bytes, two
-- in a slab.
use mathlib.Core.Logic.Or
use mathlib.Core.HLevel.{⊥_prop}
use mathlib.Core.List.{Mem, Nodup, Nodup-cons, Nodup-nil, not-mem-nil, eq-or-mem_of_mem-cons}
use mathlib.Core.Option.{some-injective}
use allocators.Common.{
  ℕ, ◌<◌, ◌≢◌, ◌≤◌, ◌≡◌, refl, true, false, [], ◌∷◌, some, arith, get_elem?, subst, List, All,
}
use allocators.SlabMulti.Dispatcher.{GlobalDispatch, get_block, get_indicies, add_superblocks}
use allocators.SlabMulti.Slab
use allocators.SlabMulti.Slab.{Slab}
use allocators.SlabMulti.Cache
use allocators.SlabMulti.Cache.{Cache}
use allocators.SlabMulti.SpinLock.{update, Pc, Lock, Step, Reach, holding_unique}
use allocators.SlabMulti.Stock.{superblocks, add_superblocks-eq}
use allocators.SlabMulti.Ready.{Ready, HasRoom}
use allocators.SlabMulti.Find.{Lacks}
use allocators.SlabMulti.Supply.{supply}
use allocators.SlabMulti.Gives.{allocate_apart}
use allocators.SmpContainer.{find}
use allocators.SlabMulti.Dispatcher.{find_cache_idx, cache_sizes}
use allocators.SlabMulti.Interface
use allocators.SlabMulti.Interface.{Bucket, bucket_deallocate}
use allocators.SlabMulti.Foreign.{Misses, deallocate_abroad}

abbrev addresses : ℕ → ℕ
addresses i = 4096

abbrev stock : GlobalDispatch
stock = record { blocks = 2000 ∷ 3000 ∷ []; total_sblocks = 4; availible = (64, 0 ∷ 1 ∷ []) ∷ [] }

-- Two blocks are free.
abbrev two : Cache
two = record {
  my_size = 0;
  my_capacity = 2;
  count = 2;
  block_size = 64;
  threshold = 0;
  slabs = record { block_size = 64; count = 2; availible = 1 ∷ 0 ∷ []; foreigns = [] } ∷ [];
  ptrs = 1000 ∷ [];
  act = 0;
}

two_room : (j : ℕ) (s : Slab) → j ≤ two.act → get_elem? two.slabs j ≡ some s → HasRoom s
two_room ℕ.zero s le at = subst HasRoom (some-injective _ _ at) (omega arith)
two_room (ℕ.suc j) s le at = absurd (cc)

two-Ready : Ready two
two-Ready = record { same = refl; inside = omega arith; room = two_room }

apart : (a : ℕ) (l : List ℕ) → All (λ b. a ≢ b) l → ¬ Mem a l
apart a [] h m = not-mem-nil m
apart a (b ∷ l) h m = Or.elim ⊥_prop (eq-or-mem_of_mem-cons m) h.0 (apart a l h.1)

distinct : Nodup {A = ℕ} (2000 ∷ 2064 ∷ 1064 ∷ 1000 ∷ [])
distinct =
    let last : Nodup {A = ℕ} (1000 ∷ []) = Nodup-cons.1 (not-mem-nil, Nodup-nil) in
    let third : Nodup {A = ℕ} (1064 ∷ 1000 ∷ []) =
      Nodup-cons.1 (apart 1064 (1000 ∷ []) (omega arith, tt), last) in
    let second : Nodup {A = ℕ} (2064 ∷ 1064 ∷ 1000 ∷ []) =
      Nodup-cons.1 (apart 2064 (1064 ∷ 1000 ∷ []) (omega arith, (omega arith, tt)), third) in
    Nodup-cons.1
      (apart 2000 (2064 ∷ 1064 ∷ 1000 ∷ []) (omega arith, (omega arith, (omega arith, tt))), second)

allocate_apart_example :
    (p : ℕ) × (d' : GlobalDispatch) × (c' : Cache) × (Cache.allocate addresses stock two
      ≡ some (p, d', c'))
    × (¬ Mem p (supply c'))
    × Nodup (supply c')
unfolding get_indicies get_block
allocate_apart_example =
    allocate_apart addresses stock two two-Ready 0 (1 ∷ []) refl 2000 _ refl distinct

-- The second slab is used up.
abbrev second : Cache
second = record two {
  my_size = 2;
  my_capacity = 4;
  slabs =
      record { block_size = 64; count = 2; availible = 1 ∷ 0 ∷ []; foreigns = [] }
      ∷ record { block_size = 64; count = 2; availible = []; foreigns = [] }
      ∷ [];
  ptrs = 1000 ∷ 2000 ∷ [];
}

-- Thread 7 has a cache elsewhere, thread 9 has `second`.
abbrev own : Bucket
own = record two { ptrs = 5000 ∷ [] } ∷ []

own-Misses : Misses 2064 0 own
unfolding Slab.contains_mem
own-Misses = (record two { ptrs = 5000 ∷ [] }, refl, omega arith, lacks)
  where
    lacks : (j : ℕ) → j < 1 → Lacks 2064 (record two { ptrs = 5000 ∷ [] }) j
    lacks ℕ.zero lt m at =
        subst (λ (p : ℕ). Slab.contains_mem 2064 p 64 2 ≡ false) (some-injective _ _ at) refl
    lacks (ℕ.suc j) lt m at = absurd (omega arith)

abbrev second_after : Cache
second_after = record second {
  my_size = 1;
  slabs =
      record { block_size = 64; count = 2; availible = 1 ∷ 0 ∷ []; foreigns = [] }
      ∷ record { block_size = 64; count = 2; availible = []; foreigns = 1 ∷ [] }
      ∷ [];
}

taken : bucket_deallocate 2064 (some 0) false (second ∷ []) ≡ some (true, second_after ∷ [])
unfolding bucket_deallocate
taken = refl

deallocate_abroad_example :
    Interface.deallocate (λ i. addresses) 2064 7 64 1 stock ((7, own) ∷ (9, second ∷ []) ∷ [])
    ≡ some (stock, (7, own) ∷ (9, second_after ∷ []) ∷ [])
unfolding find_cache_idx cache_sizes find
deallocate_abroad_example =
    deallocate_abroad (λ i. addresses) 2064 7 64 1 0 stock ((7, own) ∷ []) [] 9 own (second ∷ [])
      (second_after ∷ []) refl refl own-Misses (own-Misses, tt) (omega arith) taken

add_superblocks-eq_example :
    add_superblocks (λ i. 4096) 1 (7 ∷ []) ≡ superblocks (λ i. 4096) 1 (7 ∷ [])
add_superblocks-eq_example = add_superblocks-eq (λ i. 4096) 1 (7 ∷ [])

-- Thread 0 holds the lock, and thread 1 has found it taken.
abbrev contended : Lock
contended = record {
  flag = true;
  pc =
      update (update (update (update (λ i. Pc.idle) 0 Pc.spinning) 0 Pc.holding) 1 Pc.spinning) 1
        Pc.spinning;
}

contended-Reach : Reach contended
contended-Reach =
    Reach.later
      (Reach.later
        (Reach.later (Reach.later Reach.start (Step.lock 0 refl)) (Step.test_and_set 0 refl))
        (Step.lock 1 refl))
      (Step.test_and_set 1 refl)

holding_unique_example : ◌≡◌ {A = ℕ} 0 0
holding_unique_example = holding_unique contended-Reach 0 0 refl refl
