-- ===== src/SlabMulti/Dispatcher.antt =====
-- Allocators/SlabMultiDispatcher.h: `GlobalDispatch`, and the block sizes of the caches. The head of a list
-- is the back of the vector where `pop_back` works. `fresh` are the addresses that `operator new`
-- returns, in order.
use allocators.Common.{
  ℕ, zero, suc, ◌+◌, ◌*◌, ◌/◌, ◌^◌, List, [], ◌∷◌, Option, none, some, ltb, leb, if◌then◌else◌, map,
}
use allocators.SlabHelper.VecMap.{iota}

abbrev pub superblock_size : ℕ
superblock_size = 2 ^ 20

abbrev pub slab_size : ℕ
slab_size = 2 ^ 14

abbrev pub num_caches : ℕ
num_caches = 8

abbrev pub smallest_cache : ℕ
smallest_cache = 64

abbrev pub largest_cache : ℕ
largest_cache = smallest_cache * 2 ^ 7

abbrev pub init_superblocks : ℕ
init_superblocks = 4

-- The loop of `buildCaches`, on fuel.
unfoldable pub build_caches : (fuel i : ℕ) → List ℕ
build_caches zero i = []
build_caches (suc fuel) i =
    let rest = build_caches fuel (i * 2) in if leb i largest_cache then i ∷ rest else []

unfoldable pub build_blocks_per : List ℕ → List ℕ
build_blocks_per = map λ s. slab_size / s

-- No block size is doubled more often than there are caches.
unfoldable pub cache_sizes : List ℕ
unfolding build_caches
cache_sizes = build_caches (suc num_caches) smallest_cache

unfoldable pub blocks_per_slab : List ℕ
unfolding cache_sizes build_blocks_per
blocks_per_slab = build_blocks_per cache_sizes

unfoldable pub build_indicies : List ℕ → List (ℕ × List ℕ)
unfolding iota
build_indicies = map λ s. (s, iota 0 (slab_size / s))

pub record GlobalDispatch : Type 0 where
  pub blocks : List ℕ
  pub total_sblocks : ℕ
  pub availible : List (ℕ × List ℕ)

-- The blocks of one superblock, from the offset `idx` on, on fuel.
unfoldable pub add_blocks : (fuel mem idx : ℕ) → List ℕ → List ℕ
add_blocks zero mem idx blocks = blocks
add_blocks (suc fuel) mem idx blocks =
    let rest = add_blocks fuel mem (idx + slab_size) ((mem + idx) ∷ blocks) in
    if ltb idx superblock_size then rest else blocks

unfoldable pub add_superblocks : (fresh : ℕ → ℕ) (sblocks : ℕ) → List ℕ → List ℕ
unfolding add_blocks
add_superblocks fresh zero blocks = blocks
add_superblocks fresh (suc n) blocks =
    add_superblocks (λ i. fresh (suc i)) n
      (add_blocks (suc (superblock_size / slab_size)) (fresh 0) 0 blocks)

unfoldable pub request_mem : (fresh : ℕ → ℕ) (sblocks : ℕ) → GlobalDispatch → GlobalDispatch
unfolding add_superblocks
request_mem fresh sblocks d = record d {
  blocks = add_superblocks fresh sblocks d.blocks;
  total_sblocks = d.total_sblocks + sblocks;
}

-- `GlobalDispatch()`
unfoldable pub construct : (fresh : ℕ → ℕ) → GlobalDispatch
unfolding request_mem build_indicies cache_sizes
construct fresh =
    request_mem fresh init_superblocks
      (record { blocks = []; total_sblocks = 0; availible = build_indicies cache_sizes })

-- The back of an empty vector is undefined: `none`.
unfoldable pub take_block : GlobalDispatch → Option (ℕ × GlobalDispatch)
take_block d = elim d.blocks [ [] ↦ none | mem ∷ rest ↦ some (mem, record d { blocks = rest }) ]

unfoldable pub get_block : (fresh : ℕ → ℕ) → GlobalDispatch → Option (ℕ × GlobalDispatch)
unfolding take_block request_mem
get_block fresh d = elim d.blocks [
  | [] ↦ take_block (request_mem fresh init_superblocks d)
  | mem ∷ rest ↦ take_block d
]

unfoldable pub return_block : (block : ℕ) → GlobalDispatch → GlobalDispatch
return_block block d = record d { blocks = block ∷ d.blocks }

-- The indices of the first size that is large enough; `none` is the exception.
unfoldable pub find_indicies : (block_size : ℕ) → List (ℕ × List ℕ) → Option (List ℕ)
find_indicies block_size [] = none
find_indicies block_size ((s, v) ∷ r) =
    if leb block_size s then some v else find_indicies block_size r

unfoldable pub get_indicies : (block_size : ℕ) → GlobalDispatch → Option (List ℕ)
unfolding find_indicies
get_indicies block_size d = find_indicies block_size d.availible

-- `Interface::findCacheIdx` (Allocators/SlabMulti.h); `none` is `NOT_FOUND`.
unfoldable pub find_cache_idx : (bytes : ℕ) → List ℕ → Option ℕ
find_cache_idx bytes [] = none
find_cache_idx bytes (s ∷ r) =
    if leb bytes s
    then some 0
    else elim (find_cache_idx bytes r) [ none ↦ none | some i ↦ some (suc i) ]
