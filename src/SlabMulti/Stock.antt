-- ===== src/SlabMulti/Stock.antt =====
-- What `GlobalDispatch` hands out, and which cache serves a size.
use allocators.Common.{
  ℕ, zero, suc, ◌+◌, ◌*◌, ◌≤◌, ◌<◌, ◌≡◌, ◌⊎◌, refl, inl, inr, List, [], ◌∷◌, ◌++◌, none, some, ltb,
  leb, Bool-cases, leb→le, leb-false, ltb-false, arith, tests, get_elem?, take, All, ap,
}
use allocators.SlabMulti.Dispatcher.{
  GlobalDispatch, superblock_size, slab_size, add_blocks, add_superblocks, request_mem, take_block,
  get_block, return_block, find_cache_idx,
}

-- The first `k` blocks of a superblock, the last one first.
abbrev pub blocks_of : (mem k : ℕ) → List ℕ
blocks_of mem zero = []
blocks_of mem (suc k) = (mem + k * slab_size) ∷ blocks_of mem k

add_blocks-blocks_of :
    (fuel mem k : ℕ) (l : List ℕ)
    → k ≤ 64
    → 64 < fuel + k
    → add_blocks fuel mem (k * slab_size) (blocks_of mem k ++ l) ≡ blocks_of mem 64 ++ l
unfolding add_blocks
add_blocks-blocks_of zero mem k l le enough = absurd (omega arith)
add_blocks-blocks_of (suc fuel) mem k l le enough =
    elim (Bool-cases (ltb (k * slab_size) superblock_size)) [
      | inl more ↦
          let next : k * slab_size + slab_size ≡ suc k * slab_size = omega arith in
          rw (more, next) (add_blocks-blocks_of fuel mem (suc k) l (omega tests) (omega arith))
      | inr done ↦
          let all : k ≡ 64 = omega (arith, ltb-false (k * slab_size) superblock_size done) in
          rw done (ap (λ (j : ℕ). blocks_of mem j ++ l) all)
    ]

-- The blocks of `n` superblocks, the last one first.
abbrev pub superblocks : (fresh : ℕ → ℕ) (n : ℕ) → List ℕ → List ℕ
superblocks fresh zero l = l
superblocks fresh (suc n) l = superblocks (λ i. fresh (suc i)) n (blocks_of (fresh 0) 64 ++ l)

-- The loops of `requestMem` put the addresses of 64 slabs for each superblock before those in stock,
-- one `slab_size` apart from the address of the superblock on, the last one first.
pub add_superblocks-eq :
    (fresh : ℕ → ℕ) (n : ℕ) (l : List ℕ) → add_superblocks fresh n l ≡ superblocks fresh n l
unfolding add_superblocks
add_superblocks-eq fresh zero l = refl
add_superblocks-eq fresh (suc n) l =
    rw (add_blocks-blocks_of 65 (fresh 0) 0 l (omega arith) (omega arith))
      (add_superblocks-eq (λ i. fresh (suc i)) n (blocks_of (fresh 0) 64 ++ l))

abbrev Gets : (fresh : ℕ → ℕ) → GlobalDispatch → Type 0
Gets fresh d =
    (mem : ℕ) × (d' : GlobalDispatch) × (get_block fresh d ≡ some (mem, d'))
    × (d'.availible ≡ d.availible)
    × ((d.blocks ≡ mem ∷ d'.blocks)
        ⊎ ((d.blocks ≡ []) × (superblocks fresh 4 [] ≡ mem ∷ d'.blocks)))

get_block_fields :
    (fresh : ℕ → ℕ) (l : List ℕ) (total : ℕ) (ids : List (ℕ × List ℕ))
    → Gets fresh (record { blocks = l; total_sblocks = total; availible = ids })
unfolding get_block take_block request_mem
get_block_fields fresh [] total ids = (
  _,
  record { blocks = _; total_sblocks = total + 4; availible = ids },
  refl,
  refl,
  inr (refl, refl),
)
get_block_fields fresh (mem ∷ l) total ids =
    (mem, record { blocks = l; total_sblocks = total; availible = ids }, refl, refl, inl refl)

-- `getBlock` always has a block: the last one in stock, or the last of the four superblocks that it
-- requests when the stock is empty. It leaves the rest of the stock and the indices.
pub get_block_cases :
    (fresh : ℕ → ℕ) (d : GlobalDispatch)
    → (mem : ℕ) × (d' : GlobalDispatch) × (get_block fresh d ≡ some (mem, d'))
      × (d'.availible ≡ d.availible)
      × ((d.blocks ≡ mem ∷ d'.blocks)
          ⊎ ((d.blocks ≡ []) × (superblocks fresh 4 [] ≡ mem ∷ d'.blocks)))
get_block_cases fresh d = get_block_fields fresh d.blocks d.total_sblocks d.availible

-- A block that is returned is the next to be handed out, and the dispatcher is as before.
pub get_block-return_block :
    (fresh : ℕ → ℕ) (block : ℕ) (d : GlobalDispatch)
    → get_block fresh (return_block block d) ≡ some (block, d)
unfolding get_block return_block take_block
get_block-return_block fresh block d = refl

-- The search for a cache fails exactly when all block sizes are too small, and otherwise it finds
-- the first one that is not.
pub find_cache_idx_cases :
    (bytes : ℕ) (l : List ℕ)
    → ((find_cache_idx bytes l ≡ none) × All (λ s. s < bytes) l)
      ⊎ ((i s : ℕ) × (find_cache_idx bytes l ≡ some i)
          × (get_elem? l i ≡ some s)
          × (bytes ≤ s)
          × All (λ s. s < bytes) (take i l))
unfolding find_cache_idx
find_cache_idx_cases bytes [] = inl (refl, tt)
find_cache_idx_cases bytes (s ∷ l) = elim (Bool-cases (leb bytes s)) [
  | inl fits ↦ inr (0, s, rw fits, refl, leb→le bytes s fits, tt)
  | inr small ↦ elim (find_cache_idx_cases bytes l) [
    | inl (e, all) ↦ inl (rw (small, e), (leb-false bytes s small, all))
    | inr (i, t, e, at, le, all) ↦
        inr (suc i, t, rw (small, e), at, le, (leb-false bytes s small, all))
  ]
]
