-- ===== src/SlabHelper/Cache.antt =====
-- Allocators/SlabHelper.h, `SlabImpl::Cache<Slab>`. Iterators are indices, and a step that is
-- undefined behaviour is `none`. `fresh` is what `operator new` returns if a slab is made.
use allocators.Common.{
  ℕ, suc, ◌+◌, ◌-◌, ◌*◌, ◌%◌, ◌^◌, List, [], ◌∷◌, ◌++◌, Option, none, some, ◌>>=◌, if◌then◌else◌,
  get_elem?, set, length, u64,
}
use allocators.Helpers.Sizes.{CacheInfo}
use allocators.SlabHelper.VecMap.{VecMap, index}
use allocators.SlabHelper.SlabOps.{SlabOps}
use allocators.SlabHelper.Splice.{back, pop_back, splice}

pub record Cache {ℓ} (S : Type ℓ) : Type ℓ where
  pub count : ℕ
  pub block_size : ℕ
  pub my_capacity : ℕ
  pub my_size : ℕ
  pub slabs_free : List S
  pub slabs_part : List S
  pub slabs_full : List S

module _ {ℓ} {S : Type ℓ} where
  -- `Cache()`
  abbrev pub empty_cache : Cache S
  empty_cache = record {
    count = 0;
    block_size = 0;
    my_capacity = 0;
    my_size = 0;
    slabs_free = [];
    slabs_part = [];
    slabs_full = [];
  }

  unfoldable pub info : Cache S → CacheInfo
  info c = record {
    size = c.my_size;
    capacity = c.my_capacity;
    object_size = c.block_size;
    obj_per_slab = c.count;
  }

  unfoldable pub free_all : Cache S → Cache S
  free_all c = record c {
    slabs_free = [];
    slabs_part = [];
    slabs_full = [];
    my_capacity = 0;
    my_size = 0;
  }

  unfoldable pub free_empty : Cache S → Cache S
  free_empty c = record c {
    my_capacity = (c.my_capacity + 2 ^ 64 - u64 (length c.slabs_free * c.block_size)) % 2 ^ 64;
    slabs_free = [];
  }

module _ {ℓ} {S : Type ℓ} (ops : SlabOps S) where
  unfoldable pub new_slab : (fresh : ℕ) → VecMap → Cache S → VecMap × Cache S
  unfolding index
  new_slab fresh m c =
      let (indices, m') = index c.count m in
      (
        m',
        record c {
          slabs_free = c.slabs_free ++ ops.construct c.block_size c.count fresh indices ∷ [];
          my_capacity = u64 (c.my_capacity + c.count);
        },
      )

  -- `Cache(blockSize, count)`
  unfoldable pub construct : (block_size count fresh : ℕ) → VecMap → VecMap × Cache S
  unfolding new_slab
  construct block_size count fresh m = new_slab fresh m (record {
    count = count;
    block_size = block_size;
    my_capacity = 0;
    my_size = 0;
    slabs_free = [];
    slabs_part = [];
    slabs_full = [];
  })

  -- The two vectors that `findFreeSlab` may name. The iterator is always the first element.
  pub data Found : Type 0 where
    in_part in_free : Found

  unfoldable pub find_free_slab : (fresh : ℕ) → VecMap → Cache S → Found × VecMap × Cache S
  unfolding new_slab
  find_free_slab fresh m c = elim c.slabs_part [
    | s ∷ r ↦ (in_part, m, c)
    | [] ↦ elim c.slabs_free [
      | s ∷ r ↦ (in_free, m, c)
      | [] ↦ let (m', c') = new_slab fresh m c in (in_free, m', c')
    ]
  ]

  -- `allocate` from the first partial slab.
  unfoldable pub allocate_part : Cache S → Option (ℕ × Cache S)
  unfolding splice
  allocate_part c = do
    s ← get_elem? c.slabs_part 0
    ((mem, is_full), s') ← ops.allocate s
    let part = set c.slabs_part 0 s'
    let c' = record c { slabs_part = part; my_size = u64 (c.my_size + 1) }
    if is_full
        then (do
          (full, part') ← splice c.slabs_full part 0
          some (mem, record c' { slabs_part = part'; slabs_full = full }))
        else some (mem, c')

  -- `allocate` from the first free slab: it goes to the partial ones, and if it is full the
  -- iterator, which still points at the front of `slabsFree`, is spliced once more.
  unfoldable pub allocate_free : Cache S → Option (ℕ × Cache S)
  unfolding splice
  allocate_free c = do
    s ← get_elem? c.slabs_free 0
    ((mem, is_full), s') ← ops.allocate s
    (part, free) ← splice c.slabs_part (set c.slabs_free 0 s') 0
    let c' = record c { slabs_part = part; slabs_free = free; my_size = u64 (c.my_size + 1) }
    if is_full
        then (do
          (full, free') ← splice c.slabs_full free 0
          some (mem, record c' { slabs_free = free'; slabs_full = full }))
        else some (mem, c')

  unfoldable pub allocate : (fresh : ℕ) → VecMap → Cache S → Option (ℕ × VecMap × Cache S)
  unfolding find_free_slab allocate_part allocate_free
  allocate fresh m c =
      let (found, m', c') = find_free_slab fresh m c in
      do
        (mem, c'') ← elim found [ in_part ↦ allocate_part c' | in_free ↦ allocate_free c' ]
        some (mem, m', c'')

  -- The last slab that holds the memory; `none` is the end.
  unfoldable pub search_store : (ptr : ℕ) → List S → Option ℕ
  search_store ptr [] = none
  search_store ptr (s ∷ r) = elim (search_store ptr r) [
    | some i ↦ some (suc i)
    | none ↦ if ops.contains_mem ptr s then some 0 else none
  ]

  -- The slab at index `i` of `slabsFull` goes to the end of `slabsPart`. If it is then empty,
  -- `store` still names `slabsFull`, and its last slab is swapped in.
  unfoldable pub deallocate_full : (ptr i : ℕ) → Cache S → Option (Cache S)
  unfolding splice back pop_back
  deallocate_full ptr i c = do
    (part, full) ← splice c.slabs_part c.slabs_full i
    s ← back part
    let s' = ops.deallocate ptr s
    let c' = record c { my_size = (c.my_size + 2 ^ 64 - 1) % 2 ^ 64 }
    if ops.is_empty s'
        then (do
          b ← back full
          some (record c' {
            slabs_free = c.slabs_free ++ s' ∷ [];
            slabs_part = pop_back part ++ b ∷ [];
            slabs_full = pop_back full;
          }))
        else some (record c' { slabs_part = pop_back part ++ s' ∷ []; slabs_full = full })

  unfoldable pub deallocate_part : (ptr i : ℕ) → Cache S → Option (Cache S)
  unfolding splice
  deallocate_part ptr i c = do
    s ← get_elem? c.slabs_part i
    let s' = ops.deallocate ptr s
    let part = set c.slabs_part i s'
    let c' = record c { my_size = (c.my_size + 2 ^ 64 - 1) % 2 ^ 64 }
    if ops.is_empty s'
        then (do
          (free, part') ← splice c.slabs_free part i
          some (record c' { slabs_free = free; slabs_part = part' }))
        else some (record c' { slabs_part = part })

  unfoldable pub deallocate : (ptr : ℕ) → Cache S → Option (Cache S)
  unfolding search_store deallocate_full deallocate_part
  deallocate ptr c = elim (search_store ptr c.slabs_full) [
    | some i ↦ deallocate_full ptr i c
    | none ↦ do i ← search_store ptr c.slabs_part; deallocate_part ptr i c
  ]
