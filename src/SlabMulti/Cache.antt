-- ===== src/SlabMulti/Cache.antt =====
-- Allocators/ImplSlabMulti.h, `ImplSlabMulti::Cache`. The iterators `actBlock` and `actMem` move together:
-- `act` is the index of both. A step that is undefined behaviour is `none`.
use allocators.Common.{
  ℕ, zero, suc, ◌+◌, ◌-◌, ◌*◌, ◌/◌, ◌%◌, ◌^◌, ◌≡◌, refl, ◌∙◌, bind_some, Bool, true, false, not,
  ◌&&◌, ◌||◌, List, [], ◌∷◌, ◌++◌, Option, none, some, ◌>>=◌, ltb, leb, ◌==◌, if◌then◌else◌,
  get_elem?, set, length, u64,
}
use allocators.SlabHelper.Splice.{back, pop_back, take_out}
use allocators.SlabMulti.Dispatcher.{GlobalDispatch, get_block, get_indicies}
use allocators.SlabMulti.Slab
use allocators.SlabMulti.Slab.{Slab}

pub record Cache : Type 0 where
  pub my_size : ℕ
  pub my_capacity : ℕ
  pub count : ℕ
  pub block_size : ℕ
  pub threshold : ℕ
  pub slabs : List Slab
  pub ptrs : List ℕ
  pub act : ℕ

unfoldable pub add_cache :
    (fresh : ℕ → ℕ) → GlobalDispatch → Cache → Option (GlobalDispatch × Cache)
unfolding get_block get_indicies
add_cache fresh d c = do
  availible ← get_indicies c.block_size d
  (mem, d') ← get_block fresh d
  some (
    d',
    record c {
      slabs =
          c.slabs
          ++ record {
            block_size = c.block_size;
            count = c.count;
            availible = availible;
            foreigns = [];
          }
            ∷ [];
      ptrs = c.ptrs ++ mem ∷ [];
      my_capacity = u64 (c.my_capacity + c.count);
    },
  )

-- `Cache(count, blockSize)`
unfoldable pub construct :
    (fresh : ℕ → ℕ) (count block_size : ℕ) → GlobalDispatch → Option (GlobalDispatch × Cache)
unfolding add_cache
construct fresh count block_size d = add_cache fresh d (record {
  my_size = 0;
  my_capacity = 0;
  count = count;
  block_size = block_size;
  threshold = count / 4;
  slabs = [];
  ptrs = [];
  act = 0;
})

module _ {ℓ} {A : Type ℓ} where
  unfoldable pub insert : ℕ → A → List A → List A
  insert zero x xs = x ∷ xs
  insert (suc i) x [] = x ∷ []
  insert (suc i) x (y ∷ xs) = y ∷ insert i x xs

  unfoldable pub erase : ℕ → List A → List A
  erase i [] = []
  erase zero (x ∷ xs) = xs
  erase (suc i) (x ∷ xs) = x ∷ erase i xs

  -- `splice`: the element at `it` goes right before `pos`, behind which it stands. The code moves the
  -- elements in between by `memmove`, which C++ leaves undefined for a class like `Slab`; here they
  -- keep their values, one place further back.
  unfoldable pub splice : (pos it : ℕ) → List A → Option (List A)
  unfolding insert erase
  splice pos it xs = do x ← get_elem? xs it; some (insert pos x (erase it xs))

  -- `std::swap(xs[i], xs.back())`
  unfoldable pub swap_back : ℕ → List A → Option (List A)
  unfolding back pop_back
  swap_back i xs = do x ← get_elem? xs i; b ← back xs; some (set (pop_back xs ++ x ∷ []) i b)

-- When the active slab has no index left: those that other threads returned are merged, or the slab
-- before it is the next, or a new slab takes the place of the first.
unfoldable pub next_slab :
    (fresh : ℕ → ℕ) (s : Slab) → GlobalDispatch → Cache → Option (GlobalDispatch × Cache)
unfolding add_cache swap_back Slab.full Slab.merge_foreigns
next_slab fresh s d c =
    if not (Slab.full s)
    then some (d, record c { slabs = set c.slabs c.act (Slab.merge_foreigns s) })
    else if not (c.act == 0)
    then some (d, record c { act = c.act - 1 })
    else (do
      (d', c') ← add_cache fresh d c
      slabs ← swap_back c.act c'.slabs
      ptrs ← swap_back c.act c'.ptrs
      some (d', record c' { slabs = slabs; ptrs = ptrs }))

unfoldable pub allocate :
    (fresh : ℕ → ℕ) → GlobalDispatch → Cache → Option (ℕ × GlobalDispatch × Cache)
unfolding next_slab Slab.allocate
allocate fresh d c = do
  s ← get_elem? c.slabs c.act
  mem ← get_elem? c.ptrs c.act
  ((p, possibly_full), s') ← Slab.allocate mem s
  let c' = record c { slabs = set c.slabs c.act s' }
  (d', c'') ← if possibly_full then next_slab fresh s' d c' else some (d, c')
  some (p, d', record c'' { my_size = u64 (c''.my_size + 1) })

-- The loop of `deallocate` from `mit` on, to `e`, on fuel.
unfoldable pub search : (fuel ptr mit e : ℕ) → Cache → Option ℕ
unfolding Slab.contains_mem
search zero ptr mit e c = none
search (suc fuel) ptr mit e c =
    let later = search fuel ptr (suc mit) e c in
    let again = search fuel ptr 0 c.act c in
    do
      mem ← get_elem? c.ptrs mit
      if Slab.contains_mem ptr mem c.block_size c.count
          then some mit
          else if suc mit == e
          then (if (e == c.act) || (0 == c.act) then none else again)
          else later

-- `spliceBoth(actBlock, actMem, it, mit)`
unfoldable pub splice_both : (it : ℕ) → Cache → Option Cache
unfolding splice
splice_both it c = do
  slabs ← splice c.act it c.slabs
  ptrs ← splice c.act it c.ptrs
  some (record c { slabs = slabs; ptrs = ptrs; act = suc c.act })

unfoldable pub mem_to_dispatch : (it : ℕ) → Cache → Option Cache
unfolding take_out erase
mem_to_dispatch it c =
    let c' = record c { my_capacity = (c.my_capacity + 2 ^ 64 - c.count) % 2 ^ 64 } in
    if ltb c.act it
    then (do
      (s, slabs) ← take_out it c.slabs
      (m, ptrs) ← take_out it c.ptrs
      some (record c' { slabs = slabs; ptrs = ptrs }))
    else if ltb it c.act
    then some (record c' { slabs = erase it c.slabs; ptrs = erase it c.ptrs; act = c.act - 1 })
    else (do
      (s, slabs) ← take_out it c.slabs
      (m, ptrs) ← take_out it c.ptrs
      some (record c' { slabs = slabs; ptrs = ptrs; act = length slabs - 1 }))

-- `deallocate` once the slab is found and has the block back.
unfoldable pub settle : (it : ℕ) (s : Slab) → Cache → Option Cache
unfolding splice_both mem_to_dispatch Slab.empty_and_size
settle it s c =
    let (empty, size) = Slab.empty_and_size s in
    let spare = (c.my_capacity + 2 ^ 64 - c.count) % 2 ^ 64 in
    if leb size c.threshold && ltb c.act it
    then splice_both it c
    else if empty && ltb 1 (length c.slabs) && ltb spare c.my_size
    then mem_to_dispatch it c
    else some c

-- What `deallocate` does with the slab that the search found.
unfoldable pub give_back : (it ptr : ℕ) (this_thread : Bool) → Cache → Option Cache
unfolding settle Slab.deallocate
give_back it ptr this_thread c = do
  s ← get_elem? c.slabs it
  mem ← get_elem? c.ptrs it
  let s' = Slab.deallocate ptr mem this_thread s
  c' ← settle it s' (record c { slabs = set c.slabs it s' })
  some (record c' { my_size = (c'.my_size + 2 ^ 64 - 1) % 2 ^ 64 })

pub give_back-settle :
    (it ptr : ℕ) (this_thread : Bool) (c c' : Cache) (s : Slab) (mem : ℕ)
    → get_elem? c.slabs it ≡ some s
    → get_elem? c.ptrs it ≡ some mem
    → settle it
        (Slab.deallocate ptr mem this_thread s)
        (record c { slabs = set c.slabs it (Slab.deallocate ptr mem this_thread s) })
      ≡ some c'
    → give_back it ptr this_thread c
      ≡ some (record c' { my_size = (c'.my_size + 2 ^ 64 - 1) % 2 ^ 64 })
unfolding give_back
give_back-settle it ptr this_thread c c' s mem at at_mem settled =
    bind_some (get_elem? c.slabs it) _ s at
    ∙ bind_some (get_elem? c.ptrs it) _ mem at_mem
    ∙ bind_some
        (settle it (Slab.deallocate ptr mem this_thread s)
          (record c { slabs = set c.slabs it (Slab.deallocate ptr mem this_thread s) }))
        _ c' settled

-- Whether the memory was found, and the cache.
unfoldable pub deallocate : (ptr : ℕ) (this_thread : Bool) → Cache → Option (Bool × Cache)
unfolding search give_back
deallocate ptr this_thread c = elim (search (suc (2 * length c.ptrs)) ptr c.act (length c.ptrs) c) [
  | none ↦ some (false, c)
  | some it ↦ do c' ← give_back it ptr this_thread c; some (true, c')
]

pub deallocate_missing :
    (ptr : ℕ) (this_thread : Bool) (c : Cache)
    → search (suc (2 * length c.ptrs)) ptr c.act (length c.ptrs) c ≡ none
    → deallocate ptr this_thread c ≡ some (false, c)
unfolding deallocate
deallocate_missing ptr this_thread c missing = rw (deallocate, missing) refl

pub deallocate_found :
    (ptr : ℕ) (this_thread : Bool) (c c' : Cache) (it : ℕ)
    → search (suc (2 * length c.ptrs)) ptr c.act (length c.ptrs) c ≡ some it
    → give_back it ptr this_thread c ≡ some c'
    → deallocate ptr this_thread c ≡ some (true, c')
unfolding deallocate
deallocate_found ptr this_thread c c' it found given = rw (deallocate, found, given) refl
