-- ===== src/SlabMem/Runs.antt =====
-- The theorems about `SlabMemImpl::Interface` at concrete inputs, and tests: two caches, of blocks of
-- 8 and of 64 bytes, on pages of 128 bytes.
use allocators.Common.{ℕ, All, ◌≤◌, ◌<◌, ◌≡◌, refl, inl, [], ◌∷◌, Option, none, some, arith}
use allocators.Helpers.Sizes.{slab_count, nearest_page_sz}
use allocators.SlabMem.Interface.{Interface, add_cache, add_cache2, find_bucket, allocate}
use allocators.SlabMem.Buckets.{sizes}
use allocators.SlabMem.Doubling.{add_cache2-sizes, doublings, doubled}
use allocators.SlabMem.WellFormed.{WellFormed, allocate-WellFormed, add_cache-WellFormed}

abbrev none_yet : Interface
none_yet = record { vec_map = []; buckets = [] }

none_yet-WellFormed : WellFormed none_yet
none_yet-WellFormed = record { table = λ k. inl refl; ready = tt }

abbrev or_none_yet : Option Interface → Interface
or_none_yet none = none_yet
or_none_yet (some w) = w

abbrev one_cache : Interface
one_cache = or_none_yet (add_cache 128 4096 8 10 none_yet)

count_of : slab_count 128 8 10 ≡ some 16
unfolding slab_count nearest_page_sz
count_of = refl

add_cache-WellFormed_example :
    (w' : Interface) × (add_cache 128 4096 8 10 none_yet ≡ some w')
    × WellFormed w'
    × (sizes w'.buckets ≡ 8 ∷ [])
add_cache-WellFormed_example =
    add_cache-WellFormed 128 4096 8 10 none_yet none_yet-WellFormed (omega arith) 16 count_of
      (omega arith) (omega arith)

one_cache-WellFormed : WellFormed one_cache
one_cache-WellFormed =
    let (w', e, wf, _) =
      add_cache-WellFormed 128 4096 8 10 none_yet none_yet-WellFormed (omega arith) 16 count_of
        (omega arith) (omega arith) in
    rw e wf

abbrev two_caches : Interface
two_caches = or_none_yet (add_cache 128 8192 64 4 one_cache)

-- 40 bytes do not fit into a block of the first cache.
second_test : find_bucket 40 two_caches.buckets ≡ some 1
unfolding find_bucket add_cache slab_count nearest_page_sz
second_test = refl

allocate-WellFormed_example :
    (p : ℕ) × (w' : Interface) × (allocate 8192 4 2 one_cache ≡ some (p, w'))
    × WellFormed w'
    × (w'.vec_map ≡ one_cache.vec_map)
    × (sizes w'.buckets ≡ sizes one_cache.buckets)
unfolding add_cache slab_count nearest_page_sz
allocate-WellFormed_example =
    allocate-WellFormed 8192 4 2 one_cache one_cache-WellFormed (omega arith, tt)

add_cache2-sizes_example :
    (w' : Interface) × (add_cache2 64 128 (λ i. 4096) 8 32 10 none_yet ≡ some w')
    × (n : ℕ) × (sizes w'.buckets ≡ doublings n 8)
    × All (λ s. s ≤ 32) (doublings n 8)
    × (32 < doubled n 8)
add_cache2-sizes_example =
    add_cache2-sizes 128 (λ i. 4096) 8 32 10 none_yet (omega arith) (omega arith)
