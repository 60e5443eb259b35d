-- ===== src/SlabMem/Buckets.antt =====
-- Which cache of `SlabMemImpl::Interface` serves a size, and what each operation does to the others.
use allocators.Common.{
  Bool, ◌==◌, ◌||◌, set, true, false, if◌then◌else◌, ℕ, suc, ◌≤◌, ◌<◌, ◌≡◌, ◌⊎◌, refl, inl, inr,
  List, [], ◌∷◌, ◌++◌, none, some, leb, Bool-cases, leb→le, leb-false, arith, get_elem?, map, take,
  All,
}
use allocators.SlabHelper.Cache
use allocators.SlabHelper.Cache.{Cache}
use allocators.SlabMem.Slab.{Slab}
use allocators.SlabMem.Interface.{free_buckets, find_bucket}

-- The block sizes of the caches, which decide where a request goes.
abbrev pub sizes : List (Cache Slab) → List ℕ
sizes = map λ c. c.block_size

-- The search fails exactly when all caches have too small blocks, and otherwise it finds the first
-- one, in the order in which they were added, whose blocks are large enough.
pub find_bucket_cases :
    (bytes : ℕ) (cs : List (Cache Slab))
    → ((find_bucket bytes cs ≡ none) × All (λ c. c.block_size < bytes) cs)
      ⊎ ((i : ℕ) × (c : Cache Slab) × (find_bucket bytes cs ≡ some i)
          × (get_elem? cs i ≡ some c)
          × (bytes ≤ c.block_size)
          × All (λ c. c.block_size < bytes) (take i cs))
unfolding find_bucket
find_bucket_cases bytes [] = inl (refl, tt)
find_bucket_cases bytes (c ∷ cs) = elim (Bool-cases (leb bytes c.block_size)) [
  | inl fits ↦ inr (0, c, rw fits, refl, leb→le bytes c.block_size fits, tt)
  | inr small ↦ elim (find_bucket_cases bytes cs) [
    | inl (e, all) ↦ inl (rw (small, e), (leb-false bytes c.block_size small, all))
    | inr (i, d, e, at, le, all) ↦
        inr (suc i, d, rw (small, e), at, le, (leb-false bytes c.block_size small, all))
  ]
]

-- A cache that is added later does not take requests over from those before it.
pub find_bucket-append :
    (bytes i : ℕ) (cs ds : List (Cache Slab))
    → find_bucket bytes cs ≡ some i
    → find_bucket bytes (cs ++ ds) ≡ some i
unfolding find_bucket
find_bucket-append bytes i [] ds h = absurd (cc)
find_bucket-append bytes i (c ∷ cs) ds h = elim (find_bucket_cases bytes cs) [
  | inl (e, _) ↦ ground arith
  | inr (j, d, e, _, _, _) ↦ ground (arith, find_bucket-append bytes j cs ds e)
]

-- The search reads nothing of the caches but their block sizes.
find_bucket-sizes :
    (bytes : ℕ) (cs ds : List (Cache Slab))
    → sizes cs ≡ sizes ds
    → find_bucket bytes cs ≡ find_bucket bytes ds
unfolding find_bucket
find_bucket-sizes bytes [] [] h = refl
find_bucket-sizes bytes [] (d ∷ ds) h = absurd (cc)
find_bucket-sizes bytes (c ∷ cs) [] h = absurd (cc)
find_bucket-sizes bytes (c ∷ cs) (d ∷ ds) h = ground (arith, find_bucket-sizes bytes cs ds)

-- Whether `freeFunc` takes a cache for the one that is asked for.
abbrev pub matches : (cache_size : ℕ) → Cache Slab → Bool
matches cache_size c = (cache_size == 0) || (c.block_size == cache_size)

-- `freeAll` and `freeEmpty` change the first cache of the size asked for and no other, or none if
-- there is none. Size 0, the default of Allocators/Slab.h, is taken for that of every cache, so that
-- it stands for the first one.
pub free_buckets_cases :
    (all : Bool) (cache_size : ℕ) (cs : List (Cache Slab))
    → ((free_buckets all cache_size cs ≡ cs) × All (λ c. matches cache_size c ≡ false) cs)
      ⊎ ((i : ℕ) × (c : Cache Slab) × (get_elem? cs i ≡ some c)
          × (matches cache_size c ≡ true)
          × All (λ c. matches cache_size c ≡ false) (take i cs)
          × (free_buckets all cache_size cs
              ≡ set cs i (if all then Cache.free_all c else Cache.free_empty c)))
unfolding free_buckets
free_buckets_cases all cache_size [] = inl (refl, tt)
free_buckets_cases all cache_size (c ∷ cs) = elim (Bool-cases (matches cache_size c)) [
  | inl hit ↦ inr (0, c, refl, hit, tt, rw hit refl)
  | inr miss ↦ elim (free_buckets_cases all cache_size cs) [
    | inl (e, none_match) ↦ inl (rw (miss, e) refl, (miss, none_match))
    | inr (i, d, at, hit, before, e) ↦ inr (suc i, d, at, hit, (miss, before), rw (miss, e) refl)
  ]
]
