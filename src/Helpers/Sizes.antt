-- ===== src/Helpers/Sizes.antt =====
-- Allocators/AllocHelpers.h: `nearestPageSz`, the width that `FindSizeT` chooses, and `CacheInfo`.
-- The page size is what the operating system reports, a parameter.
use native.Mathlib.Nat.{mul-mod_left, div-add-mod', mod-lt, le-div_iff_mul-le, div-mul-le_self}
use allocators.Common.{
  ℕ, ◌+◌, ◌*◌, ◌/◌, ◌%◌, ◌^◌, ◌≤◌, ◌<◌, ◌≡◌, ◌⊎◌, inl, inr, refl, arith, ltb, leb, if◌then◌else◌,
  Option, none, some, ◌==◌, ◌∙◌, false, Bool-cases, ltb-false, leb-false, tests, u64,
}

pub record CacheInfo : Type 0 where
  pub size : ℕ
  pub capacity : ℕ
  pub object_size : ℕ
  pub obj_per_slab : ℕ

-- `cnt` is the rounded-up number of pages.
unfoldable pub nearest_page_sz : (page_size bytes : ℕ) → ℕ
nearest_page_sz page_size bytes =
    let cnt = bytes / page_size in
    u64 ((if ltb (u64 (cnt * page_size)) bytes then cnt + 1 else cnt) * page_size)

module _ (p bytes : ℕ) (pos : 0 < p) (small : bytes + p < 2 ^ 64) where
  pages : ℕ
  pages = if ltb (bytes / p * p) bytes then bytes / p + 1 else bytes / p

  pages_bounds : (bytes ≤ pages * p) × (pages * p < bytes + p)
  unfolding pages
  pages_bounds = elim (Bool-cases (ltb (bytes / p * p) bytes)) [
    | inl more ↦ rw more (omega (tests, div-add-mod' bytes p, mod-lt bytes pos))
    | inr exact ↦
        rw exact (omega (arith, ltb-false (bytes / p * p) bytes exact, div-add-mod' bytes p))
  ]

  nearest_page_sz-eq : nearest_page_sz p bytes ≡ pages * p
  unfolding nearest_page_sz pages
  nearest_page_sz-eq =
      let fits : u64 (bytes / p * p) ≡ bytes / p * p = omega (arith, div-add-mod' bytes p) in
      rw fits (omega (arith, pages_bounds))

  -- The result is the least multiple of the page size that is not below the request, for a positive
  -- page size and a request that can be rounded up within 64 bits.
  pub nearest_page_sz_least :
      (bytes ≤ nearest_page_sz p bytes)
      × (nearest_page_sz p bytes < bytes + p)
      × (nearest_page_sz p bytes % p ≡ 0)
  nearest_page_sz_least =
      rw nearest_page_sz-eq (pages_bounds.0, pages_bounds.1, mul-mod_left pages p)

-- The number of blocks that `addCache` gives each slab: as many as fit into whole pages. A division by
-- 0 is undefined.
unfoldable pub slab_count : (page_size block_size count : ℕ) → Option ℕ
slab_count page_size block_size count =
    if block_size == 0
    then none
    else some (nearest_page_sz page_size (u64 (count * block_size)) / block_size)

pub slab_count-some :
    (page_size block_size count : ℕ)
    → 0 < block_size
    → slab_count page_size block_size count
      ≡ some (nearest_page_sz page_size (u64 (count * block_size)) / block_size)
unfolding slab_count
slab_count-some page_size block_size count pos =
    let nonzero : (block_size == 0) ≡ false = ground arith in rw nonzero refl

-- A slab never gets fewer blocks than the caller asked for, and its blocks fit into whole pages that
-- hold less than one page more than the request, if page and block are not empty and the request can
-- be rounded up within 64 bits.
pub slab_count_bounds :
    (p block_size count : ℕ)
    → 0 < p
    → 0 < block_size
    → count * block_size + p < 2 ^ 64
    → (k : ℕ) × (slab_count p block_size count ≡ some k)
      × (count ≤ k)
      × (k * block_size ≤ nearest_page_sz p (count * block_size))
      × (nearest_page_sz p (count * block_size) < count * block_size + p)
      × (nearest_page_sz p (count * block_size) % p ≡ 0)
slab_count_bounds p block_size count pos pos' small =
    let near = nearest_page_sz_least p (count * block_size) pos small in
    let fits : u64 (count * block_size) ≡ count * block_size = omega arith in
    (
      nearest_page_sz p (count * block_size) / block_size,
      slab_count-some p block_size count pos' ∙ rw fits refl,
      (le-div_iff_mul-le pos').1 near.0,
      div-mul-le_self (nearest_page_sz p (count * block_size)) block_size,
      near.1,
      near.2,
    )

-- `FindSizeT`: the width in bits of the type that holds `bytes`, with `taken` bits put to other use.
-- `>>` binds tighter than `<=`.
unfoldable pub find_size_bits : (bytes taken : ℕ) → ℕ
find_size_bits bytes taken =
    if leb bytes (0xff / 2 ^ taken)
    then 8
    else if leb bytes (0xffff / 2 ^ taken)
    then 16
    else if leb bytes (0xffff_ffff / 2 ^ taken)
    then 32
    else 64

-- The chosen type holds the number, for every number that some type holds, and each narrower type
-- does not hold it.
pub find_size_bits_least :
    (bytes : ℕ)
    → bytes < 2 ^ 64
    → (bytes < 2 ^ find_size_bits bytes 0)
      × ((find_size_bits bytes 0 ≡ 8) ⊎ (2 ^ (find_size_bits bytes 0 / 2) ≤ bytes))
unfolding find_size_bits
find_size_bits_least bytes small = elim (Bool-cases (leb bytes 0xff)) [
  | inl b8 ↦ rw b8 (omega tests, inl refl)
  | inr n8 ↦ rw n8 (elim (Bool-cases (leb bytes 0xffff)) [
    | inl b16 ↦ rw b16 (omega tests, inr (omega (arith, leb-false bytes 0xff n8)))
    | inr n16 ↦ rw n16 (elim (Bool-cases (leb bytes 0xffff_ffff)) [
      | inl b32 ↦ rw b32 (omega tests, inr (omega (arith, leb-false bytes 0xffff n16)))
      | inr n32 ↦ rw n32 (omega arith, inr (omega (arith, leb-false bytes 0xffff_ffff n32)))
    ])
  ])
]
