-- ===== src/Helpers/Tests.antt =====
-- The theorems about Allocators/AllocHelpers.h at concrete inputs, and tests.
use allocators.Common.{some, ℕ, ◌+◌, ◌-◌, ◌/◌, ◌%◌, ◌^◌, ◌*◌, ◌≤◌, ◌<◌, ◌≡◌, refl, arith}
use native.Mathlib.Nat.{mul-mod_left, div-add-mod', mod-lt, pow-suc}
use allocators.Helpers.Aligned.{
  Words, Aligns, aligned_alloc, aligned_free, allocate_page, request, aligned_alloc-aligned_free,
}
use allocators.Helpers.Sizes.{nearest_page_sz, slab_count, slab_count_bounds, find_size_bits}

pages_test : nearest_page_sz 4096 4097 ≡ 8192
unfolding nearest_page_sz
pages_test = refl

count_test : slab_count 4096 24 100 ≡ some 170
unfolding slab_count nearest_page_sz
count_test = refl

bits_test : find_size_bits 65535 0 ≡ 16
unfolding find_size_bits
bits_test = refl

slab_count_bounds_example :
    (k : ℕ) × (slab_count 4096 24 100 ≡ some k)
    × (100 ≤ k)
    × (k * 24 ≤ nearest_page_sz 4096 2400)
    × (nearest_page_sz 4096 2400 < 2400 + 4096)
    × (nearest_page_sz 4096 2400 % 4096 ≡ 0)
slab_count_bounds_example = slab_count_bounds 4096 24 100 (omega arith) (omega arith) (omega arith)

-- The first multiple of the alignment from the pointer on.
abbrev up : (alignment size ptr space : ℕ) → ℕ
up alignment size ptr space = (ptr + alignment - 1) / alignment * alignment

power_pos : (k : ℕ) → 0 < 2 ^ k
power_pos ℕ.zero = omega arith
power_pos (ℕ.suc k) = omega (arith, power_pos k, pow-suc 2 k)

up-Aligns : Aligns up
up-Aligns = record {
  aligned = λ k alignment size ptr space e enough.
      mul-mod_left ((ptr + alignment - 1) / alignment) alignment;
  behind = λ k alignment size ptr space e enough.
      let pos : 0 < alignment = omega (arith, e, power_pos k) in
      omega (arith, div-add-mod' (ptr + alignment - 1) alignment, mod-lt (ptr + alignment - 1) pos);
  near = λ k alignment size ptr space e enough.
      let pos : 0 < alignment = omega (arith, e, power_pos k) in
      omega (arith, div-add-mod' (ptr + alignment - 1) alignment, mod-lt (ptr + alignment - 1) pos);
}

aligned_alloc-aligned_free_example :
    (ptr : ℕ) × (words' : Words) × (aligned_alloc up 1001 100 64 (λ p. 0) ≡ (ptr, words'))
    × (ptr % 64 ≡ 0)
    × (1009 ≤ ptr)
    × (ptr + 100 ≤ 1001 + request 100 64)
    × (aligned_free ptr words' ≡ 1001)
aligned_alloc-aligned_free_example =
    aligned_alloc-aligned_free up up-Aligns 6 1001 100 64 (λ p. 0) refl (omega arith)

aligned_test : (aligned_alloc up 1001 100 64 (λ p. 0)).0 ≡ 1024
unfolding aligned_alloc
aligned_test = refl

page_test : (allocate_page up 4096 1001 5000 (λ p. 0)).0 ≡ 4096
unfolding allocate_page
page_test = refl
