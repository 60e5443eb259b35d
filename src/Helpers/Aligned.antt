-- ===== src/Helpers/Aligned.antt =====
-- Allocators/AllocHelpers.h, `alignedAlloc`, `alignedFree` and `allocatePage`. `align` is `std::align` on
-- the alignment, the size, the pointer and the space: the pointer afterwards. A pointer has 8 bytes;
-- `words` are the pointers that the memory holds, by address.
use allocators.Common.{
  ℕ, ◌+◌, ◌-◌, ◌%◌, ◌≤◌, ◌<◌, ◌^◌, ◌≡◌, refl, ◌==◌, ltb, if◌then◌else◌, arith, u64,
}
use allocators.Helpers.Sizes.{nearest_page_sz}

abbrev pub Words : Type 0
Words = ℕ → ℕ

-- `sizeof(void*)` and `alignof(void*)`
abbrev pub pointer_size : ℕ
pointer_size = 8

abbrev pub at_least : (alignment : ℕ) → ℕ
at_least alignment = if ltb alignment pointer_size then pointer_size else alignment

-- The space that `alignedAlloc` asks for behind the pointer that it keeps.
unfoldable pub space_for : (size alignment : ℕ) → ℕ
space_for size alignment = (size + at_least alignment + 2 ^ 64 - 1) % 2 ^ 64

-- What `operator new` gets.
unfoldable pub request : (size alignment : ℕ) → ℕ
unfolding space_for
request size alignment = u64 (space_for size alignment + pointer_size)

-- The pointer that is returned, where `mem` is what `operator new` returns.
unfoldable pub aligned_alloc :
    (align : (alignment size ptr space : ℕ) → ℕ) (mem size alignment : ℕ) → Words → ℕ × Words
unfolding space_for
aligned_alloc align mem size alignment words =
    let alig_mem =
      align (at_least alignment) size (mem + pointer_size) (space_for size alignment) in
    (alig_mem, λ p. if p == alig_mem - pointer_size then mem else words p)

-- The address that `operator delete` gets.
unfoldable pub aligned_free : (ptr : ℕ) → Words → ℕ
aligned_free ptr words = words (ptr - pointer_size)

unfoldable pub allocate_page :
    (align : (alignment size ptr space : ℕ) → ℕ) (page_size mem bytes : ℕ) → Words → ℕ × Words
unfolding aligned_alloc nearest_page_sz
allocate_page align page_size mem bytes words =
    aligned_alloc align mem (nearest_page_sz page_size bytes) page_size words

-- What `std::align` promises for a power of two: where the space holds the size behind any
-- adjustment, the pointer moves to the first address that is aligned.
pub record Aligns (align : (alignment size ptr space : ℕ) → ℕ) : Type 0 where
  pub aligned :
      (k alignment size ptr space : ℕ)
      → alignment ≡ 2 ^ k
      → size + alignment ≤ space + 1
      → align alignment size ptr space % alignment ≡ 0
  pub behind :
      (k alignment size ptr space : ℕ)
      → alignment ≡ 2 ^ k
      → size + alignment ≤ space + 1
      → ptr ≤ align alignment size ptr space
  pub near :
      (k alignment size ptr space : ℕ)
      → alignment ≡ 2 ^ k
      → size + alignment ≤ space + 1
      → align alignment size ptr space < ptr + alignment

module _ (align : (alignment size ptr space : ℕ) → ℕ) (promise : Aligns align)
    (k mem size alignment : ℕ) (words : Words) (power : at_least alignment ≡ 2 ^ k)
    (small : size + at_least alignment + pointer_size < 2 ^ 64) where
  at_least_pos : 0 < at_least alignment
  at_least_pos = ground arith

  space-eq : space_for size alignment + 1 ≡ size + at_least alignment
  unfolding space_for
  space-eq = omega (arith, at_least_pos)

  -- `alignedAlloc` returns an address that is aligned as asked for, or as a pointer is where that is
  -- more. The object and the pointer before it lie within the memory from `operator new`, and
  -- `alignedFree` gives that memory back. The alignment is a power of two, and what is asked for
  -- does not overflow.
  pub aligned_alloc-aligned_free :
      (ptr : ℕ) × (words' : Words) × (aligned_alloc align mem size alignment words ≡ (ptr, words'))
      × (ptr % at_least alignment ≡ 0)
      × (mem + pointer_size ≤ ptr)
      × (ptr + size ≤ mem + request size alignment)
      × (aligned_free ptr words' ≡ mem)
  unfolding aligned_alloc aligned_free request
  aligned_alloc-aligned_free =
      let space = space_for size alignment in
      let enough : size + at_least alignment ≤ space + 1 = omega (arith, space-eq) in
      let ptr = align (at_least alignment) size (mem + pointer_size) space in
      let near = promise.near k (at_least alignment) size (mem + pointer_size) space power enough in
      (
        ptr,
        (λ p. if p == ptr - pointer_size then mem else words p),
        refl,
        promise.aligned k (at_least alignment) size (mem + pointer_size) space power enough,
        promise.behind k (at_least alignment) size (mem + pointer_size) space power enough,
        omega (arith, near, space-eq),
        ground arith,
      )
