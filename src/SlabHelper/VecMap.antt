-- ===== src/SlabHelper/VecMap.antt =====
-- Allocators/SlabHelper.h, `vecMap` and `addToMap`. The head of a list of indices is the back of the
-- vector, where `pop_back` and `emplace_back` work.
use allocators.Common.{
  ℕ, zero, suc, ◌+◌, ◌%◌, ◌^◌, ◌≤◌, ◌≡◌, refl, List, [], ◌∷◌, Option, none, some, ◌==◌,
  if◌then◌else◌, arith, length,
}
use allocators.Helpers.Sizes.{find_size_bits}

-- `MAX_SLAB_BLOCKS`
abbrev pub max_slab_blocks : ℕ
max_slab_blocks = 65535

-- A value as an `IndexSizeT`.
unfoldable pub index_size : ℕ → ℕ
unfolding find_size_bits
index_size n = n % 2 ^ find_size_bits max_slab_blocks 0

abbrev pub VecMap : Type 0
VecMap = List (ℕ × List ℕ)

abbrev pub find : ℕ → VecMap → Option (List ℕ)
find count [] = none
find count ((k, v) ∷ m) = if k == count then some v else find count m

-- `std::iota(rbegin, rend, 0)` over `n` elements, from the value `i` on.
unfoldable pub iota : (i n : ℕ) → List ℕ
unfolding index_size
iota i zero = []
iota i (suc n) = index_size i ∷ iota (suc i) n

unfoldable pub add_to_map : ℕ → VecMap → VecMap
unfolding iota
add_to_map count m = elim (find count m) [ none ↦ (count, iota 0 count) ∷ m | some v ↦ m ]

-- `vecMap[count]`: a key that is missing is put in with an empty vector.
unfoldable pub index : ℕ → VecMap → List ℕ × VecMap
index count m = elim (find count m) [ none ↦ ([], (count, []) ∷ m) | some v ↦ (v, m) ]

-- The table has the indices of a slab of `count` blocks.
abbrev pub Has : ℕ → VecMap → Type 0
Has count m = find count m ≡ some (iota 0 count)

pub index-Has : (count : ℕ) (m : VecMap) → Has count m → index count m ≡ (iota 0 count, m)
unfolding index
index-Has count m h = rw (h, index)

pub length-iota : (i n : ℕ) → length (iota i n) ≡ n
unfolding iota
length-iota i zero = refl
length-iota i (suc n) = omega (arith, length-iota (suc i) n)

abbrev pub range : (i n : ℕ) → List ℕ
range i zero = []
range i (suc n) = i ∷ range (suc i) n

-- The indices count up from 0, so that the lowest block of a new slab goes out first, if an
-- `IndexSizeT` holds them all.
pub iota-range : (i n : ℕ) → i + n ≤ 2 ^ 16 → iota i n ≡ range i n
unfolding iota index_size
iota-range i zero h = refl
iota-range i (suc n) h =
    let same : i % 2 ^ 16 ≡ i = omega arith in rw (same, iota-range (suc i) n (omega arith))

-- The first `addToMap` of a count fills the table, and it stays filled.
pub add_to_map-Has : (count : ℕ) (m : VecMap) → find count m ≡ none → Has count (add_to_map count m)
unfolding add_to_map
add_to_map-Has count m h = rw (h, add_to_map) (ground arith)
