-- ===== src/FreeList/Policy.antt =====
-- Allocators/FreeList.h, `PolicyT`: the free chunks in address order, each an address and a size. The
-- three storage policies differ in the container alone. `m` is one more than the largest value of
-- `size_type`, `h` is `Interface::headerSize`.
use allocators.Common.{
  ℕ, zero, suc, ◌+◌, ◌%◌, Bool, List, [], ◌∷◌, Option, none, some, ltb, leb, ◌==◌, if◌then◌else◌,
}

abbrev pub Chunk : Type 0
Chunk = ℕ × ℕ

abbrev pub Store : Type 0
Store = List Chunk

-- `lower_bound`: the chunks before the iterator that it returns, and those from it on.
unfoldable pub before : ℕ → Store → Store
before ptr [] = []
before ptr ((p, s) ∷ r) = if ltb p ptr then (p, s) ∷ before ptr r else []

unfoldable pub from : ℕ → Store → Store
from ptr [] = []
from ptr ((p, s) ∷ r) = if ltb p ptr then from ptr r else (p, s) ∷ r

-- The chunk goes in where `lower_bound` points, unless one stands there at the same address.
unfoldable pub insert_at : (start size : ℕ) → Store → Store
insert_at start size [] = (start, size) ∷ []
insert_at start size ((p, s) ∷ r) = if ltb start p then (start, size) ∷ (p, s) ∷ r else (p, s) ∷ r

module _ (m : ℕ) where
  -- Coalescence of a chunk with the one behind it.
  unfoldable pub merge : Chunk → Store → Store
  merge c [] = c ∷ []
  merge (p, s) ((q, t) ∷ r) = if (p + s) == q then (p, (s + t) % m) ∷ r else (p, s) ∷ (q, t) ∷ r

  unfoldable pub merge_next : Store → Store
  unfolding merge
  merge_next [] = []
  merge_next (c ∷ r) = merge c r

  -- Coalescence of the last chunk before the iterator with the chunk at it. C++ leaves open which
  -- operand of `(--prev)->first + prev->second` comes first; here it is the left one.
  unfoldable pub merge_prev : Store → Store → Store
  unfolding merge
  merge_prev [] after = after
  merge_prev (c ∷ []) after = merge c after
  merge_prev (c ∷ d ∷ b) after = c ∷ merge_prev (d ∷ b) after

  -- `add` behind its test for an empty list, with the size that it stores.
  unfoldable pub place : (start size : ℕ) → Store → Store
  unfolding merge_next merge_prev insert_at before from
  place start size l =
      merge_prev (before start l) (merge_next (insert_at start size (from start l)))

  unfoldable pub add : (h start size : ℕ) → Store → Store
  unfolding place
  add h start size [] = (start, size) ∷ []
  add h start size (c ∷ l) = place start ((size + h) % m) (c ∷ l)

-- The iterator of the first chunk that is large enough, as an index.
unfoldable pub first_fit : (req_bytes : ℕ) → Store → Option ℕ
first_fit req_bytes [] = none
first_fit req_bytes ((p, s) ∷ r) =
    if leb req_bytes s
    then some 0
    else elim (first_fit req_bytes r) [ none ↦ none | some i ↦ some (suc i) ]

unfoldable pub erase : ℕ → Store → Store
erase i [] = []
erase zero (c ∷ l) = l
erase (suc i) (c ∷ l) = c ∷ erase i l

unfoldable pub free_all : (my_begin bytes : ℕ) → Store
free_all my_begin bytes = (my_begin, bytes) ∷ []

-- Whether a byte lies in a range, and in a free chunk.
abbrev pub in_range : ℕ → Chunk → Bool
in_range x (p, s) = if leb p x then ltb x (p + s) else Bool.false

abbrev pub covered : ℕ → Store → Bool
covered x [] = Bool.false
covered x (c ∷ l) = if in_range x c then Bool.true else covered x l
