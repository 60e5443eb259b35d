-- ===== src/SlabMulti/Slab.antt =====
-- Allocators/ImplSlabMulti.h, `ImplSlabMulti::Slab`: the free indices that its own thread uses, the back
-- of the vector first, and those that other threads have returned, in order. Its memory is kept by the
-- cache.
use allocators.Common.{
  ◌^◌, ◌%◌, ℕ, ◌+◌, ◌-◌, ◌*◌, ◌/◌, ◌≡◌, Bool, ◌&&◌, List, [], ◌∷◌, ◌++◌, Option, none, some, ltb,
  leb, ◌==◌, if◌then◌else◌, length, arith,
}
use allocators.SlabHelper.VecMap.{index_size}
use allocators.SlabMem.Slab.{is_nil}

pub record Slab : Type 0 where
  pub block_size : ℕ
  pub count : ℕ
  pub availible : List ℕ
  pub foreigns : List ℕ

unfoldable pub empty : Slab → Bool
empty s = length s.availible + length s.foreigns == s.count

unfoldable pub size : Slab → ℕ
size s = (s.count + 2 ^ 64 - (length s.availible + length s.foreigns)) % 2 ^ 64

unfoldable pub empty_and_size : Slab → Bool × ℕ
empty_and_size s = (
  length s.availible + length s.foreigns == s.count,
  (s.count + 2 ^ 64 - (length s.availible + length s.foreigns)) % 2 ^ 64,
)

unfoldable pub full : Slab → Bool
full s = is_nil s.availible && is_nil s.foreigns

unfoldable pub allocate : (mem : ℕ) → Slab → Option ((ℕ × Bool) × Slab)
allocate mem s = elim s.availible [
  | [] ↦ none
  | idx ∷ rest ↦ some ((mem + idx * s.block_size, is_nil rest), record s { availible = rest })
]

unfoldable pub deallocate : (ptr mem : ℕ) (this_thread : Bool) → Slab → Slab
unfolding index_size
deallocate ptr mem this_thread s =
    let idx = index_size ((ptr - mem) / s.block_size) in
    if this_thread
    then record s { availible = idx ∷ s.availible }
    else record s { foreigns = s.foreigns ++ idx ∷ [] }

unfoldable pub push_all : List ℕ → List ℕ → List ℕ
push_all [] availible = availible
push_all (idx ∷ r) availible = push_all r (idx ∷ availible)

unfoldable pub merge_foreigns : Slab → Slab
unfolding push_all
merge_foreigns s = record s { availible = push_all s.foreigns s.availible; foreigns = [] }

unfoldable pub contains_mem : (ptr mem block_size count : ℕ) → Bool
contains_mem ptr mem block_size count = leb mem ptr && ltb ptr (mem + block_size * count)

pub push_all-length : (l k : List ℕ) → length (push_all l k) ≡ length l + length k
unfolding push_all
push_all-length [] k = omega arith
push_all-length (x ∷ l) k = omega (arith, push_all-length l (x ∷ k))
