-- ===== src/SlabObj/Slab.antt =====
-- Allocators/SlabObj.h, `SlabObjImpl::Slab<T>`. `size` is `sizeof(T)`. The constructors and destructors
-- are the user's: a slab records the calls that it makes, in order.
use allocators.Common.{
  ℕ, zero, suc, ◌+◌, ◌-◌, ◌*◌, ◌/◌, Bool, ◌&&◌, List, [], ◌∷◌, ◌++◌, Option, none, some, ◌==◌, ltb,
  leb, length,
}
use allocators.SlabHelper.VecMap.{index_size}
use allocators.SlabHelper.SlabOps.{SlabOps}
use allocators.SlabMem.Slab.{is_nil}

pub data XtorCall : Type 0 where
  construct destruct : (ptr : ℕ) → XtorCall

pub record Slab : Type 0 where
  pub mem : ℕ
  pub count : ℕ
  pub availible : List ℕ
  pub calls : List XtorCall

module _ (size : ℕ) where
  -- The loop of the constructor, over the objects from number `i` on.
  unfoldable pub construct_all : (mem i n : ℕ) → List XtorCall
  construct_all mem i zero = []
  construct_all mem i (suc n) = XtorCall.construct (mem + size * i) ∷ construct_all mem (suc i) n

  -- The block size that the cache passes is not read.
  unfoldable pub construct_slab : (block_size count mem : ℕ) → List ℕ → Slab
  unfolding construct_all
  construct_slab block_size count mem indices = record {
    mem = mem;
    count = count;
    availible = indices;
    calls = construct_all mem 0 count;
  }

  unfoldable pub is_empty : Slab → Bool
  is_empty s = length s.availible == s.count

  unfoldable pub allocate : Slab → Option ((ℕ × Bool) × Slab)
  allocate s = elim s.availible [
    | [] ↦ none
    | idx ∷ rest ↦ some ((s.mem + idx * size, is_nil rest), record s { availible = rest })
  ]

  unfoldable pub contains_mem : (ptr : ℕ) → Slab → Bool
  contains_mem ptr s = leb s.mem ptr && ltb ptr (s.mem + size * s.count)

  unfoldable pub deallocate : (ptr : ℕ) → Slab → Slab
  unfolding index_size
  deallocate ptr s = record s {
    availible = index_size ((ptr - s.mem) / size) ∷ s.availible;
    calls = s.calls ++ XtorCall.destruct ptr ∷ [];
  }

  abbrev pub ops : SlabOps Slab
  ops = record {
    construct = construct_slab;
    allocate = allocate;
    deallocate = deallocate;
    contains_mem = contains_mem;
    is_empty = is_empty;
  }

unfoldable pub full : Slab → Bool
full s = is_nil s.availible
