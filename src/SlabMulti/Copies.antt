-- ===== src/SlabMulti/Copies.antt =====
-- Allocators/ImplSlabMulti.h, the copies and moves of `Slab` and `Cache`. A vector is a buffer and what is in
-- it; an iterator names a buffer and an index. A vector that is moved from is empty, in the buffer 0,
-- and its iterators are those of the vector that took its buffer. A list or a copied vector has a
-- buffer of its own.
use allocators.Common.{ℕ, ◌≡◌, refl, List, [], Option, none, some, ◌>>=◌, ◌==◌, if◌then◌else◌}
use allocators.SlabMulti.Slab.{Slab}
use allocators.SlabMulti.Cache.{Cache}

-- `Slab(const Slab&)`
unfoldable pub copy_slab : (other : Slab) → Slab
copy_slab other = record {
  block_size = other.block_size;
  count = other.count;
  availible = other.availible;
  foreigns = other.foreigns;
}

-- `Slab(Slab&&)`: the new slab, and the other one afterwards.
unfoldable pub move_slab : (other : Slab) → Slab × Slab
move_slab other = (
  record {
    block_size = other.block_size;
    count = other.count;
    availible = other.availible;
    foreigns = other.foreigns;
  },
  record other { availible = []; foreigns = [] },
)

-- `operator=(Slab&&)`
unfoldable pub assign_slab : (target other : Slab) → Slab × Slab
assign_slab target other = (
  record target {
    block_size = other.block_size;
    count = other.count;
    availible = other.availible;
    foreigns = other.foreigns;
  },
  record other { availible = []; foreigns = [] },
)

pub record Vector (A : Type 0) : Type 0 where
  pub buffer : ℕ
  pub elems : List A

pub record Iterator : Type 0 where
  pub buffer : ℕ
  pub index : ℕ

-- A cache with its iterators; `none` is one that no constructor has set.
pub record Object : Type 0 where
  pub my_size : ℕ
  pub my_capacity : ℕ
  pub count : ℕ
  pub block_size : ℕ
  pub threshold : ℕ
  pub slabs : Vector Slab
  pub ptrs : Vector ℕ
  pub act_block : Option Iterator
  pub act_mem : Option Iterator

-- `Cache(Cache&&)`: the new cache, and the other one afterwards.
unfoldable pub move_cache : (other : Object) → Object × Object
move_cache other = (
  record other { act_mem = none },
  record other {
    slabs = record { buffer = 0; elems = [] };
    ptrs = record { buffer = 0; elems = [] };
  },
)

-- `Cache(const Cache&)`, where the copies of the vectors have the buffers `b` and `b'`.
unfoldable pub copy_cache : (b b' : ℕ) (other : Object) → Object
unfolding copy_slab
copy_cache b b' other = record other {
  slabs = record { buffer = b; elems = other.slabs.elems };
  ptrs = record { buffer = b'; elems = other.ptrs.elems };
  act_mem = none;
}

module _ {A : Type 0} where
  -- The index of an iterator of the vector.
  index_in : Vector A → Iterator → Option ℕ
  index_in v i = if i.buffer == v.buffer then some i.index else none

-- The cache that an object stands for, if its iterators are set, are those of its own vectors and
-- name the same index.
unfoldable pub view : Object → Option Cache
unfolding index_in
view o = do
  i ← o.act_block
  j ← o.act_mem
  a ← index_in o.slabs i
  b ← index_in o.ptrs j
  if a == b
      then some (record {
        my_size = o.my_size;
        my_capacity = o.my_capacity;
        count = o.count;
        block_size = o.block_size;
        threshold = o.threshold;
        slabs = o.slabs.elems;
        ptrs = o.ptrs.elems;
        act = a;
      })
      else none

no_mem :
    (i : Option Iterator) (o : Object) → view (record o { act_block = i; act_mem = none }) ≡ none
unfolding view
no_mem none o = refl
no_mem (some i) o = refl

-- Neither a copy nor a move of a cache has an iterator `actMem`: it stands for no cache, and its next
-- call reads what was never written.
pub view-move_cache : (o : Object) → view (move_cache o).0 ≡ none
unfolding move_cache
view-move_cache o = no_mem o.act_block o

pub view-copy_cache : (b b' : ℕ) (o : Object) → view (copy_cache b b' o) ≡ none
unfolding copy_cache
view-copy_cache b b' o = no_mem o.act_block (copy_cache b b' o)
