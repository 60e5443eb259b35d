-- ===== src/SlabMulti/Held.antt =====
-- Threads over one `ImplSlabMulti::Cache`, step by step: which blocks the program has and which are free.
use mathlib.Core.List.{Perm, append_assoc, perm_append_comm}
use mathlib.Core.List.Perm
use allocators.Common.{
  ℕ, ◌+◌, ◌-◌, ◌*◌, ◌/◌, ◌≡◌, refl, Bool, true, List, [], ◌∷◌, ◌++◌, some, get_elem?,
}
use allocators.SlabHelper.VecMap.{index_size}
use allocators.SlabMulti.Slab.{Slab}
use allocators.SlabMulti.Cache.{Cache}
use allocators.SlabMulti.Supply.{blocks, supply}
use allocators.SlabMulti.Gives.{Supplies}
use allocators.SlabMulti.Threads.{Pc, Shared, Move, is_leaving}

-- The block that `allocate` is about to return.
abbrev pub pending : Pc → List ℕ
pending (Pc.taken p full) = p ∷ []
pending _ = []

-- The blocks that a thread or the program has, and the free ones.
abbrev pub all_blocks : Pc → Shared → List ℕ
all_blocks p m = pending p ++ m.out ++ supply m.cache

-- The owner has read the memory of the slab that it takes a block from.
abbrev pub Steady : Pc → Cache → Type 0
Steady (Pc.loaded b mem) c = get_elem? c.ptrs b ≡ some mem
Steady _ c = Unit

-- A block that is returned is one of the slab that the search finds.
abbrev pub OfSlab :
    {fresh : ℕ → ℕ} {owner : Bool} {A : Type 0} {m m' : Shared} {p p' : Pc}
    → Move fresh owner A m p m' p'
    → Type 0
OfSlab (Move.give_back ptr l r {mem} {s} _ _ _ _) =
    mem + index_size ((ptr - mem) / s.block_size) * s.block_size ≡ ptr
OfSlab _ = Unit

-- What a step does to the blocks. A new active slab may come from the dispatcher, with its blocks; the
-- slab at `it` of the cache goes with its free blocks where it is dropped; any other step keeps them.
abbrev pub Keeps :
    {fresh : ℕ → ℕ} {owner : Bool} {A : Type 0} {m m' : Shared} {p p' : Pc}
    → Move fresh owner A m p m' p'
    → (before after : List ℕ) → Type 0
Keeps {fresh} {m = m} (Move.refill _ _ _) before after =
    Supplies fresh m.dispatcher m.cache before after
Keeps {m = m} (Move.dispatch {it} _ _ _) before after =
    (s : Slab) × (mem : ℕ) × (get_elem? m.cache.slabs it ≡ some s)
    × (get_elem? m.cache.ptrs it ≡ some mem)
    × Perm before (blocks s mem ++ after)
Keeps _ before after = Perm before after

pub swap_front : (a b c : List ℕ) → Perm (a ++ (b ++ c)) (b ++ (a ++ c))
swap_front a b c =
    rw (← append_assoc a b c, ← append_assoc b a c) (Perm.append_right c (perm_append_comm a b))

pub pending_leaving : (p : Pc) → is_leaving p ≡ true → pending p ≡ []
pending_leaving (Pc.taken b full) e = absurd (cc)
pending_leaving _ e = refl
