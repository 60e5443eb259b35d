-- ===== src/SlabMem/Lifetime.antt =====
-- Allocators/SlabMem.h, the moves and the destructor of `Slab`. Address 0 is the null pointer, and a
-- vector that is moved from is empty.
use allocators.Common.{ℕ, refl, List, [], ◌∷◌, ◌==◌, if◌then◌else◌}
use allocators.SlabHelper.Moves.{Moves, Movable}
use allocators.SlabMem.Slab.{Slab}

-- `Slab(Slab&&)`: the new slab, and the other one afterwards.
unfoldable pub move_construct : (other : Slab) → Slab × Slab
move_construct other = (
  record {
    mem = other.mem;
    block_size = other.block_size;
    count = other.count;
    availible = other.availible;
  },
  record other { mem = 0; availible = [] },
)

-- `operator=(Slab&&)`, which does not release what the target held.
unfoldable pub move_assign : (target other : Slab) → Slab × Slab
move_assign target other = (
  record target {
    mem = other.mem;
    block_size = other.block_size;
    count = other.count;
    availible = other.availible;
  },
  record other { mem = 0; availible = [] },
)

-- `~Slab()`: the addresses that `operator delete` gets, which does nothing on the null pointer.
unfoldable pub destroy : Slab → List ℕ
destroy s = if s.mem == 0 then [] else s.mem ∷ []

abbrev pub moves : Moves Slab ℕ
moves = record { move_construct = move_construct; move_assign = move_assign; destroy = destroy }

pub moves-Movable : Movable moves
unfolding move_construct move_assign destroy
moves-Movable = record {
  construct_new = λ s. refl;
  construct_old = λ s. refl;
  assign_new = λ t s. refl;
  assign_old = λ t s. refl;
}
