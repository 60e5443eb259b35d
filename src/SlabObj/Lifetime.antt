-- ===== src/SlabObj/Lifetime.antt =====
-- Allocators/SlabObj.h, the moves and the destructor of `Slab<T>`. Address 0 is the null pointer, and a
-- vector that is moved from is empty. The calls that a slab has recorded move with its memory.
use allocators.Common.{
  ℕ, zero, suc, ◌+◌, ◌*◌, ◌≡◌, refl, false, List, [], ◌∷◌, ◌++◌, map, ◌==◌, if◌then◌else◌, ap,
}
use allocators.SlabHelper.Moves.{Moves, Movable}
use allocators.SlabObj.Slab.{Slab, XtorCall, construct_all, construct_slab}

-- What a destructor does: `~T()` on an object, and `operator delete` on the memory.
pub data Release : Type 0 where
  destruct_object delete_memory : (ptr : ℕ) → Release

unfoldable pub move_construct : (other : Slab) → Slab × Slab
move_construct other = (
  record { mem = other.mem; count = other.count; availible = other.availible; calls = other.calls },
  record other { mem = 0; availible = []; calls = [] },
)

-- `operator=(Slab&&)`, which neither destructs the objects of the target nor releases its memory.
unfoldable pub move_assign : (target other : Slab) → Slab × Slab
move_assign target other = (
  record target {
    mem = other.mem;
    count = other.count;
    availible = other.availible;
    calls = other.calls;
  },
  record other { mem = 0; availible = []; calls = [] },
)

module _ (size : ℕ) where
  -- The loop of the destructor, over the objects from number `i` on.
  unfoldable pub destruct_all : (mem i n : ℕ) → List Release
  destruct_all mem i zero = []
  destruct_all mem i (suc n) = Release.destruct_object (mem + size * i) ∷ destruct_all mem (suc i) n

  -- `~Slab()`
  unfoldable pub destroy : Slab → List Release
  unfolding destruct_all
  destroy s =
      if s.mem == 0 then [] else destruct_all s.mem 0 s.count ++ Release.delete_memory s.mem ∷ []

  abbrev pub moves : Moves Slab Release
  moves = record { move_construct = move_construct; move_assign = move_assign; destroy = destroy }

  pub moves-Movable : Movable moves
  unfolding move_construct move_assign destroy
  moves-Movable = record {
    construct_new = λ s. refl;
    construct_old = λ s. refl;
    assign_new = λ t s. refl;
    assign_old = λ t s. refl;
  }

  -- The object that a call is about.
  abbrev pub object : XtorCall → ℕ
  object (XtorCall.construct ptr) = ptr
  object (XtorCall.destruct ptr) = ptr

  destruct_all-construct_all :
      (mem i n : ℕ)
      → destruct_all mem i n
        ≡ map (λ c. Release.destruct_object (object c)) (construct_all size mem i n)
  unfolding destruct_all construct_all
  destruct_all-construct_all mem i zero = refl
  destruct_all-construct_all mem i (suc n) =
      ap (λ k. Release.destruct_object (mem + size * i) ∷ k)
        (destruct_all-construct_all mem (suc i) n)

  -- The destructor of a new slab runs `~T()` once on each object that the constructor has made, in the
  -- same order, and then releases the memory. The memory is not at the null pointer.
  pub destroy-construct_slab :
      (block_size count mem : ℕ) (indices : List ℕ)
      → (mem == 0) ≡ false
      → destroy (construct_slab size block_size count mem indices)
        ≡ map
            (λ c. Release.destruct_object (object c))
            (construct_slab size block_size count mem indices).calls
          ++ Release.delete_memory mem ∷ []
  unfolding destroy construct_slab
  destroy-construct_slab block_size count mem indices real =
      rw (real, destruct_all-construct_all mem 0 count) refl
