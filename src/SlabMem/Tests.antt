-- ===== src/SlabMem/Tests.antt =====
-- The theorems about Allocators/SlabHelper.h and Allocators/SlabMem.h at concrete inputs: caches of
-- raw memory whose blocks have 8 bytes.
use mathlib.Core.Logic.Or
use mathlib.Core.HLevel.{⊥_prop}
use mathlib.Core.List.{Nodup, Nodup-cons, Nodup-nil, not-mem-nil, eq-or-mem_of_mem-cons}
use allocators.Common.{
  ◌+◌, ℕ, List, ◌*◌, ◌≡◌, ◌≢◌, ◌⊎◌, refl, inl, inr, [], ◌∷◌, none, some, arith, Bool-cases, ◌==◌,
  ap, subst, get_elem?, u64,
}
use allocators.SlabHelper.VecMap.{VecMap, find, Has, iota}
use allocators.SlabHelper.SlabOps.{SlabLaws}
use allocators.SlabHelper.Cache
use allocators.SlabHelper.Cache.{Cache}
use allocators.SlabHelper.Inv.{Inv, Gives, Takes, supply}
use allocators.SlabHelper.Allocate.{grown, allocate-Gives, new_cache, new_cache-Inv}
use allocators.SlabHelper.Deallocate.{deallocate-Takes}
use allocators.SlabHelper.Edges.{free_empty_capacity}
use allocators.SlabHelper.Moves
use allocators.SlabHelper.Splice
use allocators.SlabMem.Lifetime.{moves, moves-Movable, move_construct, move_assign, destroy}
use allocators.SlabMem.Slab
use allocators.SlabMem.Interface.{Interface, find_bucket, deallocate}
use allocators.SlabMem.Buckets.{sizes}
use allocators.SlabMem.WellFormed.{WellFormed, Given, deallocate-WellFormed}
use mathlib.Core.Option.{some-injective}
use allocators.SlabMem.Slab.{Slab, ops, laws, Block}

-- Slabs of three blocks, and of one.
abbrev three : SlabLaws ops 8 3
three = laws 8 3 (omega arith) (omega arith)

abbrev one : SlabLaws ops 8 1
one = laws 8 1 (omega arith) (omega arith)

abbrev table : VecMap
table = (3, 0 ∷ 1 ∷ 2 ∷ []) ∷ (1, 0 ∷ []) ∷ []

table-Has : Has 3 table
unfolding iota
table-Has = refl

table-Has-one : Has 1 table
unfolding iota
table-Has-one = refl

-- The block at address 4096 is out.
abbrev used : Cache Slab
used = record {
  count = 3;
  block_size = 8;
  my_capacity = 3;
  my_size = 1;
  slabs_free = [];
  slabs_part = record { mem = 4096; block_size = 8; count = 3; availible = 1 ∷ 2 ∷ [] } ∷ [];
  slabs_full = [];
}

used-Inv : Inv ops 8 3 three used
used-Inv = record {
  block = refl;
  blocks = refl;
  free = tt;
  part = (
    (
      record { block = refl; blocks = refl; below = (omega arith, (omega arith, tt)) },
      omega arith,
      omega arith,
    ),
    tt,
  );
  full = tt;
  capacity = refl;
  size = refl;
}

used-Inv-one : Inv ops 8 1 one (new_cache ops 8 1 one 4096)
used-Inv-one = new_cache-Inv ops 8 1 one 4096

allocate-Gives_example :
    (p : ℕ) × (c' : Cache Slab) × (Cache.allocate ops 8192 table used ≡ some (p, table, c'))
    × Gives ops 8 3 three (grown ops 8 3 three 8192 table used) p c'
allocate-Gives_example =
    allocate-Gives ops 8 3 three 8192 table (omega arith) table-Has used used-Inv (omega arith)

distinct : (a b : ℕ) → a ≢ b → Nodup (a ∷ b ∷ [])
distinct a b ne = Nodup-cons.1 (
  (λ m. Or.elim ⊥_prop (eq-or-mem_of_mem-cons m) ne not-mem-nil),
  Nodup-cons.1 (not-mem-nil, Nodup-nil),
)

used-Nodup : Nodup (supply ops 8 3 three used)
used-Nodup = distinct 4104 4112 (omega arith)

deallocate-Takes_example :
    (c' : Cache Slab) × (Cache.deallocate ops 4096 used ≡ some c')
    × Takes ops 8 3 three used 4096 c'
unfolding Slab.contains_mem
deallocate-Takes_example =
    deallocate-Takes ops 8 3 three 4096 used (omega arith) (omega arith) used-Inv tt
      (λ _. (0, omega arith, refl), tt) (inr refl)

abbrev no_slabs : Cache Slab
no_slabs = record {
  count = 1;
  block_size = 8;
  my_capacity = 0;
  my_size = 0;
  slabs_free = [];
  slabs_part = [];
  slabs_full = [];
}

no_slabs-Inv : Inv ops 8 1 one no_slabs
no_slabs-Inv = record {
  block = refl;
  blocks = refl;
  free = tt;
  part = tt;
  full = tt;
  capacity = refl;
  size = refl;
}

abbrev out_one : Interface
out_one = record { vec_map = (3, 0 ∷ 1 ∷ 2 ∷ []) ∷ []; buckets = used ∷ [] }

out_one-table : (k : ℕ) → (find k out_one.vec_map ≡ none) ⊎ Has k out_one.vec_map
unfolding iota
out_one-table k = elim (Bool-cases (3 == k)) [
  | inl hit ↦ let same : 3 ≡ k = ground arith in inr (rw hit (ap (λ (i : ℕ). some (iota 0 i)) same))
  | inr miss ↦ inl (rw miss refl)
]

out_one-WellFormed : WellFormed out_one
out_one-WellFormed = record {
  table = out_one-table;
  ready = (
    record {
      bs = 8;
      n = 3;
      pos = omega arith;
      two = omega arith;
      fits = omega arith;
      has = table-Has;
      inv = used-Inv;
    },
    tt,
  );
}

used-Given : Given 4096 used
unfolding Slab.contains_mem
used-Given = record { at_full = tt; at_part = (λ _. (0, omega arith, refl), tt); held = inr refl }

only-Given :
    (i : ℕ) (c : Cache Slab)
    → find_bucket (u64 (2 * 4)) out_one.buckets ≡ some i
    → get_elem? out_one.buckets i ≡ some c
    → Given 4096 c
unfolding find_bucket
only-Given ℕ.zero c e at = subst (Given 4096) (some-injective _ _ at) used-Given
only-Given (ℕ.suc i) c e at = absurd (cc)

deallocate-WellFormed_example :
    (w' : Interface) × (deallocate 4096 4 2 out_one ≡ some w')
    × WellFormed w'
    × (w'.vec_map ≡ out_one.vec_map)
    × (sizes w'.buckets ≡ 8 ∷ [])
deallocate-WellFormed_example =
    deallocate-WellFormed 4096 4 2 out_one out_one-WellFormed (omega arith, tt) only-Given

abbrev slab_at : ℕ → Slab
slab_at mem = record { mem = mem; block_size = 8; count = 3; availible = 0 ∷ [] }

splice-eq_example :
    (to' from' : List Slab) × (Moves.splice moves [] (slab_at 64 ∷ slab_at 96 ∷ slab_at 128 ∷ []) 0
      ≡ some ((to', from'), []))
    × (Splice.splice [] (slab_at 64 ∷ slab_at 96 ∷ slab_at 128 ∷ []) 0 ≡ some (to', from'))
splice-eq_example =
    Moves.splice-eq moves moves-Movable [] (slab_at 64 ∷ slab_at 96 ∷ slab_at 128 ∷ []) 0
      (omega arith)

last_test :
    Moves.splice moves [] (slab_at 64 ∷ slab_at 96 ∷ []) 1
    ≡ some ((slab_at 96 ∷ [], slab_at 64 ∷ []), [])
unfolding Moves.splice move_construct move_assign destroy
last_test = refl

-- A cache of a slab of three blocks of 8 bytes, all free: 24 blocks fewer are counted once it is freed.
free_empty_capacity_example :
    (Cache.free_empty (new_cache ops 8 3 three 4096)).my_capacity ≢ 3 * (0 + 0)
free_empty_capacity_example =
    free_empty_capacity ops 8 3 three (new_cache ops 8 3 three 4096)
      (new_cache-Inv ops 8 3 three 4096) (omega arith) (omega arith) (omega arith) (omega arith)
