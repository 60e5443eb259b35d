-- ===== src/SlabMulti/Takes.antt =====
-- `ImplSlabMulti::Cache::deallocate`, by any thread, and the free blocks of the cache.
use mathlib.Core.List.{Perm, perm_append_comm, map-append, append_assoc}
use mathlib.Core.List.Perm
use mathlib.Core.Option.{some-injective}
use allocators.Common.{
  ℕ, suc, ◌+◌, ◌-◌, ◌*◌, ◌/◌, ◌%◌, ◌^◌, ◌≡◌, ◌⊎◌, inl, inr, refl, Bool, true, false, List, [], ◌∷◌,
  ◌++◌, some, arith, get_elem?, length, ◌∙◌, sym, subst, ltb, Bool-cases, elem_inside,
}
use allocators.SlabHelper.VecMap.{index_size}
use allocators.SlabHelper.Splice.{flat-perm}
use allocators.SlabMulti.Slab
use allocators.SlabMulti.Slab.{Slab}
use allocators.SlabMulti.Cache
use allocators.SlabMulti.Cache.{
  Cache, splice_both, mem_to_dispatch, deallocate, insert, erase, search,
}
use allocators.SlabMulti.Pairs.{pairs-insert, pairs-take_out}
use allocators.SlabMulti.Vectors.{length-erase, length-insert}
use allocators.SlabMulti.Supply.{blocks, pair_blocks, supply, supply_of, supply-erase}

-- The slab takes `ptr` back.
pub Slab_takes :
    (ptr mem : ℕ) (this_thread : Bool) (s : Slab)
    → mem + index_size ((ptr - mem) / s.block_size) * s.block_size ≡ ptr
    → Perm (ptr ∷ blocks s mem) (blocks (Slab.deallocate ptr mem this_thread s) mem)
unfolding Slab.deallocate
Slab_takes ptr mem true s back = rw back Perm.rfl
Slab_takes ptr mem false s back =
    let i = index_size ((ptr - mem) / s.block_size) in
    rw
      (
        ← append_assoc s.availible s.foreigns (i ∷ []),
        map-append (λ (j : ℕ). mem + j * s.block_size) (s.availible ++ s.foreigns) (i ∷ []),
        back,
      )
      (perm_append_comm (ptr ∷ []) (blocks s mem))

-- What `settle` does to the free blocks: it keeps them, or takes those of one slab off.
abbrev pub Drops : (n : ℕ) (before after : List ℕ) → Type 0
Drops n before after =
    (gone : List ℕ) × Perm before (gone ++ after) × ((gone ≡ []) ⊎ (length gone ≡ n))

-- `c` with other vectors and a slab's blocks less.
abbrev left : Cache → List Slab → List ℕ → ℕ → Cache
left c slabs ptrs act = record c {
  my_capacity = (c.my_capacity + 2 ^ 64 - c.count) % 2 ^ 64;
  slabs = slabs;
  ptrs = ptrs;
  act = act;
}

module _ (c : Cache) (it : ℕ) (s : Slab) (mem : ℕ) (same : length c.ptrs ≡ length c.slabs)
    (at : get_elem? c.slabs it ≡ some s) (at_mem : get_elem? c.ptrs it ≡ some mem) where
  pub splice_both-supply :
      (c' : Cache) × (splice_both it c ≡ some c')
      × Perm (supply c) (supply c')
      × (length c'.ptrs ≡ length c'.slabs)
  unfolding splice_both Cache.splice
  splice_both-supply =
      let shorter = length-erase it c.slabs (elem_inside c.slabs it s at) in
      let shorter' = length-erase it c.ptrs (elem_inside c.ptrs it mem at_mem) in
      (
        record c {
          slabs = insert c.act s (erase it c.slabs);
          ptrs = insert c.act mem (erase it c.ptrs);
          act = suc c.act;
        },
        rw (at, at_mem) refl,
        Perm.trans (supply-erase it c.slabs c.ptrs s mem at at_mem) (
            Perm.symm (
              flat-perm pair_blocks
                (pairs-insert c.act s mem (erase it c.slabs) (erase it c.ptrs) (omega arith)))),
        omega (
          arith,
          length-insert c.act s (erase it c.slabs),
          length-insert c.act mem (erase it c.ptrs),
        ),
      )

  pub mem_to_dispatch-supply :
      (c' : Cache) × (mem_to_dispatch it c ≡ some c')
      × Perm (supply c) (blocks s mem ++ supply c')
      × (length c'.ptrs ≡ length c'.slabs)
  unfolding mem_to_dispatch
  mem_to_dispatch-supply =
      let inside = elem_inside c.slabs it s at in
      let (x, y, xs, ys, e1, e2, at_x, at_y, len, p) =
        pairs-take_out it c.slabs c.ptrs inside same in
      let taken : Perm (supply c) (blocks s mem ++ supply_of xs ys) =
        subst (λ (q : Slab × ℕ). Perm (supply c) (blocks q.0 q.1 ++ supply_of xs ys))
          (λ k. (some-injective _ _ (sym at_x ∙ at) k, some-injective _ _ (sym at_y ∙ at_mem) k))
          (flat-perm pair_blocks p) in
      elim (Bool-cases (ltb c.act it)) [
        | inl behind ↦ (left c xs ys c.act, rw (behind, e1, e2) refl, taken, len)
        | inr not_behind ↦ elim (Bool-cases (ltb it c.act)) [
          | inl before ↦ (
            left c (erase it c.slabs) (erase it c.ptrs) (c.act - 1),
            rw (not_behind, before) refl,
            supply-erase it c.slabs c.ptrs s mem at at_mem,
            omega (arith, length-erase it c.slabs inside, length-erase it c.ptrs (omega arith)),
          )
          | inr here ↦
              (left c xs ys (length xs - 1), rw (not_behind, here, e1, e2) refl, taken, len)
        ]
      ]
