-- ===== src/SlabHelper/Edges.antt =====
-- `SlabImpl::Cache` at its edges: a cache of one-block slabs, and the capacity that `freeEmpty`
-- leaves.
use native.Mathlib.Nat.{mul-div_left}
use allocators.Common.{
  ℕ, ◌+◌, ◌-◌, ◌*◌, ◌%◌, ◌^◌, ◌<◌, ◌≡◌, ◌≢◌, true, List, [], ◌∷◌, none, arith, ◌==◌, ◌/◌, sym, ◌∙◌,
  length, u64, ap,
}
use allocators.SlabHelper.VecMap.{VecMap, Has, iota, index-Has}
use allocators.SlabHelper.SlabOps.{SlabOps, SlabLaws}
use allocators.SlabHelper.Cache.{Cache, allocate, free_empty}
use allocators.SlabHelper.Inv.{Inv, cache, by_fields}

module _ {S : Type 0} (ops : SlabOps S) (bs n : ℕ) (laws : SlabLaws ops bs n) where
  one_block_fields :
      (fresh : ℕ) (m : VecMap)
      → n ≡ 1
      → Has n m
      → (cap sz : ℕ) (fr part fu : List S)
      → Inv ops bs n laws (cache ops bs n laws cap sz fr part fu)
      → fr ≡ []
      → allocate ops fresh m (cache ops bs n laws cap sz fr part fu) ≡ none
  unfolding allocate
  one_block_fields fresh m one has cap sz (s ∷ fr) part fu inv none_free = absurd (cc)
  one_block_fields fresh m one has cap sz [] (s ∷ part) fu inv none_free =
      absurd (omega (arith, inv.part))
  one_block_fields fresh m one has cap sz [] [] fu inv none_free =
      let (good, whole) = laws.construct_lem fresh in
      let (p, s', got, _, left, _) =
        laws.allocate_lem (ops.construct bs n fresh (iota 0 n)) good (omega (arith, whole)) in
      let empty : (length (laws.free s') == 0) ≡ true = ground (arith, ap length left, whole) in
      rw (index-Has n m has, got, empty)

  -- A cache of one-block slabs fails at its first allocation: the slab that `allocate` makes is full
  -- at once, and the second `splice` reads the end of `slabsFree`.
  pub allocate-one_block :
      (fresh : ℕ) (m : VecMap) (c : Cache S)
      → n ≡ 1
      → Has n m
      → Inv ops bs n laws c
      → c.slabs_free ≡ []
      → allocate ops fresh m c ≡ none
  allocate-one_block fresh m c one has inv none_free =
      by_fields ops bs n laws (λ c. c.slabs_free ≡ [] → allocate ops fresh m c ≡ none)
        (λ cap sz fr part fu i. one_block_fields fresh m one has cap sz fr part fu i) c inv
        none_free

  cancel : (k a b : ℕ) → 0 < k → a * k ≡ b * k → a ≡ b
  cancel k a b pos e = sym (mul-div_left a pos) ∙ ap (λ (x : ℕ). x / k) e ∙ mul-div_left b pos

  -- `freeEmpty` takes the bytes of the blocks off the capacity, which counts blocks: the capacity is
  -- not that of the slabs that are left, wherever a free slab was dropped and a slab has not as many
  -- blocks as a block has bytes. The cache keeps its invariant, its
  -- capacity is a word, and the bytes do not overflow.
  pub free_empty_capacity :
      (c : Cache S)
      → Inv ops bs n laws c
      → c.my_capacity < 2 ^ 64
      → length c.slabs_free * bs < 2 ^ 64
      → 0 < length c.slabs_free
      → bs ≢ n
      → (free_empty c).my_capacity ≢ n * (length c.slabs_part + length c.slabs_full)
  unfolding free_empty
  free_empty_capacity c inv small bytes some_free ne eq =
      ne (cancel (length c.slabs_free) bs n some_free (omega (arith, bytes_eq, inv.capacity)))
    where
      bytes_eq :
          (c.my_capacity + 2 ^ 64 - u64 (length c.slabs_free * bs)) % 2 ^ 64
          ≡ n * (length c.slabs_part + length c.slabs_full)
      bytes_eq = rw (← inv.block) eq
