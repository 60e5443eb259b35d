-- ===== src/SlabMulti/Edges.antt =====
-- What `ImplSlabMulti::Cache::memToDispatch` does to the active slab.
use allocators.Common.{
  ℕ, suc, ◌+◌, ◌-◌, ◌%◌, ◌^◌, ◌≤◌, ◌<◌, ◌≡◌, refl, true, ◌==◌, lt→ltb, le→leb, u64, ◌*◌,
  length-append, ◌-◌, ◌/◌, ◌++◌, leb, Bool-cases, inl, inr, [], ◌∷◌, none, some, false, arith,
  length,
}
use allocators.SlabMulti.Dispatcher.{GlobalDispatch}
use allocators.SlabHelper.VecMap.{index_size}
use allocators.SlabMulti.Slab
use allocators.SlabMulti.Slab.{Slab}
use allocators.SlabMulti.Cache.{
  Cache, search, settle, allocate, deallocate, give_back-settle, deallocate_found,
}

-- A cache of two slabs, the first one active and wholly free, the second one used up, gives the
-- active slab away once a deallocation has left it so, if more blocks are counted as out than one
-- slab less holds: the slab that is used up is the active one then, and the next `allocate` is
-- undefined.
pub settle_active :
    (fresh : ℕ → ℕ) (d : GlobalDispatch) (c : Cache) (s t : Slab) (p q : ℕ)
    → c.slabs ≡ s ∷ t ∷ []
    → c.ptrs ≡ p ∷ q ∷ []
    → c.act ≡ 0
    → length s.availible + length s.foreigns ≡ s.count
    → t.availible ≡ []
    → c.count ≤ c.my_capacity
    → c.my_capacity < 2 ^ 64
    → c.my_capacity < c.my_size + c.count
    → (c' : Cache) × (settle 0 s c ≡ some c') × (allocate fresh d c' ≡ none)
unfolding settle allocate Slab.allocate
settle_active fresh d c s t p q slabs ptrs act whole used le word spare =
    let e : (length s.availible + length s.foreigns == s.count) ≡ true = ground arith in
    let less : (c.my_capacity + 2 ^ 64 - c.count) % 2 ^ 64 < c.my_size = omega arith in
    (
      record c {
        my_capacity = (c.my_capacity + 2 ^ 64 - c.count) % 2 ^ 64;
        slabs = t ∷ [];
        ptrs = q ∷ [];
        act = 0;
      },
      elim (Bool-cases (
          leb ((s.count + 2 ^ 64 - (length s.availible + length s.foreigns)) % 2 ^ 64)
            c.threshold)) [
              | inl small ↦ rw (small, e, act, slabs, ptrs, lt→ltb _ _ less) refl
              | inr large ↦ rw (large, e, act, slabs, ptrs, lt→ltb _ _ less) refl
            ],
      rw used refl,
    )

-- A cache whose active slab `s` has one index left, before the slab `t`, which is used up.
abbrev pub two_slabs : Cache → (s t : Slab) (i p q : ℕ) → Cache
two_slabs c s t i p q = record c {
  slabs = record s { availible = i ∷ []; foreigns = [] } ∷ record t { availible = [] } ∷ [];
  ptrs = p ∷ q ∷ [];
  act = 0;
}

module _ (c : Cache) (s t : Slab) (p q i ptr : ℕ)
    (out : Slab.contains_mem ptr p c.block_size c.count ≡ false)
    (inside : Slab.contains_mem ptr q c.block_size c.count ≡ true) where
  search_second : search 5 ptr 0 2 (two_slabs c s t i p q) ≡ some 1
  unfolding search
  search_second = rw (out, inside) refl

  -- The second slab with one more block returned.
  abbrev foreign : Slab
  foreign = Slab.deallocate ptr q false (record t { availible = [] })

  abbrev moved : Cache
  moved = record (two_slabs c s t i p q) {
    slabs = foreign ∷ record s { availible = i ∷ []; foreigns = [] } ∷ [];
    ptrs = q ∷ p ∷ [];
    act = 1;
  }

  settle-foreign :
      suc (length t.foreigns) ≤ t.count
      → t.count < 2 ^ 64
      → t.count ≤ suc (length t.foreigns) + c.threshold
      → settle 1 foreign (record (two_slabs c s t i p q) {
        slabs = record s { availible = i ∷ []; foreigns = [] } ∷ foreign ∷ [];
      })
        ≡ some moved
  unfolding settle Slab.deallocate
  settle-foreign some_out word near =
      let spliced : leb
            ((t.count
                + 2 ^ 64
                - (0 + length (t.foreigns ++ index_size ((ptr - q) / t.block_size) ∷ [])))
              % 2 ^ 64)
            c.threshold
          ≡ true =
        le→leb _ _
          (omega (arith, length-append t.foreigns (index_size ((ptr - q) / t.block_size) ∷ []))) in
      rw spliced refl

  -- A cache of two slabs, the first one active and with one index left, the second one used up by the
  -- owner: when other threads have returned so many blocks of the second one, though no more than it
  -- has, that the last of them moves it before the active slab, the next `allocate` makes it the active slab, though its indices
  -- still wait to be merged, and the `allocate` after that is undefined.
  pub deallocate_foreign :
      (fresh : ℕ → ℕ) (d : GlobalDispatch)
      → suc (length t.foreigns) ≤ t.count
      → t.count < 2 ^ 64
      → t.count ≤ suc (length t.foreigns) + c.threshold
      → (c' c'' : Cache) × (x : ℕ) × (deallocate ptr false (two_slabs c s t i p q)
          ≡ some (true, c'))
        × (allocate fresh d c' ≡ some (x, d, c''))
        × (allocate fresh d c'' ≡ none)
  unfolding allocate Slab.allocate Slab.deallocate
  deallocate_foreign fresh d some_out word near =
      let given =
        give_back-settle 1 ptr false (two_slabs c s t i p q) moved (record t { availible = [] }) q
          refl refl (settle-foreign some_out word near) in
      (
        record moved { my_size = (c.my_size + 2 ^ 64 - 1) % 2 ^ 64 },
        record moved {
          my_size = u64 ((c.my_size + 2 ^ 64 - 1) % 2 ^ 64 + 1);
          slabs = foreign ∷ record s { availible = []; foreigns = [] } ∷ [];
          act = 0;
        },
        p + i * s.block_size,
        deallocate_found ptr false (two_slabs c s t i p q)
            (record moved { my_size = (c.my_size + 2 ^ 64 - 1) % 2 ^ 64 }) 1 search_second given,
        refl,
        refl,
      )
