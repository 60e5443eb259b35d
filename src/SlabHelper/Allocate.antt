-- ===== src/SlabHelper/Allocate.antt =====
-- `SlabImpl::Cache::allocate` keeps the invariant, and gives out a block that was free.
use mathlib.Core.List.{Perm, append-nil}
use mathlib.Core.List.Perm
use allocators.Common.{
  ℕ, suc, ◌+◌, ◌*◌, ◌^◌, ◌≤◌, ◌<◌, ◌≡◌, refl, inl, inr, false, List, [], ◌∷◌, ◌++◌, Option, some,
  ◌==◌, Bool-cases, arith, length, u64, ap, subst, sym, ◌∙◌, length-append, All-append,
  nil_of_length,
}
use allocators.SlabHelper.VecMap.{VecMap, Has, iota, index-Has}
use allocators.SlabHelper.SlabOps.{SlabOps, SlabLaws}
use allocators.SlabHelper.Splice.{
  take_out-Extraction, All-perm, total-perm, length-perm, flat, flat-perm,
}
use allocators.SlabHelper.Cache.{
  Cache, find_free_slab, allocate_part, allocate_free, allocate, construct,
}
use allocators.SlabHelper.Inv.{room, IsFree, IsPart, IsFull, Inv, Gives, cache, by_fields}

module _ {S : Type 0} (ops : SlabOps S) (bs n : ℕ) (laws : SlabLaws ops bs n) where
  abbrev Result : (Cache S → Option (ℕ × Cache S)) → Cache S → Type 0
  Result alloc c = (p : ℕ) × (c' : Cache S) × (alloc c ≡ some (p, c')) × Gives ops bs n laws c p c'

  -- `allocate_part` on a cache whose first partial slab is `s`.
  module _ (cap sz : ℕ) (fr r fu : List S) (s : S) where
    abbrev parts : Cache S
    parts = record {
      count = n;
      block_size = bs;
      my_capacity = cap;
      my_size = sz;
      slabs_free = fr;
      slabs_part = s ∷ r;
      slabs_full = fu;
    }

    allocate_part_fields : Inv ops bs n laws parts → cap < 2 ^ 64 → Result (allocate_part ops) parts
    unfolding allocate_part
    allocate_part_fields inv small =
        let (p, s', got, good, free, _) = laws.allocate_lem s inv.part.0.0 inv.part.0.1 in
        let out = take_out-Extraction 0 (s ∷ r) (omega arith) in
        let s-eq : out.elem ≡ s = cc out.at in
        let one : length (laws.free s) ≡ suc (length (laws.free s')) = ap length free in
        let grows : u64 (sz + 1) ≡ sz + 1 = omega (arith, inv.size) in
        elim (Bool-cases (length (laws.free s') == 0)) [
          | inl last ↦
              let zero_left : length (laws.free s') ≡ 0 = ground arith in
              let lens : length fr + length out.rest + length (fu ++ s' ∷ [])
                  ≡ length fr + suc (length r) + length fu =
                omega (arith, length-perm out.same, length-append fu (s' ∷ [])) in
              let front : laws.free out.elem ≡ p ∷ [] =
                ap laws.free s-eq
                ∙ free
                ∙ ap (λ l. p ∷ l) (nil_of_length (laws.free s') zero_left) in
              (
                p,
                record parts {
                  slabs_part = out.rest;
                  slabs_full = fu ++ s' ∷ [];
                  my_size = sz + 1;
                },
                rw (got, last, out.taken s', grows),
                record {
                  inv = record {
                    block = refl;
                    blocks = refl;
                    free = inv.free;
                    part = (All-perm (IsPart ops bs n laws) out.same inv.part).1;
                    full =
                        All-append (IsFull ops bs n laws) fu (s' ∷ []) inv.full
                          ((good, zero_left), tt);
                    capacity = inv.capacity ∙ ap (λ k. n * k) (sym lens);
                    size = omega (
                      arith,
                      inv.size,
                      total-perm (room ops bs n laws) out.same,
                      ap (room ops bs n laws) s-eq,
                    );
                  };
                  taken = refl;
                  capacity = refl;
                  given = Perm.append_right (flat laws.free fr) (
                      subst (λ l. Perm (flat laws.free (s ∷ r)) (l ++ flat laws.free out.rest))
                        front (flat-perm laws.free out.same));
                },
              )
          | inr more ↦ (
            p,
            record parts { slabs_part = s' ∷ r; my_size = sz + 1 },
            rw (got, more, grows),
            record {
              inv = record {
                block = refl;
                blocks = refl;
                free = inv.free;
                part = ((good, ground arith, omega (arith, inv.part.0.2)), inv.part.1);
                full = inv.full;
                capacity = inv.capacity;
                size = omega (arith, inv.size);
              };
              taken = refl;
              capacity = refl;
              given =
                  rw free
                    (Perm.refl (p ∷ ((laws.free s' ++ flat laws.free r) ++ flat laws.free fr)));
            },
          )
        ]

  -- `allocate_free` on a cache with no partial slab, whose first free slab is `s`.
  module _ (cap sz : ℕ) (r fu : List S) (s : S) where
    abbrev frees : Cache S
    frees = record {
      count = n;
      block_size = bs;
      my_capacity = cap;
      my_size = sz;
      slabs_free = s ∷ r;
      slabs_part = [];
      slabs_full = fu;
    }

    allocate_free_fields :
        2 ≤ n → Inv ops bs n laws frees → cap < 2 ^ 64 → Result (allocate_free ops) frees
    unfolding allocate_free
    allocate_free_fields two inv small =
        let (p, s', got, good, free, _) =
          laws.allocate_lem s inv.free.0.0 (omega (arith, inv.free.0.1)) in
        let out = take_out-Extraction 0 (s ∷ r) (omega arith) in
        let s-eq : out.elem ≡ s = cc out.at in
        let one : length (laws.free s) ≡ suc (length (laws.free s')) = ap length free in
        let more : (length (laws.free s') == 0) ≡ false = ground (arith, inv.free.0.1) in
        let grows : u64 (sz + 1) ≡ sz + 1 = omega (arith, inv.size, inv.free.0.1) in
        let front : laws.free out.elem ≡ p ∷ laws.free s' = ap laws.free s-eq ∙ free in
        let lens : length out.rest + 1 + length fu ≡ suc (length r) + 0 + length fu =
          omega (arith, length-perm out.same) in
        (
          p,
          record frees { slabs_part = s' ∷ []; slabs_free = out.rest; my_size = sz + 1 },
          rw (got, out.taken s', more, grows),
          record {
            inv = record {
              block = refl;
              blocks = refl;
              free = (All-perm (IsFree ops bs n laws) out.same inv.free).1;
              part = ((good, omega (arith, inv.free.0.1), omega (arith, inv.free.0.1)), tt);
              full = inv.full;
              capacity = inv.capacity ∙ ap (λ k. n * k) (sym lens);
              size = omega (
                arith,
                inv.size,
                total-perm (room ops bs n laws) out.same,
                ap (room ops bs n laws) s-eq,
              );
            };
            taken = refl;
            capacity = refl;
            given = rw append-nil (
                subst (λ l. Perm (flat laws.free (s ∷ r)) (l ++ flat laws.free out.rest)) front
                  (flat-perm laws.free out.same));
          },
        )

  -- The cache that `findFreeSlab` leaves.
  abbrev pub grown : (fresh : ℕ) → VecMap → Cache S → Cache S
  grown fresh m c = (find_free_slab ops fresh m c).2

  module _ (fresh : ℕ) (m : VecMap) (two : 2 ≤ n) (has : Has n m) where
    allocate_fields :
        (cap sz : ℕ) (part fr fu : List S)
        → let c : Cache S = record {
          count = n;
          block_size = bs;
          my_capacity = cap;
          my_size = sz;
          slabs_free = fr;
          slabs_part = part;
          slabs_full = fu;
        } in
          Inv ops bs n laws c
          → cap + n < 2 ^ 64
          → (p : ℕ) × (c' : Cache S) × (allocate ops fresh m c ≡ some (p, m, c'))
            × Gives ops bs n laws (grown fresh m c) p c'
    unfolding allocate find_free_slab
    allocate_fields cap sz (s ∷ r) fr fu inv small =
        let (p, c', e, g) = allocate_part_fields cap sz fr r fu s inv (omega arith) in
        (p, c', rw e, g)
    allocate_fields cap sz [] (s ∷ r) fu inv small =
        let (p, c', e, g) = allocate_free_fields cap sz r fu s two inv (omega arith) in
        (p, c', rw e, g)
    allocate_fields cap sz [] [] fu inv small =
        let new = laws.construct_lem fresh in
        let inv' : Inv ops bs n laws (record {
          count = n;
          block_size = bs;
          my_capacity = cap + n;
          my_size = sz;
          slabs_free = ops.construct bs n fresh (iota 0 n) ∷ [];
          slabs_part = [];
          slabs_full = fu;
        }) =
          record {
            block = refl;
            blocks = refl;
            free = (new, tt);
            part = tt;
            full = inv.full;
            capacity = omega (arith, inv.capacity);
            size = omega (arith, inv.size, new.1);
          } in
        let (p, c', e, g) =
          allocate_free_fields (cap + n) sz [] fu (ops.construct bs n fresh (iota 0 n)) two inv'
            small in
        let wide : u64 (cap + n) ≡ cap + n = omega arith in
        (p, c', rw (index-Has n m has, wide, e), rw (index-Has n m has, wide) g)

    -- `allocate` never runs into undefined behaviour: it gives out a block that was free in the cache
    -- that `findFreeSlab` leaves, keeps the invariant and the table of indices, and counts one object
    -- more. The slabs have at least two blocks, the table has their indices, and the capacity does
    -- not overflow.
    pub allocate-Gives :
        (c : Cache S)
        → Inv ops bs n laws c
        → c.my_capacity + n < 2 ^ 64
        → (p : ℕ) × (c' : Cache S) × (allocate ops fresh m c ≡ some (p, m, c'))
          × Gives ops bs n laws (grown fresh m c) p c'
    allocate-Gives c inv small =
        by_fields ops bs n laws
          (λ c.
            c.my_capacity + n < 2 ^ 64
            → (p : ℕ) × (c' : Cache S) × (allocate ops fresh m c ≡ some (p, m, c'))
              × Gives ops bs n laws (grown fresh m c) p c')
          (λ cap sz fr part fu i w. allocate_fields cap sz part fr fu i w) c inv small

  -- A new cache has one slab, all free.
  abbrev pub new_cache : (fresh : ℕ) → Cache S
  new_cache fresh = cache ops bs n laws n 0 (ops.construct bs n fresh (iota 0 n) ∷ []) [] []

  pub construct-eq :
      (fresh : ℕ) (m : VecMap)
      → Has n m
      → n < 2 ^ 64
      → construct ops bs n fresh m ≡ (m, new_cache fresh)
  unfolding construct
  construct-eq fresh m has small =
      let wide : u64 (0 + n) ≡ n = omega arith in rw (index-Has n m has, wide)

  pub new_cache-Inv : (fresh : ℕ) → Inv ops bs n laws (new_cache fresh)
  new_cache-Inv fresh =
      let new = laws.construct_lem fresh in
      record {
        block = refl;
        blocks = refl;
        free = (new, tt);
        part = tt;
        full = tt;
        capacity = omega arith;
        size = omega (arith, new.1);
      }
