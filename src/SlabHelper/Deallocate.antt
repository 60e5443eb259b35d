-- ===== src/SlabHelper/Deallocate.antt =====
-- `SlabImpl::Cache::deallocate` keeps the invariant, and takes a block back.
use mathlib.Core.List.{Perm, append-nil, append_assoc, perm_append_comm, perm_append_singleton}
use mathlib.Core.Option.{some-injective}
use mathlib.Core.List.Perm
use mathlib.Core.List.Permᴰ
use allocators.Common.{
  ℕ, suc, ◌+◌, ◌-◌, ◌*◌, ◌%◌, ◌^◌, ◌≤◌, ◌<◌, ◌≡◌, refl, inl, inr, true, false, List, [], ◌∷◌, ◌++◌,
  Option, some, ◌==◌, ◌⊎◌, Bool-cases, arith, set, length, All, total, ap, subst, sym, ◌∙◌,
  length-append, All-append, All-get_elem?, total-append, nil_of_length,
}
use allocators.SlabHelper.SlabOps.{SlabOps, SlabLaws}
use allocators.SlabHelper.Splice.{
  Extraction, take_out-Extraction, take_out-Out_self, back-append, pop_back-append, All-perm,
  total-perm, length-perm, flat, flat-append, flat-perm,
}
use allocators.SlabHelper.Cache.{Cache, deallocate_full, deallocate_part, deallocate}
use allocators.SlabHelper.Search.{holds, Finds, search_store-none, search_store-Finds}
use allocators.SlabHelper.Inv.{room, IsFree, IsPart, IsFull, Inv, Takes, cache, by_fields}

module _ {S : Type 0} (ops : SlabOps S) (bs n : ℕ) (laws : SlabLaws ops bs n) where
  abbrev Result : ℕ → Option (Cache S) → Cache S → Type 0
  Result p r c = (c' : Cache S) × (r ≡ some c') × Takes ops bs n laws c p c'

  total-free :
      (l : List S) → All (IsFree ops bs n laws) l → total (room ops bs n laws) l ≡ n * length l
  total-free [] h = omega arith
  total-free (s ∷ l) h = omega (arith, h.0.1, total-free l h.1)

  total-part :
      (l : List S)
      → All (IsPart ops bs n laws) l
      → total (room ops bs n laws) l + length l ≤ n * length l
  total-part [] h = omega arith
  total-part (s ∷ l) h = omega (arith, h.0.2, total-part l h.1)

  -- A cache with a slab that is not wholly free has objects out.
  size_pos :
      (cap sz : ℕ) (fr part fu : List S)
      → Inv ops bs n laws (cache ops bs n laws cap sz fr part fu)
      → 0 < n
      → 0 < length part + length fu
      → 0 < sz
  size_pos cap sz fr part (s ∷ fu) inv pos some_out =
      omega (arith, inv.size, inv.capacity, total-free fr inv.free, total-part part inv.part)
  size_pos cap sz fr (s ∷ part) [] inv pos some_out =
      omega (arith, inv.size, inv.capacity, total-free fr inv.free, total-part (s ∷ part) inv.part)
  size_pos cap sz fr [] [] inv pos some_out = absurd (omega arith)

  module _ (cap sz p : ℕ) (fr part fu : List S) (two : 2 ≤ n) (small : cap < 2 ^ 64)
      (inv : Inv ops bs n laws (cache ops bs n laws cap sz fr part fu)) where
    less : 0 < length part + length fu → (sz + 2 ^ 64 - 1) % 2 ^ 64 ≡ sz - 1
    less h = omega (arith, inv.size, size_pos cap sz fr part fu inv (omega arith) h)

    deallocate_full_fields :
        (f : Finds ops p fu)
        → laws.Block p f.slab
        → Result p
            (deallocate_full ops p f.index (cache ops bs n laws cap sz fr part fu))
            (cache ops bs n laws cap sz fr part fu)
    unfolding deallocate_full
    deallocate_full_fields f block =
        let o = take_out-Extraction f.index fu f.below in
        let slab-eq : o.elem ≡ f.slab = some-injective _ _ (sym o.at ∙ f.at) in
        let was = All-get_elem? (IsFull ops bs n laws) fu f.index inv.full f.at in
        let (good, free) = laws.deallocate_lem p f.slab was.0 block (omega (arith, was.1)) in
        let s' = ops.deallocate p f.slab in
        let one : length (laws.free s') ≡ 1 = omega (arith, was.1, ap length free) in
        let some_out : ops.is_empty s' ≡ false = laws.is_empty_lem s' good ∙ ground (arith, one) in
        let lens : length fr + length (part ++ s' ∷ []) + length o.rest
            ≡ length fr + length part + length fu =
          omega (arith, length-perm o.same, length-append part (s' ∷ [])) in
        let moved : Perm (p ∷ flat laws.free part) (flat laws.free (part ++ s' ∷ [])) =
          rw (flat-append laws.free part (s' ∷ []), free, nil_of_length (laws.free f.slab) was.1)
            (Perm.symm (perm_append_singleton p (flat laws.free part))) in
        (
          cache ops bs n laws cap (sz - 1) fr (part ++ s' ∷ []) o.rest,
          rw (
            take_out-Out_self o,
            back-append part o.elem,
            pop_back-append part o.elem,
            slab-eq,
            some_out,
            less (omega (arith, f.below)),
          ),
          record {
            inv = record {
              block = refl;
              blocks = refl;
              free = inv.free;
              part =
                  All-append (IsPart ops bs n laws) part (s' ∷ []) inv.part
                    ((good, omega (arith, one), omega (arith, one)), tt);
              full = (All-perm (IsFull ops bs n laws) o.same inv.full).1;
              capacity = inv.capacity ∙ ap (λ k. n * k) (sym lens);
              size = omega (
                arith,
                inv.size,
                one,
                size_pos cap sz fr part fu inv (omega arith) (omega (arith, f.below)),
                total-append (room ops bs n laws) part (s' ∷ []),
              );
            };
            released =
                omega
                  (arith, size_pos cap sz fr part fu inv (omega arith) (omega (arith, f.below)));
            capacity = refl;
            returned = Perm.append_right (flat laws.free fr) moved;
          },
        )

    -- The free blocks of the partial slabs, with the block that comes back.
    front :
        (f : Finds ops p part) (o : Extraction f.index part) {s' : S}
        → laws.free s' ≡ p ∷ laws.free f.slab
        → o.elem ≡ f.slab
        → Perm (p ∷ flat laws.free part) (laws.free s' ++ flat laws.free o.rest)
    front f o free e = rw free (
        Perm.cons p (
          subst (λ s. Perm (flat laws.free part) (laws.free s ++ flat laws.free o.rest)) e
            (flat-perm laws.free o.same)))

    deallocate_part_fields :
        (f : Finds ops p part)
        → laws.Block p f.slab
        → Result p
            (deallocate_part ops p f.index (cache ops bs n laws cap sz fr part fu))
            (cache ops bs n laws cap sz fr part fu)
    unfolding deallocate_part
    deallocate_part_fields f block =
        let o = take_out-Extraction f.index part f.below in
        let slab-eq : o.elem ≡ f.slab = some-injective _ _ (sym o.at ∙ f.at) in
        let was = All-get_elem? (IsPart ops bs n laws) part f.index inv.part f.at in
        let (good, free) = laws.deallocate_lem p f.slab was.0 block was.2 in
        let s' = ops.deallocate p f.slab in
        let more : length (laws.free s') ≡ suc (length (laws.free f.slab)) = ap length free in
        let rest = (All-perm (IsPart ops bs n laws) o.same inv.part).1 in
        let pos = size_pos cap sz fr part fu inv (omega arith) (omega (arith, f.below)) in
        let joined = front f o {s' = s'} free slab-eq in
        let fewer = less (omega (arith, f.below)) in
        elim (Bool-cases (length (laws.free s') == n)) [
          | inl whole ↦
              let is_whole : length (laws.free s') ≡ n = ground arith in
              let lens : length (fr ++ s' ∷ []) + length o.rest + length fu
                  ≡ length fr + length part + length fu =
                omega (arith, length-perm o.same, length-append fr (s' ∷ [])) in
              (
                cache ops bs n laws cap (sz - 1) (fr ++ s' ∷ []) o.rest fu,
                rw (f.at, laws.is_empty_lem s' good, whole, o.taken s', fewer),
                record {
                  inv = record {
                    block = refl;
                    blocks = refl;
                    free =
                        All-append (IsFree ops bs n laws) fr (s' ∷ []) inv.free
                          ((good, is_whole), tt);
                    part = rest;
                    full = inv.full;
                    capacity = inv.capacity ∙ ap (λ k. n * k) (sym lens);
                    size = omega (
                      arith,
                      inv.size,
                      pos,
                      more,
                      total-append (room ops bs n laws) fr (s' ∷ []),
                      total-perm (room ops bs n laws) o.same,
                      ap (room ops bs n laws) slab-eq,
                    );
                  };
                  released = omega (arith, pos);
                  capacity = refl;
                  returned = Perm.trans (Perm.append_right (flat laws.free fr) joined) (
                      rw (flat-append laws.free fr (s' ∷ []), append-nil, append_assoc)
                        (Perm.trans
                          (perm_append_comm (laws.free s')
                            (flat laws.free o.rest ++ flat laws.free fr))
                          (rw append_assoc (Perm.refl _))));
                },
              )
          | inr partly ↦
              let again = o.same_set s' in
              let lens : length fr + length (set part f.index s') + length fu
                  ≡ length fr + length part + length fu =
                omega (arith, length-perm o.same, length-perm again) in
              (
                cache ops bs n laws cap (sz - 1) fr (set part f.index s') fu,
                rw (f.at, laws.is_empty_lem s' good, partly, fewer),
                record {
                  inv = record {
                    block = refl;
                    blocks = refl;
                    free = inv.free;
                    part =
                        All-perm (IsPart ops bs n laws) (Permᴰ.symm again)
                          ((good, omega (arith, more), ground (arith, more, was.2)), rest);
                    full = inv.full;
                    capacity = inv.capacity ∙ ap (λ k. n * k) (sym lens);
                    size = omega (
                      arith,
                      inv.size,
                      pos,
                      more,
                      total-perm (room ops bs n laws) again,
                      total-perm (room ops bs n laws) o.same,
                      ap (room ops bs n laws) slab-eq,
                    );
                  };
                  released = omega (arith, pos);
                  capacity = refl;
                  returned =
                      Perm.append_right (flat laws.free fr)
                        (Perm.trans joined (Perm.symm (flat-perm laws.free again)));
                },
              )
        ]

    -- `p` is the address of a block in each slab whose memory holds it.
    abbrev Aligned : List S → Type 0
    Aligned = All λ s. ops.contains_mem p s ≡ true → laws.Block p s

    deallocate_fields :
        Aligned fu
        → Aligned part
        → (holds ops p fu ≡ true) ⊎ (holds ops p part ≡ true)
        → Result p
            (deallocate ops p (cache ops bs n laws cap sz fr part fu))
            (cache ops bs n laws cap sz fr part fu)
    unfolding deallocate
    deallocate_fields at_full at_part held = elim (Bool-cases (holds ops p fu)) [
      | inl in_full ↦
          let f = search_store-Finds ops p fu in_full in
          let aligned =
            All-get_elem? (λ s. ops.contains_mem p s ≡ true → laws.Block p s) fu f.index at_full
              f.at in
          rw f.found (deallocate_full_fields f (aligned f.contains))
      | inr not_full ↦
          let in_part : holds ops p part ≡ true = ground (arith, held) in
          let f = search_store-Finds ops p part in_part in
          let aligned =
            All-get_elem? (λ s. ops.contains_mem p s ≡ true → laws.Block p s) part f.index at_part
              f.at in
          rw (search_store-none ops p fu not_full, f.found)
            (deallocate_part_fields f (aligned f.contains))
    ]

  -- `deallocate` of the address of a block in a slab that is full or partly used never runs into
  -- undefined behaviour: the block is free afterwards, all else is as free as before, the invariant
  -- is kept, and one object less is counted. The slabs have at least two blocks, and the capacity is
  -- a word.
  pub deallocate-Takes :
      (p : ℕ) (c : Cache S)
      → 2 ≤ n
      → c.my_capacity < 2 ^ 64
      → Inv ops bs n laws c
      → All (λ s. ops.contains_mem p s ≡ true → laws.Block p s) c.slabs_full
      → All (λ s. ops.contains_mem p s ≡ true → laws.Block p s) c.slabs_part
      → (holds ops p c.slabs_full ≡ true) ⊎ (holds ops p c.slabs_part ≡ true)
      → (c' : Cache S) × (deallocate ops p c ≡ some c') × Takes ops bs n laws c p c'
  deallocate-Takes p c two small inv at_full at_part held =
      by_fields ops bs n laws
        (λ c.
          c.my_capacity < 2 ^ 64
          → Inv ops bs n laws c
          → All (λ s. ops.contains_mem p s ≡ true → laws.Block p s) c.slabs_full
          → All (λ s. ops.contains_mem p s ≡ true → laws.Block p s) c.slabs_part
          → (holds ops p c.slabs_full ≡ true) ⊎ (holds ops p c.slabs_part ≡ true)
          → (c' : Cache S) × (deallocate ops p c ≡ some c') × Takes ops bs n laws c p c')
        (λ cap sz fr part fu i small inv af ap held.
          deallocate_fields cap sz p fr part fu two small inv af ap held)
        c inv small inv at_full at_part held
