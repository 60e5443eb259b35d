-- ===== src/SlabMulti/Gives.antt =====
-- `ImplSlabMulti::Cache::allocate` and the free blocks of the cache.
use mathlib.Core.List.{Perm, Permᴰ, Nodup, Mem, Nodup-cons, Nodup-append, perm_middle}
use mathlib.Core.List.Perm
use mathlib.Core.Option.{some-injective}
use allocators.Common.{
  ℕ, ◌-◌, if◌then◌else◌, ◌<◌, ◌≡◌, ◌⊎◌, inl, inr, refl, Bool, true, false, List, [], ◌∷◌, ◌++◌,
  some, ◌>>=◌, arith, get_elem?, set, length, ap, ◌∙◌, sym, subst, ◌==◌, Bool-cases, bind_inversion,
  length-set, get_elem?-set_here, elem_inside,
}
use allocators.SlabHelper.Splice.{flat-perm, back-append, pop_back-append}
use allocators.SlabMulti.Dispatcher.{GlobalDispatch, get_block, get_indicies}
use allocators.SlabMulti.Slab
use allocators.SlabMulti.Slab.{Slab}
use allocators.SlabMulti.Cache
use allocators.SlabMulti.Cache.{Cache, next_slab, allocate}
use allocators.SlabMulti.Pairs.{pairs, pairs-append}
use allocators.SlabMulti.Ready.{Ready, new, allocate-Ready}
use allocators.SlabMulti.Supply.{
  blocks, pair_blocks, supply, supply-give, blocks-merge_foreigns, supply-erase, supply-set,
}

module _ {A : Type 0} where
  swap_back_first :
      (a b : A) (xs : List A) → Cache.swap_back 0 (a ∷ xs ++ b ∷ []) ≡ some (b ∷ xs ++ a ∷ [])
  unfolding Cache.swap_back
  swap_back_first a b xs = rw (back-append (a ∷ xs) b, pop_back-append (a ∷ xs) b) refl

pairs-swap_back :
    {A B : Type 0} (k : ℕ) (xs xs' : List A) (ys ys' : List B) (b : A) (m : B)
    → k ≡ 0
    → 0 < length xs
    → length ys ≡ length xs
    → Cache.swap_back k (xs ++ b ∷ []) ≡ some xs'
    → Cache.swap_back k (ys ++ m ∷ []) ≡ some ys'
    → Permᴰ (pairs xs' ys') ((b, m) ∷ pairs xs ys)
pairs-swap_back k [] xs' ys ys' b m first pos same e e' = absurd (omega arith)
pairs-swap_back k (a ∷ xs) xs' [] ys' b m first pos same e e' = absurd (omega arith)
pairs-swap_back k (a ∷ xs) xs' (q ∷ ys) ys' b m first pos same e e' =
    let at_first : Cache.swap_back 0 (a ∷ xs ++ b ∷ []) ≡ some xs' = rw (← first) e in
    let at_first' : Cache.swap_back 0 (q ∷ ys ++ m ∷ []) ≡ some ys' = rw (← first) e' in
    let is = some-injective _ _ (sym (swap_back_first a b xs) ∙ at_first) in
    let is' = some-injective _ _ (sym (swap_back_first q m ys) ∙ at_first') in
    rw (← is, ← is') (Permᴰ.cons refl (pairs-append a q xs ys (omega arith)))

-- The slab gives `p`.
abbrev Gave : (s : Slab) (mem : ℕ) → (ℕ × Bool) × Slab → Type 0
Gave s mem got = Perm (blocks s mem) (got.0.0 ∷ blocks got.1 mem)

Slab_gives_fields :
    (mem bs n : ℕ) (l k : List ℕ) (got : (ℕ × Bool) × Slab)
    → Slab.allocate mem (record { block_size = bs; count = n; availible = l; foreigns = k })
      ≡ some got
    → Gave (record { block_size = bs; count = n; availible = l; foreigns = k }) mem got
unfolding Slab.allocate
Slab_gives_fields mem bs n [] k got e = absurd (cc)
Slab_gives_fields mem bs n (x ∷ l) k got e =
    subst (Gave (record { block_size = bs; count = n; availible = x ∷ l; foreigns = k }) mem)
      (some-injective _ _ e) Perm.rfl

pub Slab_gives :
    (mem : ℕ) (s : Slab) (got : (ℕ × Bool) × Slab) → Slab.allocate mem s ≡ some got → Gave s mem got
Slab_gives mem s got e = Slab_gives_fields mem s.block_size s.count s.availible s.foreigns got e

-- The blocks of `c` are those of `more` and those of a slab that the dispatcher supplies, or the same.
abbrev pub Supplies : (fresh : ℕ → ℕ) → GlobalDispatch → Cache → (before after : List ℕ) → Type 0
Supplies fresh d c before after =
    Perm before after
    ⊎ ((ids : List ℕ) × (mem : ℕ) × (d' : GlobalDispatch) × (get_indicies c.block_size d ≡ some ids)
        × (get_block fresh d ≡ some (mem, d'))
        × Perm (blocks (new c ids) mem ++ before) after)

-- What `add_cache` made of `c`.
abbrev pub Added : (fresh : ℕ → ℕ) → GlobalDispatch → Cache → GlobalDispatch × Cache → Type 0
Added fresh d c r =
    (ids : List ℕ) × (mem : ℕ) × (d' : GlobalDispatch) × (get_indicies c.block_size d ≡ some ids)
    × (get_block fresh d ≡ some (mem, d'))
    × (r.1.slabs ≡ c.slabs ++ new c ids ∷ [])
    × (r.1.ptrs ≡ c.ptrs ++ mem ∷ [])

pub add_cache-Added :
    (fresh : ℕ → ℕ) (d : GlobalDispatch) (c : Cache) (r : GlobalDispatch × Cache)
    → Cache.add_cache fresh d c ≡ some r
    → Added fresh d c r
unfolding Cache.add_cache
add_cache-Added fresh d c r e =
    let (ids, supply, e1) = bind_inversion (get_indicies c.block_size d) _ r e in
    let ((mem, d'), got, e2) = bind_inversion (get_block fresh d) _ r e1 in
    let is = some-injective _ _ e2 in
    (ids, mem, d', supply, got, ap (λ q. q.1.slabs) (sym is), ap (λ q. q.1.ptrs) (sym is))

module _ (fresh : ℕ → ℕ) (d : GlobalDispatch) (c : Cache) (s : Slab) (mem : ℕ)
    (same : length c.ptrs ≡ length c.slabs) (at : get_elem? c.slabs c.act ≡ some s)
    (at_mem : get_elem? c.ptrs c.act ≡ some mem) where
  next_new-Supplies :
      (r : GlobalDispatch × Cache)
      → c.act ≡ 0
      → (do
        (d', c') ← Cache.add_cache fresh d c
        slabs ← Cache.swap_back c.act c'.slabs
        ptrs ← Cache.swap_back c.act c'.ptrs
        some (d', record c' { slabs = slabs; ptrs = ptrs }))
        ≡ some r
      → Supplies fresh d c (supply c) (supply r.1)
  next_new-Supplies r first e =
      let (q, added, e1) = bind_inversion (Cache.add_cache fresh d c) _ r e in
      let (slabs, e_slabs, e2) = bind_inversion (Cache.swap_back c.act q.1.slabs) _ r e1 in
      let (ptrs, e_ptrs, e3) = bind_inversion (Cache.swap_back c.act q.1.ptrs) _ r e2 in
      let (ids, m, d', supplied, got, ss, ps) = add_cache-Added fresh d c q added in
      let swapped =
        pairs-swap_back c.act c.slabs slabs c.ptrs ptrs (new c ids) m first
          (omega (arith, elem_inside c.slabs c.act s at)) same (rw (← ss) e_slabs)
          (rw (← ps) e_ptrs) in
      let is = some-injective _ _ e3 in
      inr (ids, m, d', supplied, got, rw (← is) (Perm.symm (flat-perm pair_blocks swapped)))

  pub next_slab-Supplies :
      (r : GlobalDispatch × Cache)
      → next_slab fresh s d c ≡ some r
      → Supplies fresh d c (supply c) (supply r.1)
  unfolding next_slab
  next_slab-Supplies r e = elim (Bool-cases (Slab.full s)) [
    | inr more ↦
        let merged = record c { slabs = set c.slabs c.act (Slab.merge_foreigns s) } in
        let step : next_slab fresh s d c ≡ some (d, merged) = rw more refl in
        let is = some-injective _ _ (sym step ∙ e) in
        inl (
          rw (← is) (
            Perm.trans (supply-erase c.act c.slabs c.ptrs s mem at at_mem) (
              Perm.trans (Perm.append_right _ (blocks-merge_foreigns s mem)) (
                Perm.symm
                  (supply-set c.act c.slabs c.ptrs s mem at at_mem (Slab.merge_foreigns s))))))
    | inl none_left ↦ elim (Bool-cases (c.act == 0)) [
      | inl first ↦ next_new-Supplies r (ground arith) (sym (rw (none_left, first) refl) ∙ e)
      | inr later ↦
          let step : next_slab fresh s d c ≡ some (d, record c { act = c.act - 1 }) =
            rw (none_left, later) refl in
          let is = some-injective _ _ (sym step ∙ e) in inl (rw (← is) Perm.rfl)
    ]
  ]

next_or_same :
    (fresh : ℕ → ℕ) (d : GlobalDispatch) (possibly_full : Bool) (c : Cache) (s : Slab) (mem : ℕ)
    (q : GlobalDispatch × Cache)
    → length c.ptrs ≡ length c.slabs
    → get_elem? c.slabs c.act ≡ some s
    → get_elem? c.ptrs c.act ≡ some mem
    → (if possibly_full then next_slab fresh s d c else some (d, c)) ≡ some q
    → Supplies fresh d c (supply c) (supply q.1)
next_or_same fresh d true c s mem q same at at_mem e =
    next_slab-Supplies fresh d c s mem same at at_mem q e
next_or_same fresh d false c s mem q same at at_mem e =
    let is = some-injective _ _ e in inl (rw (← is) Perm.rfl)

give :
    (fresh : ℕ → ℕ) (d : GlobalDispatch) (c : Cache) (p : ℕ) (l k m : List ℕ)
    → Perm l (p ∷ k)
    → Supplies fresh d c k m
    → Supplies fresh d c l (p ∷ m)
give fresh d c p l k m given (inl kept) = inl (Perm.trans given (Perm.cons p kept))
give fresh d c p l k m given (inr (ids, mem, d', e, e', added)) = inr (
  ids,
  mem,
  d',
  e,
  e',
  Perm.trans (Perm.append_left _ given)
      (Perm.trans (perm_middle (blocks (new c ids) mem) k) (Perm.cons p added)),
)

module _ (fresh : ℕ → ℕ) (d : GlobalDispatch) (c : Cache) (r : ℕ × GlobalDispatch × Cache)
    (same : length c.ptrs ≡ length c.slabs) where
  allocates : allocate fresh d c ≡ some r → Supplies fresh d c (supply c) (r.0 ∷ supply r.2)
  unfolding allocate
  allocates e =
      let (s, at, e1) = bind_inversion (get_elem? c.slabs c.act) _ r e in
      let (mem, at_mem, e2) = bind_inversion (get_elem? c.ptrs c.act) _ r e1 in
      let (((p, possibly_full), s'), got, e3) = bind_inversion (Slab.allocate mem s) _ r e2 in
      let c' = record c { slabs = set c.slabs c.act s' } in
      let given : Perm (supply c) (p ∷ supply c') =
        supply-give c.act c.slabs c.ptrs s mem at at_mem p s' (Slab_gives mem s _ got) in
      let at' : get_elem? c'.slabs c.act ≡ some s' =
        get_elem?-set_here c.slabs c.act s' (elem_inside c.slabs c.act s at) in
      let same' : length c'.ptrs ≡ length c'.slabs = same ∙ sym (length-set c.slabs c.act s') in
      let (q, step, e4) =
        bind_inversion (if possibly_full then next_slab fresh s' d c' else some (d, c')) _ r e3 in
      let moved = next_or_same fresh d possibly_full c' s' mem q same' at' at_mem step in
      let is = some-injective _ _ e4 in
      rw (← is) (give fresh d c p (supply c) (supply c') (supply q.1) given moved)

module _ (fresh : ℕ → ℕ) (d : GlobalDispatch) (c : Cache) (r : Ready c) (i : ℕ) (rest : List ℕ)
    (supplied : get_indicies c.block_size d ≡ some (i ∷ rest)) where
  -- The free blocks of a cache, as a multiset, are the block that `allocate` gives out and those that
  -- are free afterwards, unless the cache took a slab from the dispatcher: then the blocks of that
  -- slab count as free before. The condition is that of `allocate-Ready`.
  pub allocate-Supplies :
      (p : ℕ) × (d' : GlobalDispatch) × (c' : Cache) × (allocate fresh d c ≡ some (p, d', c'))
      × Supplies fresh d c (supply c) (p ∷ supply c')
  allocate-Supplies =
      let (p, d', c', e, _) = allocate-Ready fresh d c r i rest supplied in
      (p, d', c', e, allocates fresh d c (p, d', c') r.same e)

  -- A block that `allocate` gives out is not free afterwards, and the free blocks are still distinct:
  -- it is not given out again before it comes back. The cache is one that `allocate-Ready` admits, and
  -- the free blocks and those of the slab that the dispatcher has next are distinct.
  pub allocate_apart :
      (mem : ℕ) (d1 : GlobalDispatch)
      → get_block fresh d ≡ some (mem, d1)
      → Nodup (blocks (new c (i ∷ rest)) mem ++ supply c)
      → (p : ℕ) × (d' : GlobalDispatch) × (c' : Cache) × (allocate fresh d c ≡ some (p, d', c'))
        × (¬ Mem p (supply c'))
        × Nodup (supply c')
  allocate_apart mem d1 next distinct =
      let (p, d', c', e, supplies) = allocate-Supplies in
      let split : Nodup (p ∷ supply c') = elim supplies [
        | inl same ↦
            Perm.nodup same
              (((Nodup-append {l₁ = blocks (new c (i ∷ rest)) mem} {l₂ = supply c}).0 distinct).1)
        | inr (ids, m, d2, e1, e2, added) ↦
            let same_ids : i ∷ rest ≡ ids = some-injective _ _ (sym supplied ∙ e1) in
            let same_mem : mem ≡ m = ap (λ q. q.0) (some-injective _ _ (sym next ∙ e2)) in
            Perm.nodup added (
              subst (λ (q : List ℕ × ℕ). Nodup (blocks (new c q.0) q.1 ++ supply c))
                (λ k. (same_ids k, same_mem k)) distinct)
      ] in
      let apart = Nodup-cons.0 split in (p, d', c', e, apart.0, apart.1)
