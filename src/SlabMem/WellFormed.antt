-- ===== src/SlabMem/WellFormed.antt =====
-- The invariant of `SlabMemImpl::Interface`, kept by `addCache`, `allocate`, `deallocate`, `freeAll`.
use allocators.Common.{
  bind_some, ℕ, zero, suc, ◌+◌, ◌*◌, ◌^◌, ◌≤◌, ◌<◌, ◌≡◌, ◌⊎◌, refl, inl, inr, true, List, [], ◌∷◌,
  ◌++◌, none, some, ◌==◌, ◌||◌, Bool-cases, arith, get_elem?, set, All, All-append, All-get_elem?,
  All-set, u64, ap, sym, ◌∙◌, subst,
}
use allocators.Helpers.Sizes.{slab_count}
use mathlib.Core.List.{map-append}
use mathlib.Core.Option.{some-injective}
use allocators.SlabHelper.VecMap.{VecMap, find, Has, add_to_map, add_to_map-Has, iota}
use allocators.SlabHelper.Cache
use allocators.SlabHelper.Cache.{Cache}
use allocators.SlabHelper.Search.{holds}
use allocators.SlabHelper.Inv.{Inv}
use allocators.SlabHelper.Allocate.{allocate-Gives, new_cache, construct-eq, new_cache-Inv}
use allocators.SlabHelper.Deallocate.{deallocate-Takes}
use allocators.SlabMem.Slab.{Slab, ops, laws, Block}
use allocators.SlabMem.Interface.{
  Interface, add_cache, find_bucket, allocate, deallocate, free_buckets, free_all,
}
use allocators.SlabMem.Buckets.{sizes, find_bucket_cases}

-- A cache whose slabs have at least two blocks, whose indices the table has.
pub record Ready (m : VecMap) (c : Cache Slab) : Type 0 where
  pub bs : ℕ
  pub n : ℕ
  pub pos : 0 < bs
  pub two : 2 ≤ n
  pub fits : n ≤ 2 ^ 16
  pub has : Has n m
  pub inv : Inv ops bs n (laws bs n pos fits) c

pub record WellFormed (w : Interface) : Type 0 where
  pub table : (k : ℕ) → (find k w.vec_map ≡ none) ⊎ Has k w.vec_map
  pub ready : All (Ready w.vec_map) w.buckets

sizes-set :
    (l : List (Cache Slab)) (i : ℕ) (c d : Cache Slab)
    → get_elem? l i ≡ some c
    → d.block_size ≡ c.block_size
    → sizes (set l i d) ≡ sizes l
sizes-set [] i c d at e = refl
sizes-set (x ∷ l) zero c d at e =
    ap (λ (k : ℕ). k ∷ sizes l)
      (e ∙ ap (λ (y : Cache Slab). y.block_size) (some-injective _ _ (sym at)))
sizes-set (x ∷ l) (suc i) c d at e = ap (λ (k : List ℕ). x.block_size ∷ k) (sizes-set l i c d at e)

-- Whatever the request, `allocate` returns an address, keeps the interface well formed, and changes
-- neither the table nor the block sizes of the caches, so that a later `deallocate` of the same size
-- goes to the same cache. No capacity overflows.
pub allocate-WellFormed :
    (fresh size count : ℕ) (w : Interface)
    → WellFormed w
    → All (λ c. c.my_capacity + c.count < 2 ^ 64) w.buckets
    → (p : ℕ) × (w' : Interface) × (allocate fresh size count w ≡ some (p, w'))
      × WellFormed w'
      × (w'.vec_map ≡ w.vec_map)
      × (sizes w'.buckets ≡ sizes w.buckets)
unfolding allocate
allocate-WellFormed fresh size count w wf small =
    elim (find_bucket_cases (u64 (count * size)) w.buckets) [
      | inl (e, _) ↦ (fresh, w, rw (e, allocate), wf, refl, refl)
      | inr (i, c, e, at, _, _) ↦
          let r = All-get_elem? (Ready w.vec_map) w.buckets i wf.ready at in
          let room = All-get_elem? (λ c. c.my_capacity + c.count < 2 ^ 64) w.buckets i small at in
          let (p, c', got, g) =
            allocate-Gives ops r.bs r.n (laws r.bs r.n r.pos r.fits) fresh w.vec_map r.two r.has c
              r.inv (omega (arith, r.inv.blocks)) in
          let same : c'.block_size ≡ c.block_size = g.inv.block ∙ sym r.inv.block in
          (
            p,
            record w { buckets = set w.buckets i c' },
            rw (e, at, got, allocate),
            record {
              table = wf.table;
              ready = All-set (Ready w.vec_map) w.buckets i c' wf.ready (record {
                bs = r.bs;
                n = r.n;
                pos = r.pos;
                two = r.two;
                fits = r.fits;
                has = r.has;
                inv = g.inv;
              });
            },
            refl,
            sizes-set w.buckets i c c' at same,
          )
    ]

-- `p` is the address of a block in each slab of the cache whose memory holds it, and one of them is
-- full or partly used.
pub record Given (p : ℕ) (c : Cache Slab) : Type 0 where
  pub at_full : All (λ s. ops.contains_mem p s ≡ true → Block c.block_size c.count p s) c.slabs_full
  pub at_part : All (λ s. ops.contains_mem p s ≡ true → Block c.block_size c.count p s) c.slabs_part
  pub held : (holds ops p c.slabs_full ≡ true) ⊎ (holds ops p c.slabs_part ≡ true)

-- `deallocate` of a block that the cache of its size has given out is defined, and keeps the
-- interface well formed, with the same table and block sizes. The capacities are words.
pub deallocate-WellFormed :
    (p size count : ℕ) (w : Interface)
    → WellFormed w
    → All (λ c. c.my_capacity < 2 ^ 64) w.buckets
    → ((i : ℕ) (c : Cache Slab)
        → find_bucket (u64 (count * size)) w.buckets ≡ some i
        → get_elem? w.buckets i ≡ some c
        → Given p c)
    → (w' : Interface) × (deallocate p size count w ≡ some w')
      × WellFormed w'
      × (w'.vec_map ≡ w.vec_map)
      × (sizes w'.buckets ≡ sizes w.buckets)
unfolding deallocate
deallocate-WellFormed p size count w wf small given =
    elim (find_bucket_cases (u64 (count * size)) w.buckets) [
      | inl (e, _) ↦ (w, rw (e, deallocate), wf, refl, refl)
      | inr (i, c, e, at, _, _) ↦
          let r = All-get_elem? (Ready w.vec_map) w.buckets i wf.ready at in
          let room = All-get_elem? (λ c. c.my_capacity < 2 ^ 64) w.buckets i small at in
          let out = given i c e at in
          let block = λ (l : List Slab).
            subst (λ (b : ℕ). All (λ s. ops.contains_mem p s ≡ true → Block b c.count p s) l)
              r.inv.block in
          let blocks = λ (l : List Slab).
            subst (λ (k : ℕ). All (λ s. ops.contains_mem p s ≡ true → Block r.bs k p s) l)
              r.inv.blocks in
          let (c', got, t) =
            deallocate-Takes ops r.bs r.n (laws r.bs r.n r.pos r.fits) p c r.two room r.inv
              (blocks c.slabs_full (block c.slabs_full out.at_full))
              (blocks c.slabs_part (block c.slabs_part out.at_part)) out.held in
          let same : c'.block_size ≡ c.block_size = t.inv.block ∙ sym r.inv.block in
          (
            record w { buckets = set w.buckets i c' },
            rw (e, at, got, deallocate),
            record {
              table = wf.table;
              ready = All-set (Ready w.vec_map) w.buckets i c' wf.ready (record {
                bs = r.bs;
                n = r.n;
                pos = r.pos;
                two = r.two;
                fits = r.fits;
                has = r.has;
                inv = t.inv;
              });
            },
            refl,
            sizes-set w.buckets i c c' at same,
          )
    ]

Ready-free_all : (m : VecMap) (c : Cache Slab) → Ready m c → Ready m (Cache.free_all c)
unfolding Cache.free_all
Ready-free_all m c r = record {
  bs = r.bs;
  n = r.n;
  pos = r.pos;
  two = r.two;
  fits = r.fits;
  has = r.has;
  inv = record {
    block = r.inv.block;
    blocks = r.inv.blocks;
    free = tt;
    part = tt;
    full = tt;
    capacity = omega arith;
    size = omega arith;
  };
}

free_buckets-Ready :
    (m : VecMap) (size : ℕ) (cs : List (Cache Slab))
    → All (Ready m) cs
    → All (Ready m) (free_buckets true size cs)
unfolding free_buckets
free_buckets-Ready m size [] h = tt
free_buckets-Ready m size (c ∷ cs) h = elim (Bool-cases ((size == 0) || (c.block_size == size))) [
  | inl hit ↦ rw hit (Ready-free_all m c h.0, h.1)
  | inr miss ↦ rw miss (h.0, free_buckets-Ready m size cs h.1)
]

-- `freeAll` keeps the interface well formed.
pub free_all-WellFormed : (size : ℕ) (w : Interface) → WellFormed w → WellFormed (free_all size w)
unfolding free_all
free_all-WellFormed size w wf = record {
  table = wf.table;
  ready = free_buckets-Ready w.vec_map size w.buckets wf.ready;
}

-- The table maps a key to its indices or not at all, also after an `addToMap`.
Sound-add_to_map :
    (k : ℕ) (m : VecMap)
    → ((i : ℕ) → (find i m ≡ none) ⊎ Has i m)
    → (j : ℕ) → (find j (add_to_map k m) ≡ none) ⊎ Has j (add_to_map k m)
unfolding add_to_map
Sound-add_to_map k m sound j = elim (sound k) [
  | inl new ↦ elim (Bool-cases (k == j)) [
    | inl hit ↦
        let same : k ≡ j = ground arith in
        inr (rw (new, add_to_map) (rw hit (ap (λ (i : ℕ). some (iota 0 i)) same)))
    | inr miss ↦ rw (new, add_to_map) (rw miss (sound j))
  ]
  | inr old ↦ rw (old, add_to_map) (sound j)
]

Has-add_to_map :
    (j k : ℕ) (m : VecMap)
    → ((i : ℕ) → (find i m ≡ none) ⊎ Has i m)
    → Has j m
    → Has j (add_to_map k m)
unfolding add_to_map
Has-add_to_map j k m sound h = elim (sound k) [
  | inl new ↦ elim (Bool-cases (k == j)) [
    | inl hit ↦
        let same : k ≡ j = ground arith in
        rw (new, add_to_map) (rw hit (ap (λ (i : ℕ). some (iota 0 i)) same))
    | inr miss ↦ rw (new, add_to_map) (rw miss h)
  ]
  | inr old ↦ rw (old, add_to_map) h
]

-- The key of an `addToMap` has its indices.
Has-added : (k : ℕ) (m : VecMap) → ((i : ℕ) → (find i m ≡ none) ⊎ Has i m) → Has k (add_to_map k m)
unfolding add_to_map
Has-added k m sound = elim (sound k) [
  | inl new ↦ add_to_map-Has k m new
  | inr old ↦ rw (old, add_to_map) old
]

Ready-add_to_map :
    (k : ℕ) (m : VecMap)
    → ((i : ℕ) → (find i m ≡ none) ⊎ Has i m)
    → (cs : List (Cache Slab)) → All (Ready m) cs
    → All (Ready (add_to_map k m)) cs
Ready-add_to_map k m sound [] h = tt
Ready-add_to_map k m sound (c ∷ cs) h = (
  record {
    bs = h.0.bs;
    n = h.0.n;
    pos = h.0.pos;
    two = h.0.two;
    fits = h.0.fits;
    has = Has-add_to_map h.0.n k m sound h.0.has;
    inv = h.0.inv;
  },
  Ready-add_to_map k m sound cs h.1,
)

module _ (page_size fresh bs count : ℕ) (w : Interface) (wf : WellFormed w) (pos : 0 < bs) (k : ℕ)
    (blocks : slab_count page_size bs count ≡ some k) (fits : k ≤ 2 ^ 16) where
  added : Cache Slab
  added = new_cache ops bs k (laws bs k pos fits) fresh

  add_cache-eq :
      add_cache page_size fresh bs count w
      ≡ some (record { vec_map = add_to_map k w.vec_map; buckets = w.buckets ++ added ∷ [] })
  unfolding add_cache added
  add_cache-eq =
      bind_some (slab_count page_size bs count) _ k blocks
      ∙ ap
          (λ (r : VecMap × Cache Slab).
            some (record { vec_map = r.0; buckets = w.buckets ++ r.1 ∷ [] }))
          (construct-eq ops bs k (laws bs k pos fits) fresh (add_to_map k w.vec_map)
            (Has-added k w.vec_map wf.table) (omega arith))

  -- `addCache` keeps the interface well formed, and appends a cache of the block size asked for, if
  -- that size is positive and the slabs get at least two blocks and no more than an index can name.
  pub add_cache-WellFormed :
      2 ≤ k
      → (w' : Interface) × (add_cache page_size fresh bs count w ≡ some w')
        × WellFormed w'
        × (sizes w'.buckets ≡ sizes w.buckets ++ bs ∷ [])
  unfolding added
  add_cache-WellFormed two =
      let m = add_to_map k w.vec_map in
      let l = laws bs k pos fits in
      (
        _,
        add_cache-eq,
        record {
          table = Sound-add_to_map k w.vec_map wf.table;
          ready =
              All-append (Ready m) w.buckets (added ∷ [])
                (Ready-add_to_map k w.vec_map wf.table w.buckets wf.ready)
                (
                  record {
                    bs = bs;
                    n = k;
                    pos = pos;
                    two = two;
                    fits = fits;
                    has = Has-added k w.vec_map wf.table;
                    inv = new_cache-Inv ops bs k l fresh;
                  },
                  tt,
                );
        },
        map-append (λ c. c.block_size) w.buckets (added ∷ []),
      )
