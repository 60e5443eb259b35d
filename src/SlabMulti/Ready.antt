-- ===== src/SlabMulti/Ready.antt =====
-- The invariant of `ImplSlabMulti::Cache`, on which `allocate` relies: the active slab and those before it
-- have an index to give out.
use allocators.Common.{
  elem_at, get_elem?-set_other, get_elem?-set_self, length-set, set-set, ℕ, zero, suc, ◌+◌, ◌-◌,
  ◌*◌, ◌≤◌, ◌<◌, ◌≡◌, ◌≢◌, refl, inl, inr, true, false, List, [], ◌∷◌, ◌++◌, some, Bool-cases,
  arith, get_elem?, set, length, ◌∙◌, sym, ◌==◌, ◌&&◌, subst, length-append, u64,
}
use allocators.SlabMulti.Dispatcher.{GlobalDispatch, get_indicies}
use allocators.SlabMulti.Slab
use allocators.SlabMulti.Slab.{Slab, push_all-length}
use allocators.SlabMem.Slab.{is_nil-length}
use allocators.SlabHelper.Splice.{back-append, pop_back-append}
use allocators.SlabMulti.Cache
use allocators.SlabMulti.Cache.{Cache, next_slab, allocate}
use mathlib.Core.Option.{some-injective}
use allocators.SlabMulti.Stock.{get_block_cases}

abbrev pub HasRoom : Slab → Type 0
HasRoom s = 0 < length s.availible

pub record Ready (c : Cache) : Type 0 where
  pub same : length c.ptrs ≡ length c.slabs
  pub inside : c.act < length c.slabs
  pub room : (j : ℕ) (s : Slab) → j ≤ c.act → get_elem? c.slabs j ≡ some s → HasRoom s

module _ {ℓ} {A : Type ℓ} where
  swap_new :
      (k : ℕ) (xs : List A) (b : A)
      → k ≡ 0
      → 0 < length xs
      → (ys : List A) × (Cache.swap_back k (xs ++ b ∷ []) ≡ some (b ∷ ys)) × (length ys ≡ length xs)
  unfolding Cache.swap_back
  swap_new k [] b e h = absurd (omega arith)
  swap_new k (y ∷ ys) b e h = (
    ys ++ y ∷ [],
    rw (e, back-append (y ∷ ys) b, pop_back-append (y ∷ ys) b) refl,
    omega (arith, length-append ys (y ∷ [])),
  )

-- The slab that `addCache` makes.
abbrev pub new : Cache → List ℕ → Slab
new c ids = record { block_size = c.block_size; count = c.count; availible = ids; foreigns = [] }

add_cache-eq :
    (fresh : ℕ → ℕ) (d : GlobalDispatch) (c : Cache) (ids : List ℕ)
    → get_indicies c.block_size d ≡ some ids
    → (mem : ℕ) × (d' : GlobalDispatch) × (Cache.add_cache fresh d c
        ≡ some (
          d',
          record c {
            slabs = c.slabs ++ new c ids ∷ [];
            ptrs = c.ptrs ++ mem ∷ [];
            my_capacity = u64 (c.my_capacity + c.count);
          },
        ))
unfolding Cache.add_cache
add_cache-eq fresh d c ids supply =
    let (mem, d', e, _, _) = get_block_cases fresh d in (mem, d', rw (supply, e) refl)

abbrev Allocates : (mem : ℕ) → Slab → Type 0
Allocates mem s =
    (p : ℕ) × (s' : Slab) × (Slab.allocate mem s ≡ some ((p, length s'.availible == 0), s'))

Slab_allocate_fields :
    (mem bs n : ℕ) (l k : List ℕ)
    → 0 < length l
    → Allocates mem (record { block_size = bs; count = n; availible = l; foreigns = k })
unfolding Slab.allocate
Slab_allocate_fields mem bs n [] k h = absurd (omega arith)
Slab_allocate_fields mem bs n (x ∷ l) k h = (
  mem + x * bs,
  record { block_size = bs; count = n; availible = l; foreigns = k },
  rw (is_nil-length l) refl,
)

Slab_allocate : (mem : ℕ) (s : Slab) → HasRoom s → Allocates mem s
Slab_allocate mem s room = Slab_allocate_fields mem s.block_size s.count s.availible s.foreigns room

merge_foreigns-HasRoom : (s : Slab) → 0 < length s.foreigns → HasRoom (Slab.merge_foreigns s)
unfolding Slab.merge_foreigns
merge_foreigns-HasRoom s h = omega (arith, push_all-length s.foreigns s.availible)

foreigns_pos : (s : Slab) → Slab.full s ≡ false → length s.availible ≡ 0 → 0 < length s.foreigns
unfolding Slab.full
foreigns_pos s more none_own =
    let e : ((length s.availible == 0) && (length s.foreigns == 0)) ≡ false =
      rw (← is_nil-length s.availible, ← is_nil-length s.foreigns) more in
    ground arith

-- The slabs up to the index `act` have room.
abbrev Rooms : (act : ℕ) → List Slab → Type 0
Rooms act l = (j : ℕ) (s : Slab) → j ≤ act → get_elem? l j ≡ some s → HasRoom s

first_room : (act : ℕ) (s : Slab) (l : List Slab) → act ≡ 0 → HasRoom s → Rooms act (s ∷ l)
first_room act s l e room zero t le at = subst HasRoom (some-injective _ _ at) room
first_room act s l e room (suc j) t le at = absurd (omega arith)

set-Rooms :
    (act k : ℕ) (l : List Slab) (x : Slab)
    → ((j : ℕ) (s : Slab) → j ≤ act → k ≢ j → get_elem? l j ≡ some s → HasRoom s)
    → HasRoom x
    → Rooms act (set l k x)
set-Rooms act k l x rooms room j s le at = elim (Bool-cases (k == j)) [
  | inl here ↦
      let e : k ≡ j = ground arith in
      let at' : get_elem? (set l k x) k ≡ some s =
        subst (λ (i : ℕ). get_elem? (set l k x) i ≡ some s) (sym e) at in
      subst HasRoom (get_elem?-set_self l k x s at') room
  | inr else_where ↦
      let ne : k ≢ j = ground arith in rooms j s le ne (sym (get_elem?-set_other l k j x ne) ∙ at)
]

set-Rooms_other :
    (act k : ℕ) (l : List Slab) (x : Slab)
    → ((j : ℕ) (s : Slab) → j ≤ act → k ≢ j → get_elem? l j ≡ some s → HasRoom s)
    → ((j : ℕ) → j ≤ act → k ≢ j)
    → Rooms act (set l k x)
set-Rooms_other act k l x rooms apart j s le at =
    rooms j s le (apart j le) (sym (get_elem?-set_other l k j x (apart j le)) ∙ at)

module _ (fresh : ℕ → ℕ) (d : GlobalDispatch) (c : Cache) (r : Ready c) (i : ℕ) (rest : List ℕ)
    (supply : get_indicies c.block_size d ≡ some (i ∷ rest)) where
  -- The cache once the active slab has become `s`.
  abbrev took : Slab → Cache
  took s = record c { slabs = set c.slabs c.act s }

  others : (j : ℕ) (s : Slab) → j ≤ c.act → c.act ≢ j → get_elem? c.slabs j ≡ some s → HasRoom s
  others j s le _ at = r.room j s le at

  abbrev Continues : Slab → Type 0
  Continues s =
      (d' : GlobalDispatch) × (c' : Cache) × (next_slab fresh s d (took s) ≡ some (d', c'))
      × Ready c'

  next_merged : (s : Slab) → Slab.full s ≡ false → length s.availible ≡ 0 → Continues s
  unfolding next_slab Slab.full Slab.merge_foreigns
  next_merged s more none_own = (
    d,
    took (Slab.merge_foreigns s),
    rw (more, set-set c.slabs c.act s (Slab.merge_foreigns s)) refl,
    record {
      same = r.same ∙ sym (length-set c.slabs c.act (Slab.merge_foreigns s));
      inside = omega (arith, r.inside, length-set c.slabs c.act (Slab.merge_foreigns s));
      room =
          set-Rooms c.act c.act c.slabs (Slab.merge_foreigns s) others
            (merge_foreigns-HasRoom s (foreigns_pos s more none_own));
    },
  )

  next_before : (s : Slab) → Slab.full s ≡ true → (c.act == 0) ≡ false → Continues s
  unfolding next_slab
  next_before s none_left later = (
    d,
    record c { slabs = set c.slabs c.act s; act = c.act - 1 },
    rw (none_left, later) refl,
    record {
      same = r.same ∙ sym (length-set c.slabs c.act s);
      inside = omega (arith, r.inside, length-set c.slabs c.act s);
      room =
          set-Rooms_other (c.act - 1) c.act c.slabs s (λ j t le ne at. r.room j t (omega arith) at)
            (λ j le. ground arith);
    },
  )

  next_new : (s : Slab) → Slab.full s ≡ true → (c.act == 0) ≡ true → Continues s
  unfolding next_slab
  next_new s none_left first =
      let at : c.act ≡ 0 = ground arith in
      let len = length-set c.slabs c.act s in
      let (mem, d', e) = add_cache-eq fresh d (took s) (i ∷ rest) supply in
      let (slabs, e1, l1) =
        swap_new c.act (set c.slabs c.act s) (new c (i ∷ rest)) at (omega (arith, r.inside, len)) in
      let (ptrs, e2, l2) = swap_new c.act c.ptrs mem at (omega (arith, r.inside, r.same)) in
      (
        d',
        record c {
          slabs = new c (i ∷ rest) ∷ slabs;
          ptrs = mem ∷ ptrs;
          my_capacity = u64 (c.my_capacity + c.count);
        },
        rw (none_left, first, e, e1, e2) refl,
        record {
          same = omega (arith, l1, l2, r.same, len);
          inside = omega (arith, at);
          room = first_room c.act (new c (i ∷ rest)) slabs at (omega arith);
        },
      )

  next_slab-Ready : (s : Slab) → length s.availible ≡ 0 → Continues s
  next_slab-Ready s none_own = elim (Bool-cases (Slab.full s)) [
    | inr more ↦ next_merged s more none_own
    | inl none_left ↦ elim (Bool-cases (c.act == 0)) [
      | inl first ↦ next_new s none_left first
      | inr later ↦ next_before s none_left later
    ]
  ]

  -- `allocate` of a cache whose active slab and those before it have indices never runs into
  -- undefined behaviour, and leaves such a cache, if the dispatcher has indices for the block size
  -- of the cache: the next slab, the returned blocks or a new slab take the place of one that is used
  -- up.
  pub allocate-Ready :
      (p : ℕ) × (d' : GlobalDispatch) × (c' : Cache) × (allocate fresh d c ≡ some (p, d', c'))
      × Ready c'
  unfolding allocate
  allocate-Ready =
      let (s, at) = elem_at c.slabs c.act r.inside in
      let (mem, at_mem) = elem_at c.ptrs c.act (omega (arith, r.inside, r.same)) in
      let (p, s', got) = Slab_allocate mem s (r.room c.act s (omega arith) at) in
      elim (Bool-cases (length s'.availible == 0)) [
        | inl last ↦
            let (d', c', e, ready) = next_slab-Ready s' (ground arith) in
            (
              p,
              d',
              record c' { my_size = u64 (c'.my_size + 1) },
              rw (at, at_mem, got, last, e) refl,
              record { same = ready.same; inside = ready.inside; room = ready.room },
            )
        | inr more ↦ (
          p,
          d,
          record c { slabs = set c.slabs c.act s'; my_size = u64 (c.my_size + 1) },
          rw (at, at_mem, got, more) refl,
          record {
            same = r.same ∙ sym (length-set c.slabs c.act s');
            inside = omega (arith, r.inside, length-set c.slabs c.act s');
            room = set-Rooms c.act c.act c.slabs s' others (ground arith);
          },
        )
      ]
