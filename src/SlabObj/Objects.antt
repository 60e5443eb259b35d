-- ===== src/SlabObj/Objects.antt =====
-- A slab of objects does to its blocks what a slab of raw memory does, so that a cache of either
-- keeps the same invariant; and when the objects are constructed and destructed.
use allocators.Common.{
  ℕ, zero, suc, ◌+◌, ◌*◌, ◌^◌, ◌≤◌, ◌<◌, ◌≡◌, refl, Bool, List, [], ◌∷◌, ◌++◌, Option, none, some,
  ◌==◌, arith, map, length, ap, All,
}
use allocators.SlabHelper.VecMap.{iota, range}
use allocators.SlabHelper.SlabOps.{SlabLaws}
use allocators.SlabHelper.Cache.{empty_cache}
use allocators.SlabMem.Slab as Mem
use allocators.SlabObj.Interface
use allocators.SlabObj.Slab
use allocators.SlabObj.Slab.{Slab, XtorCall, construct_all, construct_slab, ops}

head : (p : ℕ) (l : List ℕ) {q : ℕ} {k : List ℕ} → q ∷ k ≡ p ∷ l → q ≡ p
head p l e = cc

module _ (size : ℕ) where
  -- The slab of raw memory with blocks of the size of an object.
  abbrev pub raw : Slab → Mem.Slab
  raw s = record { mem = s.mem; block_size = size; count = s.count; availible = s.availible }

  -- What `allocate` returns, with the slab seen as raw memory.
  abbrev pub raw_result : Option ((ℕ × Bool) × Slab) → Option ((ℕ × Bool) × Mem.Slab)
  raw_result none = none
  raw_result (some (r, s)) = some (r, raw s)

  -- Each operation of a slab of objects is that of a slab of raw memory.
  pub raw-ops :
      (s : Slab) (p : ℕ)
      → (raw_result (Slab.allocate size s) ≡ Mem.allocate (raw s))
        × (raw (Slab.deallocate size p s) ≡ Mem.deallocate p (raw s))
        × (Slab.contains_mem size p s ≡ Mem.contains_mem p (raw s))
        × (Slab.is_empty size s ≡ Mem.is_empty (raw s))
  unfolding Slab.allocate Slab.deallocate Slab.contains_mem Slab.is_empty Mem.allocate
      Mem.deallocate Mem.contains_mem Mem.is_empty
  raw-ops s p = (ground arith, refl, refl, refl)

  module _ (n : ℕ) (pos : 0 < size) (fits : n ≤ 2 ^ 16) where
    abbrev Good : Slab → Type 0
    Good s = Mem.Good size n (raw s)

    abbrev Allocates : Slab → Type 0
    Allocates s =
        (p : ℕ) × (s' : Slab) × (Slab.allocate size s
          ≡ some ((p, length (Mem.free (raw s')) == 0), s'))
        × Good s'
        × (Mem.free (raw s) ≡ p ∷ Mem.free (raw s'))
        × Mem.Block size n p (raw s')

    allocate_fields :
        (mem c : ℕ) (l : List ℕ) (calls : List XtorCall)
        → c ≡ n
        → All (λ j. j < n) l
        → 0 < length l
        → Allocates (record { mem = mem; count = c; availible = l; calls = calls })
    unfolding Slab.allocate
    allocate_fields mem c [] calls e below some_free = elim some_free [ ]
    allocate_fields mem c (j ∷ l) calls e below some_free = (
      mem + j * size,
      record { mem = mem; count = c; availible = l; calls = calls },
      rw (Mem.length-map (λ j. mem + j * size) l, Mem.is_nil-length l),
      record { block = refl; blocks = e; below = below.1 },
      refl,
      (j, below.0, refl),
    )

    construct-Good :
        (mem : ℕ)
        → Good (construct_slab size size n mem (iota 0 n))
          × (length (Mem.free (raw (construct_slab size size n mem (iota 0 n)))) ≡ n)
    unfolding construct_slab Mem.construct
    construct-Good mem = Mem.construct-Good size n pos fits mem

    deallocate-Good :
        (p : ℕ) (s : Slab)
        → Good s
        → Mem.Block size n p (raw s)
        → Good (Slab.deallocate size p s)
          × (Mem.free (raw (Slab.deallocate size p s)) ≡ p ∷ Mem.free (raw s))
    unfolding Slab.deallocate Mem.deallocate
    deallocate-Good p s g b = Mem.deallocate-push size n pos fits p (raw s) g b

    is_empty_lem : (s : Slab) → Good s → Slab.is_empty size s ≡ (length (Mem.free (raw s)) == n)
    unfolding Slab.is_empty Mem.is_empty
    is_empty_lem s g = Mem.is_empty_lem size n pos fits (raw s) g

    allocate_lem : (s : Slab) → Good s → 0 < length (Mem.free (raw s)) → Allocates s
    allocate_lem s g some_free =
        allocate_fields s.mem s.count s.availible s.calls g.blocks g.below
          (omega (arith, Mem.length-free (raw s)))

    -- Slabs of objects have the laws of `SlabOps`: what holds of a cache of raw memory holds of the
    -- cache of a type.
    pub laws : SlabLaws (ops size) size n
    laws = record {
      free = λ s. Mem.free (raw s);
      Good = Good;
      Block = λ p s. Mem.Block size n p (raw s);
      construct_lem = construct-Good;
      allocate_lem = allocate_lem;
      deallocate_lem = λ p s g b room. deallocate-Good p s g b;
      is_empty_lem = is_empty_lem;
    }

    -- An object that comes back to a slab is destructed, is the next one that this slab gives out, and
    -- is not constructed again in between.
    pub allocate-deallocate :
        (p : ℕ) (s : Slab)
        → Good s
        → Mem.Block size n p (raw s)
        → (is_last : Bool) × (s' : Slab) × (Slab.allocate size (Slab.deallocate size p s)
            ≡ some ((p, is_last), s'))
          × (s'.calls ≡ s.calls ++ XtorCall.destruct p ∷ [])
          × (s'.availible ≡ s.availible)
    unfolding Slab.allocate Slab.deallocate
    allocate-deallocate p s g b = (
      Mem.is_nil s.availible,
      record s { calls = s.calls ++ XtorCall.destruct p ∷ [] },
      ap
          (λ (q : ℕ).
            some (
              (q, Mem.is_nil s.availible),
              record s { calls = s.calls ++ XtorCall.destruct p ∷ [] },
            ))
          (head p (Mem.free (raw s)) (deallocate-Good p s g b).1),
      refl,
      refl,
    )

  -- The constructor of a slab constructs each object once, in address order.
  pub calls-construct :
      (mem i n : ℕ)
      → construct_all size mem i n ≡ map (λ k. XtorCall.construct (mem + size * k)) (range i n)
  unfolding construct_all
  calls-construct mem i zero = refl
  calls-construct mem i (suc n) = rw (calls-construct mem (suc i) n)

-- An allocation before any `addCache` is undefined: the cache makes a slab of no blocks.
pub allocate-no_cache :
    (size fresh : ℕ)
    → Interface.allocate size fresh (record { vec_map = []; storage = empty_cache; xtors = 0 })
      ≡ none
unfolding Interface.allocate Slab.construct_slab Slab.allocate
allocate-no_cache size fresh = refl
