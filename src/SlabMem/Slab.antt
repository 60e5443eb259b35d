-- ===== src/SlabMem/Slab.antt =====
-- Allocators/SlabMem.h, `SlabMemImpl::Slab`: `count` blocks of `block_size` bytes behind the address
-- `mem`, and the indices of the free ones, the back of the vector first.
use native.Mathlib.Nat.{mul-div_left}
use allocators.Common.{
  ℕ, suc, ◌+◌, ◌-◌, ◌*◌, ◌/◌, ◌%◌, ◌^◌, ◌≤◌, ◌<◌, ◌≡◌, refl, Bool, true, false, ◌&&◌, List, [], ◌∷◌,
  Option, none, some, ◌==◌, ltb, leb, arith, map, length, All, ap, sym,
}
use allocators.SlabHelper.VecMap.{iota, range, iota-range, index_size}
use allocators.SlabHelper.SlabOps.{SlabOps, SlabLaws}

pub record Slab : Type 0 where
  pub mem : ℕ
  pub block_size : ℕ
  pub count : ℕ
  pub availible : List ℕ

abbrev pub is_nil {ℓ} : {A : Type ℓ} → List A → Bool
is_nil [] = true
is_nil (x ∷ xs) = false

unfoldable pub construct : (block_size count mem : ℕ) → List ℕ → Slab
construct block_size count mem indices = record {
  mem = mem;
  block_size = block_size;
  count = count;
  availible = indices;
}

unfoldable pub full : Slab → Bool
full s = is_nil s.availible

unfoldable pub size : Slab → ℕ
size s = (s.count + 2 ^ 64 - length s.availible) % 2 ^ 64

unfoldable pub is_empty : Slab → Bool
is_empty s = length s.availible == s.count

unfoldable pub allocate : Slab → Option ((ℕ × Bool) × Slab)
allocate s = elim s.availible [
  | [] ↦ none
  | idx ∷ rest ↦ some ((s.mem + idx * s.block_size, is_nil rest), record s { availible = rest })
]

unfoldable pub deallocate : (ptr : ℕ) → Slab → Slab
unfolding index_size
deallocate ptr s = record s { availible = index_size ((ptr - s.mem) / s.block_size) ∷ s.availible }

unfoldable pub contains_mem : (ptr : ℕ) → Slab → Bool
contains_mem ptr s = leb s.mem ptr && ltb ptr (s.mem + s.block_size * s.count)

pub is_nil-length : (l : List ℕ) → is_nil l ≡ (length l == 0)
is_nil-length [] = refl
is_nil-length (x ∷ l) = ground arith

abbrev pub ops : SlabOps Slab
ops = record {
  construct = construct;
  allocate = allocate;
  deallocate = deallocate;
  contains_mem = contains_mem;
  is_empty = is_empty;
}

-- The addresses of the free blocks.
abbrev pub free : Slab → List ℕ
free s = map (λ j. s.mem + j * s.block_size) s.availible

pub record Good (block_size count : ℕ) (s : Slab) : Type 0 where
  pub block : s.block_size ≡ block_size
  pub blocks : s.count ≡ count
  pub below : All (λ j. j < count) s.availible

abbrev pub Block : (block_size count : ℕ) → ℕ → Slab → Type 0
Block block_size count p s = (k : ℕ) × (k < count) × (p ≡ s.mem + k * block_size)

pub length-map : (f : ℕ → ℕ) (l : List ℕ) → length (map f l) ≡ length l
length-map f [] = refl
length-map f (x ∷ l) = ap suc (length-map f l)

pub length-free : (s : Slab) → length (free s) ≡ length s.availible
length-free s = length-map (λ j. s.mem + j * s.block_size) s.availible

range-below : (i n k : ℕ) → i + n ≤ k → All (λ j. j < k) (range i n)
range-below i ℕ.zero k h = tt
range-below i (suc n) k h = (omega arith, range-below (suc i) n k (omega arith))

length-range : (i n : ℕ) → length (range i n) ≡ n
length-range i ℕ.zero = refl
length-range i (suc n) = ap suc (length-range (suc i) n)

module _ (bs n : ℕ) (pos : 0 < bs) (fits : n ≤ 2 ^ 16) where
  pub construct-Good :
      (mem : ℕ)
      → Good bs n (construct bs n mem (iota 0 n))
        × (length (free (construct bs n mem (iota 0 n))) ≡ n)
  unfolding construct
  construct-Good mem = rw (iota-range 0 n (omega arith)) (
    record { block = refl; blocks = refl; below = range-below 0 n n (omega arith) },
    omega (arith, length-map (λ j. mem + j * bs) (range 0 n), length-range 0 n),
  )

  -- A slab with a free block gives out the one at the back of the vector, and says whether it was
  -- the last.
  abbrev pub Allocates : Slab → Type 0
  Allocates s =
      (p : ℕ) × (s' : Slab) × (allocate s ≡ some ((p, length (free s') == 0), s'))
      × Good bs n s'
      × (free s ≡ p ∷ free s')
      × Block bs n p s'

  allocate_fields :
      (mem b c : ℕ) (l : List ℕ)
      → b ≡ bs
      → c ≡ n
      → All (λ j. j < n) l
      → 0 < length l
      → Allocates (record { mem = mem; block_size = b; count = c; availible = l })
  unfolding allocate
  allocate_fields mem b c [] eb ec below some_free = elim some_free [ ]
  allocate_fields mem b c (j ∷ l) eb ec below some_free = (
    mem + j * b,
    record { mem = mem; block_size = b; count = c; availible = l },
    rw (length-map (λ j. mem + j * b) l, is_nil-length l),
    record { block = eb; blocks = ec; below = below.1 },
    refl,
    (j, below.0, rw eb),
  )

  pub allocate_lem : (s : Slab) → Good bs n s → 0 < length (free s) → Allocates s
  allocate_lem s g some_free =
      allocate_fields s.mem s.block_size s.count s.availible g.block g.blocks g.below
        (omega (arith, length-free s))

  -- A block that comes back is the next to go out, and the slab is as good as before.
  pub deallocate-push :
      (p : ℕ) (s : Slab)
      → Good bs n s
      → Block bs n p s
      → Good bs n (deallocate p s) × (free (deallocate p s) ≡ p ∷ free s)
  unfolding deallocate index_size
  deallocate-push p s g (k, lt, e) =
      let off : p - s.mem ≡ k * bs = omega arith in
      let idx : (p - s.mem) / bs ≡ k = rw off (mul-div_left k pos) in
      let same : k % 2 ^ 16 ≡ k = omega arith in
      let head : s.mem + (p - s.mem) / s.block_size % 2 ^ 16 * s.block_size ≡ p =
        rw (g.block, idx, same) (sym e) in
      (
        record {
          block = g.block;
          blocks = g.blocks;
          below = (rw (g.block, idx, same) lt, g.below);
        },
        ap (λ (q : ℕ). q ∷ free s) head,
      )

  pub is_empty_lem : (s : Slab) → Good bs n s → is_empty s ≡ (length (free s) == n)
  unfolding is_empty
  is_empty_lem s g = rw (g.blocks, length-free s)

-- The laws of `SlabOps`, for blocks of positive size whose indices an `IndexSizeT` holds.
abbrev pub laws :
    (block_size count : ℕ) → 0 < block_size → count ≤ 2 ^ 16 → SlabLaws ops block_size count
laws bs n pos fits = record {
  free = free;
  Good = Good bs n;
  Block = Block bs n;
  construct_lem = construct-Good bs n pos fits;
  allocate_lem = allocate_lem bs n pos fits;
  deallocate_lem = λ p s g b room. deallocate-push bs n pos fits p s g b;
  is_empty_lem = is_empty_lem bs n pos fits;
}
