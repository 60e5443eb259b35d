-- ===== src/SlabHelper/SlabOps.antt =====
-- What `SlabImpl::Cache<Slab>` uses of its template parameter, and what it relies on.
use allocators.Common.{ℕ, ◌<◌, ◌≡◌, Bool, List, ◌∷◌, Option, some, ◌==◌, length}
use allocators.SlabHelper.VecMap.{iota}

-- `allocate` is undefined on a slab with no free block: `none`.
pub record SlabOps {ℓ} (S : Type ℓ) : Type ℓ where
  pub construct : (block_size count mem : ℕ) → List ℕ → S
  pub allocate : S → Option ((ℕ × Bool) × S)
  pub deallocate : (ptr : ℕ) → S → S
  pub contains_mem : (ptr : ℕ) → S → Bool
  pub is_empty : S → Bool

-- The laws of slabs of `count` blocks of one size: `free` is the list of the addresses of the free
-- blocks, the next one first, and `Block p s` says that a block of `s` begins at `p`.
pub record SlabLaws {ℓ} {S : Type ℓ} (ops : SlabOps S) (block_size count : ℕ) : Type (ℓ + 1) where
  pub free : S → List ℕ
  pub Good : S → Type 0
  pub Block : ℕ → S → Type 0
  pub construct_lem :
      (mem : ℕ)
      → Good (ops.construct block_size count mem (iota 0 count))
        × (length (free (ops.construct block_size count mem (iota 0 count))) ≡ count)
  pub allocate_lem :
      (s : S)
      → Good s
      → 0 < length (free s)
      → (p : ℕ) × (s' : S) × (ops.allocate s ≡ some ((p, length (free s') == 0), s'))
        × Good s'
        × (free s ≡ p ∷ free s')
        × Block p s'
  pub deallocate_lem :
      (p : ℕ) (s : S)
      → Good s
      → Block p s
      → length (free s) < count
      → Good (ops.deallocate p s) × (free (ops.deallocate p s) ≡ p ∷ free s)
  pub is_empty_lem : (s : S) → Good s → ops.is_empty s ≡ (length (free s) == count)
