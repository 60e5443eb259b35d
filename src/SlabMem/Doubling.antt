-- ===== src/SlabMem/Doubling.antt =====
-- `addCache2` of SlabMem: caches whose block sizes double, up to a largest one.
use mathlib.Core.List.{append_assoc, map-append, append-nil}
use allocators.Common.{
  ℕ, zero, suc, ◌*◌, ◌≤◌, ◌<◌, ◌^◌, ◌≡◌, refl, inl, inr, true, false, List, [], ◌∷◌, ◌++◌, some,
  Bool-cases, arith, leb, leb→le, u64, ap, ◌∙◌, sym, All, bind_some,
}
use allocators.Helpers.Sizes.{slab_count, slab_count-some}
use allocators.SlabMem.Interface.{Interface, add_cache, add_cache2}
use allocators.SlabMem.Buckets.{sizes}

-- The sizes from `start` on, each twice the one before it.
abbrev pub doublings : (n start : ℕ) → List ℕ
doublings zero start = []
doublings (suc n) start = start ∷ doublings n (start * 2)

-- The size after `n` doublings.
abbrev pub doubled : (n start : ℕ) → ℕ
doubled zero start = start
doubled (suc n) start = doubled n (start * 2)

doubled_mono : (n a b : ℕ) → a ≤ b → doubled n a ≤ doubled n b
doubled_mono zero a b le = le
doubled_mono (suc n) a b le = doubled_mono n (a * 2) (b * 2) (omega arith)

-- What `addCache2` adds.
abbrev pub Doubles : (max_size start : ℕ) (w w' : Interface) → Type 0
Doubles max_size start w w' =
    (n : ℕ) × (sizes w'.buckets ≡ sizes w.buckets ++ doublings n start)
    × All (λ s. s ≤ max_size) (doublings n start)
    × (max_size < doubled n start)

add_cache-sizes :
    (page_size fresh block_size count : ℕ) (w : Interface)
    → 0 < block_size
    → (w' : Interface) × (add_cache page_size fresh block_size count w ≡ some w')
      × (sizes w'.buckets ≡ sizes w.buckets ++ block_size ∷ [])
unfolding add_cache
add_cache-sizes page_size fresh block_size count w pos = (
  _,
  bind_some (slab_count page_size block_size count) _ _
      (slab_count-some page_size block_size count pos),
  map-append (λ c. c.block_size) w.buckets _,
)

module _ (fuel page_size : ℕ) (fresh : ℕ → ℕ) (start max_size count : ℕ) (w : Interface) where
  add_cache2_stop :
      leb start max_size ≡ false
      → add_cache2 (suc fuel) page_size fresh start max_size count w ≡ some w
  unfolding add_cache2
  add_cache2_stop over = rw over refl

  add_cache2_more :
      (w1 : Interface)
      → add_cache page_size (fresh 0) start count w ≡ some w1
      → leb start max_size ≡ true
      → u64 (start * 2) ≡ start * 2
      → add_cache2 (suc fuel) page_size fresh start max_size count w
        ≡ add_cache2 fuel page_size (λ i. fresh (suc i)) (start * 2) max_size count w1
  unfolding add_cache2
  add_cache2_more w1 made fits twice = rw (fits, twice, made) refl

add_cache2_ends :
    (fuel page_size : ℕ) (fresh : ℕ → ℕ) (start max_size count : ℕ) (w : Interface)
    → max_size < doubled fuel start
    → 0 < start
    → max_size < 2 ^ 63
    → (w' : Interface) × (add_cache2 (suc fuel) page_size fresh start max_size count w ≡ some w')
      × Doubles max_size start w w'
add_cache2_ends zero page_size fresh start max_size count w large pos word =
    let over : leb start max_size ≡ false = ground arith in
    (
      w,
      add_cache2_stop 0 page_size fresh start max_size count w over,
      (0, sym (append-nil (sizes w.buckets)), tt, large),
    )
add_cache2_ends (suc fuel) page_size fresh start max_size count w large pos word =
    elim (Bool-cases (leb start max_size)) [
      | inr over ↦ (
        w,
        add_cache2_stop (suc fuel) page_size fresh start max_size count w over,
        (0, sym (append-nil (sizes w.buckets)), tt, ground arith),
      )
      | inl fits ↦
          let (w1, made, added) = add_cache-sizes page_size (fresh 0) start count w pos in
          let twice : u64 (start * 2) ≡ start * 2 = omega (arith, leb→le _ _ fits) in
          let (w', e, (n, same, below, above)) =
            add_cache2_ends fuel page_size (λ i. fresh (suc i)) (start * 2) max_size count w1 large
              (omega arith) word in
          (
            w',
            add_cache2_more (suc fuel) page_size fresh start max_size count w w1 made fits twice
                ∙ e,
            (
              suc n,
              same
                  ∙ ap (λ k. k ++ doublings n (start * 2)) added
                  ∙ append_assoc (sizes w.buckets) (start ∷ []) (doublings n (start * 2)),
              (leb→le _ _ fits, below),
              above,
            ),
          )
    ]

module _ (page_size : ℕ) (fresh : ℕ → ℕ) (start max_size count : ℕ) (w : Interface) where
  -- `addCache2` ends within 64 rounds, and appends a cache for the first size and for each doubling of
  -- it that is not above the largest size, in order. The first size is positive, and the largest one is
  -- below 2 ^ 63: beyond, the size wraps to 0.
  pub add_cache2-sizes :
      0 < start
      → max_size < 2 ^ 63
      → (w' : Interface) × (add_cache2 64 page_size fresh start max_size count w ≡ some w')
        × (n : ℕ) × (sizes w'.buckets ≡ sizes w.buckets ++ doublings n start)
        × All (λ s. s ≤ max_size) (doublings n start)
        × (max_size < doubled n start)
  add_cache2-sizes pos word =
      let least : doubled 63 1 ≡ 2 ^ 63 = refl in
      let (w', e, (n, same, below, above)) =
        add_cache2_ends 63 page_size fresh start max_size count w
          (omega (arith, least, doubled_mono 63 1 start pos)) pos word in
      (w', e, n, same, below, above)
