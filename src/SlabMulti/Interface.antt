-- ===== src/SlabMulti/Interface.antt =====
-- Allocators/ImplSlabMulti.h, `Bucket`; Allocators/SlabMulti.h, `Interface`:
-- the caches of each thread, in the order in which the threads were registered. Address 0 is the null
-- pointer. `raw` is what `operator new` returns for a request beyond all caches, `fresh` what it
-- returns to the dispatcher.
use allocators.Common.{
  ℕ, suc, ◌*◌, ◌≡◌, ◌≢◌, refl, Bool, true, false, List, [], ◌∷◌, Option, none, some, ◌>>=◌, ◌==◌,
  if◌then◌else◌, Bool-cases, inl, inr, Option-cases, arith, ap, sym, ◌∙◌, get_elem?, set, u64,
}
use mathlib.Core.Option.{some-injective}
use allocators.SlabMulti.Dispatcher.{GlobalDispatch, cache_sizes, blocks_per_slab, find_cache_idx}
use allocators.SmpContainer.{emplace, find, write, iterate}
use allocators.SlabMulti.Cache
use allocators.SlabMulti.Cache.{Cache}

abbrev pub Bucket : Type 0
Bucket = List Cache

-- The loop of `Bucket()`.
unfoldable pub add_caches :
    (fresh : ℕ → ℕ → ℕ) (blocks sizes : List ℕ) → GlobalDispatch → Option (GlobalDispatch × Bucket)
unfolding Cache.construct
add_caches fresh (n ∷ blocks) (s ∷ sizes) d = do
  (d', c) ← Cache.construct (fresh 0) n s d
  (d'', cs) ← add_caches (λ i. fresh (suc i)) blocks sizes d'
  some (d'', c ∷ cs)
add_caches fresh [] sizes d = some (d, [])
add_caches fresh (n ∷ blocks) [] d = some (d, [])

unfoldable pub new_bucket : (fresh : ℕ → ℕ → ℕ) → GlobalDispatch → Option (GlobalDispatch × Bucket)
unfolding add_caches cache_sizes blocks_per_slab
new_bucket fresh d = add_caches fresh blocks_per_slab cache_sizes d

unfoldable pub bucket_allocate :
    (raw : ℕ) (fresh : ℕ → ℕ) (idx : Option ℕ)
    → GlobalDispatch
    → Bucket
    → Option (ℕ × GlobalDispatch × Bucket)
unfolding Cache.allocate
bucket_allocate raw fresh none d b = some (raw, d, b)
bucket_allocate raw fresh (some i) d b = do
  c ← get_elem? b i
  (p, d', c') ← Cache.allocate fresh d c
  some (p, d', set b i c')

unfoldable pub bucket_deallocate :
    (ptr : ℕ) (idx : Option ℕ) (this_thread : Bool) → Bucket → Option (Bool × Bucket)
unfolding Cache.deallocate
bucket_deallocate ptr none this_thread b = some (true, b)
bucket_deallocate ptr (some i) this_thread b = do
  c ← get_elem? b i
  (found, c') ← Cache.deallocate ptr this_thread c
  some (found, set b i c')

abbrev pub Buckets : Type 0
Buckets = List (ℕ × Bucket)

-- The lambda of `allocate` under `findDo`: the null pointer where the thread has no bucket.
unfoldable pub allocate_in :
    (raw : ℕ) (fresh : ℕ → ℕ) (id : ℕ) (idx : Option ℕ)
    → GlobalDispatch
    → Buckets
    → Option (ℕ × GlobalDispatch × Buckets)
unfolding bucket_allocate write find
allocate_in raw fresh id idx d bs = elim (find id bs) [
  | none ↦ some (0, d, bs)
  | some b ↦ do (p, d', b') ← bucket_allocate raw fresh idx d b; some (p, d', write id b' bs)
]

unfoldable pub register_thread :
    (fresh : ℕ → ℕ → ℕ) (id : ℕ) → GlobalDispatch → Buckets → Option (GlobalDispatch × Buckets)
unfolding new_bucket emplace
register_thread fresh id d bs = do (d', b) ← new_bucket fresh d; some (d', emplace id b bs)

-- `allocate<T>(count)` of the thread `id`, where `size` is `sizeof(T)`.
unfoldable pub allocate :
    (raw : ℕ) (fresh : ℕ → ℕ → ℕ) (id size count : ℕ)
    → GlobalDispatch
    → Buckets
    → Option (ℕ × GlobalDispatch × Buckets)
unfolding allocate_in register_thread find_cache_idx cache_sizes
allocate raw fresh id size count d bs = do
  let idx = find_cache_idx (u64 (size * count)) cache_sizes
  (p, d1, bs1) ← allocate_in raw (fresh 0) id idx d bs
  if p == 0
      then (do
        (d2, bs2) ← register_thread (λ i. fresh (suc (suc i))) id d1 bs1
        allocate_in raw (fresh 1) id idx d2 bs2)
      else some (p, d1, bs1)

-- The lambda of `deallocate` under `iterate`, which has captured `found`.
unfoldable pub deallocate_other :
    (ptr id : ℕ) (idx : Option ℕ)
    → ℕ × Bucket
    → (found : Bool) → Option (Bool × (ℕ × Bucket) × Bool)
unfolding bucket_deallocate
deallocate_other ptr id idx (k, b) found =
    if k == id
    then some (found, (k, b), found)
    else (do (found', b') ← bucket_deallocate ptr idx false b; some (found', (k, b'), found'))

-- The buckets of the other threads, up to the first that has the memory.
unfoldable pub deallocate_others : (ptr id : ℕ) (idx : Option ℕ) → Buckets → Option Buckets
unfolding iterate deallocate_other
deallocate_others ptr id idx bs = do
  (found, bs') ← iterate (deallocate_other ptr id idx) false bs
  some bs'

-- The lambda of `deallocate` under `findDo`: whether the thread has a bucket, and found the memory.
unfoldable pub deallocate_in :
    (ptr id : ℕ) (idx : Option ℕ) → Buckets → Option ((Bool × Bool) × Buckets)
unfolding bucket_deallocate write find
deallocate_in ptr id idx bs = elim (find id bs) [
  | none ↦ some ((false, false), bs)
  | some b ↦ do (found, b') ← bucket_deallocate ptr idx true b; some ((true, found), write id b' bs)
]

-- `deallocate(ptr, n)` of the thread `id`.
unfoldable pub deallocate :
    (fresh : ℕ → ℕ → ℕ) (ptr id size n : ℕ)
    → GlobalDispatch
    → Buckets
    → Option (GlobalDispatch × Buckets)
unfolding deallocate_in deallocate_others register_thread find_cache_idx cache_sizes
deallocate fresh ptr id size n d bs = do
  let idx = find_cache_idx (u64 (size * n)) cache_sizes
  ((registered, found), bs1) ← deallocate_in ptr id idx bs
  bs2 ← if found then some bs1 else deallocate_others ptr id idx bs1
  if registered then some (d, bs2) else register_thread fresh id d bs2

find-write_other :
    {V : Type 0} (id k : ℕ) (v : V) (l : List (ℕ × V)) → id ≢ k → find k (write id v l) ≡ find k l
unfolding find write
find-write_other id k v [] ne = refl
find-write_other id k v ((j, u) ∷ l) ne = elim (Bool-cases (j == id)) [
  | inl hit ↦ let miss : (j == k) ≡ false = ground arith in rw (hit, miss) refl
  | inr other ↦ rw other (ground (arith, find-write_other id k v l ne))
]

-- The call of a thread on its own bucket leaves the buckets of all other threads as they are.
pub allocate_in-find :
    (raw : ℕ) (fresh : ℕ → ℕ) (id k p : ℕ) (idx : Option ℕ) (d d' : GlobalDispatch)
    (bs bs' : Buckets)
    → id ≢ k
    → allocate_in raw fresh id idx d bs ≡ some (p, d', bs')
    → find k bs' ≡ find k bs
unfolding allocate_in
allocate_in-find raw fresh id k p idx d d' bs bs' ne h = elim (Option-cases (find id bs)) [
  | inl e ↦
      let e' : allocate_in raw fresh id idx d bs ≡ some (0, d, bs) = rw (e, allocate_in) refl in
      let same = some-injective _ _ (sym h ∙ e') in
      ap (λ (r : ℕ × GlobalDispatch × Buckets). find k r.2) same
  | inr (b, e) ↦ elim (Option-cases (bucket_allocate raw fresh idx d b)) [
    | inl f ↦
        let e' : allocate_in raw fresh id idx d bs ≡ none = rw (e, f, allocate_in) refl in
        absurd (cc)
    | inr (r, f) ↦
        let e' : allocate_in raw fresh id idx d bs ≡ some (r.0, r.1, write id r.2 bs) =
          rw (e, f, allocate_in) refl in
        let same = some-injective _ _ (sym h ∙ e') in
        ap (λ (r : ℕ × GlobalDispatch × Buckets). find k r.2) same ∙ find-write_other id k r.2 bs ne
  ]
]
