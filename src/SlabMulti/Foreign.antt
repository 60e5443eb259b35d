-- ===== src/SlabMulti/Foreign.antt =====
-- Allocators/SlabMulti.h, `Interface::deallocate` of a block that belongs to another thread.
use mathlib.Core.Option.{some-injective}
use allocators.Common.{
  ℕ, ◌*◌, ◌<◌, ◌≡◌, ◌≢◌, refl, Bool, true, false, List, [], ◌∷◌, ◌++◌, Option, some, ◌>>=◌, ◌==◌,
  if◌then◌else◌, Bool-cases, inl, inr, arith, ap, sym, ◌∙◌, get_elem?, u64, length, All, bind_some,
}
use allocators.SlabHelper.Splice.{set-get}
use allocators.SmpContainer.{find, write, iterate}
use allocators.SlabMulti.Dispatcher.{GlobalDispatch, cache_sizes, find_cache_idx}
use allocators.SlabMulti.Cache
use allocators.SlabMulti.Cache.{Cache}
use allocators.SlabMulti.Find.{Lacks, search_cases}
use allocators.SlabMulti.Interface.{
  Bucket, Buckets, bucket_deallocate, deallocate_other, deallocate_others, deallocate_in,
  deallocate, register_thread,
}

-- The calls before the first one that returns true leave their elements, and what was captured, as
-- they are: that one alone counts.
iterate-append :
    {A S : Type 0} (f : A → S → Option (Bool × A × S)) (s s' : S) (l r : List A) (x x' : A)
    → All (λ y. f y s ≡ some (false, y, s)) l
    → f x s ≡ some (true, x', s')
    → iterate f s (l ++ x ∷ r) ≡ some (s', l ++ x' ∷ r)
unfolding iterate
iterate-append f s s' [] r x x' skipped hit = rw hit refl
iterate-append f s s' (y ∷ l) r x x' skipped hit =
    rw (skipped.0, iterate-append f s s' l r x x' skipped.1 hit) refl

find-write_same :
    {V : Type 0} (key : ℕ) (v : V) (l : List (ℕ × V)) → find key l ≡ some v → write key v l ≡ l
unfolding find write
find-write_same key v [] e = refl
find-write_same key v ((k, u) ∷ l) e = elim (Bool-cases (k == key)) [
  | inl hit ↦ let is : u ≡ v = some-injective _ _ (sym (rw hit refl) ∙ e) in rw (hit, is) refl
  | inr miss ↦
      let later : find key l ≡ some v = sym (rw miss refl) ∙ e in
      rw (miss, find-write_same key v l later) refl
]

-- No slab of the bucket that serves the size holds the address.
abbrev pub Misses : (ptr i : ℕ) → Bucket → Type 0
Misses ptr i b =
    (c : Cache) × (get_elem? b i ≡ some c)
    × (c.act < length c.ptrs)
    × ((j : ℕ) → j < length c.ptrs → Lacks ptr c j)

missed :
    (ptr i : ℕ) (this_thread : Bool) (b : Bucket)
    → Misses ptr i b
    → bucket_deallocate ptr (some i) this_thread b ≡ some (false, b)
unfolding bucket_deallocate
missed ptr i this_thread b (c, at, inside, lacks) = elim (search_cases ptr c inside) [
  | inl (none_found, _) ↦
      bind_some (get_elem? b i) _ c at
      ∙ bind_some (Cache.deallocate ptr this_thread c) _ (false, c)
          (Cache.deallocate_missing ptr this_thread c none_found)
      ∙ ap (λ (k : Bucket). some (false, k)) (set-get i b c at)
  | inr (j, _, lt, (m, at_m, here), _) ↦ absurd (ground (arith, lacks j lt m at_m))
]

missed_own :
    (ptr id i : ℕ) (bs : Buckets) (own : Bucket)
    → find id bs ≡ some own
    → Misses ptr i own
    → deallocate_in ptr id (some i) bs ≡ some ((true, false), bs)
unfolding deallocate_in
missed_own ptr id i bs own registered misses =
    rw (registered, deallocate_in)
      (bind_some (bucket_deallocate ptr (some i) true own) _ (false, own)
          (missed ptr i true own misses)
        ∙ ap (λ (l : Buckets). some ((true, false), l)) (find-write_same id own bs registered))

skipped :
    (ptr id i : ℕ) (l : Buckets)
    → All (λ (q : ℕ × Bucket). Misses ptr i q.1) l
    → All (λ y. deallocate_other ptr id (some i) y false ≡ some (false, y, false)) l
unfolding deallocate_other
skipped ptr id i [] h = tt
skipped ptr id i ((k, b) ∷ l) h = (
  elim (Bool-cases (k == id)) [
    | inl own ↦ rw (own, deallocate_other) refl
    | inr other ↦
        rw (other, deallocate_other)
          (bind_some (bucket_deallocate ptr (some i) false b) _ (false, b)
            (missed ptr i false b h.0))
  ],
  skipped ptr id i l h.1,
)

taken_abroad :
    (ptr id i k : ℕ) (b b' : Bucket)
    → k ≢ id
    → bucket_deallocate ptr (some i) false b ≡ some (true, b')
    → deallocate_other ptr id (some i) (k, b) false ≡ some (true, (k, b'), true)
unfolding deallocate_other
taken_abroad ptr id i k b b' other takes =
    let apart : (k == id) ≡ false = ground arith in
    rw (apart, deallocate_other)
      (bind_some (bucket_deallocate ptr (some i) false b) _ (true, b') takes)

-- `deallocate` once the cache of the size is known.
abbrev deallocate_at :
    (fresh : ℕ → ℕ → ℕ) (ptr id : ℕ) (idx : Option ℕ)
    → GlobalDispatch
    → Buckets
    → Option (GlobalDispatch × Buckets)
deallocate_at fresh ptr id idx d bs = do
  ((registered, found), bs1) ← deallocate_in ptr id idx bs
  bs2 ← if found then some bs1 else deallocate_others ptr id idx bs1
  if registered then some (d, bs2) else register_thread fresh id d bs2

module _ (fresh : ℕ → ℕ → ℕ) (ptr id size n i : ℕ) (d : GlobalDispatch) (l r : Buckets) (k : ℕ)
    (own b b' : Bucket) (serves : find_cache_idx (u64 (size * n)) cache_sizes ≡ some i) where
  -- A registered thread returns a block, of a size that the caches serve, that a slab of another
  -- thread holds: the bucket of that thread takes it back as a block from abroad, and no other bucket
  -- changes, however many threads there are. The own bucket and those before that one do not hold
  -- the address.
  pub deallocate_abroad :
      find id (l ++ (k, b) ∷ r) ≡ some own
      → Misses ptr i own
      → All (λ (q : ℕ × Bucket). Misses ptr i q.1) l
      → k ≢ id
      → bucket_deallocate ptr (some i) false b ≡ some (true, b')
      → deallocate fresh ptr id size n d (l ++ (k, b) ∷ r) ≡ some (d, l ++ (k, b') ∷ r)
  unfolding deallocate
  deallocate_abroad registered misses before other takes =
      let bs = l ++ (k, b) ∷ r in
      let bs' = l ++ (k, b') ∷ r in
      let walked : deallocate_others ptr id (some i) bs ≡ some bs' =
        bind_some (iterate (deallocate_other ptr id (some i)) false bs) _ (true, bs')
          (iterate-append (deallocate_other ptr id (some i)) false true l r (k, b) (k, b')
            (skipped ptr id i l before) (taken_abroad ptr id i k b b' other takes)) in
      ap (λ (idx : Option ℕ). deallocate_at fresh ptr id idx d bs) serves
      ∙ bind_some (deallocate_in ptr id (some i) bs) _ ((true, false), bs)
          (missed_own ptr id i bs own registered misses)
      ∙ bind_some (deallocate_others ptr id (some i) bs) _ bs' walked
