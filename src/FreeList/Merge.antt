-- ===== src/FreeList/Merge.antt =====
-- `PolicyT::add` keeps the free list ordered and coalesced, and adds the bytes that it is given.
use native.Mathlib.Nat.{mod-eq_of_lt}
use allocators.Common.{
  ℕ, suc, ◌+◌, ◌%◌, ◌≤◌, ◌<◌, ◌≡◌, ◌⊎◌, refl, inl, inr, true, false, subst, [], ◌∷◌, ltb, ◌==◌,
  if◌then◌else◌, Bool-cases, ltb-false, ltb→lt, lt→ltb, arith, All, total,
}
use allocators.FreeList.Policy.{Chunk, Store, before, merge, place, add, in_range, covered}

-- Chunks of positive size between `lo` and `hi`, in address order, no two of them adjacent.
abbrev pub Separated : (lo hi : ℕ) → Store → Type 0
Separated lo hi [] = Unit {0}
Separated lo hi ((p, s) ∷ r) = (lo ≤ p) × (0 < s) × (p + s ≤ hi) × Separated (suc (p + s)) hi r

-- No chunk meets the range.
abbrev pub Apart : Chunk → Store → Type 0
Apart (start, n) = All (λ c. (c.0 + c.1 ≤ start) ⊎ (start + n ≤ c.0))

abbrev pub bytes_of : Store → ℕ
bytes_of = total λ c. c.1

-- `l'` is `l` with the bytes of the range, and is well formed.
pub record Extends (lo hi : ℕ) (c : Chunk) (l l' : Store) : Type 0 where
  pub separated : Separated lo hi l'
  pub covers : (x : ℕ) → covered x l' ≡ (if in_range x c then true else covered x l)
  pub bytes : bytes_of l' ≡ c.1 + bytes_of l

pub Separated-mono : (lo lo' hi : ℕ) (l : Store) → lo ≤ lo' → Separated lo' hi l → Separated lo hi l
Separated-mono lo lo' hi [] h s = tt
Separated-mono lo lo' hi (c ∷ l) h s = (omega arith, s.1, s.2, s.3)

module _ (m hi : ℕ) where
  merge-Extends :
      (lo p s : ℕ) (l : Store)
      → hi < m + lo
      → lo ≤ p
      → 0 < s
      → p + s ≤ hi
      → Separated (p + s) hi l
      → Extends lo hi (p, s) l (merge m (p, s) l)
  unfolding merge
  merge-Extends lo p s [] fits a b c sep = record {
    separated = (a, b, c, tt);
    covers = λ x. refl;
    bytes = refl;
  }
  merge-Extends lo p s ((q, t) ∷ r) fits a b c sep = elim (Bool-cases ((p + s) == q)) [
    | inl meet ↦
        let q-eq : p + s ≡ q = ground arith in
        let sum : (s + t) % m ≡ s + t = mod-eq_of_lt (omega arith) in
        let end : p + (s + t) ≡ q + t = omega arith in
        rw (meet, sum)
          (record {
            separated = (a, omega arith, omega arith, rw end sep.3);
            covers = λ x. ground arith;
            bytes = omega arith;
          })
    | inr apart ↦ rw apart (record {
      separated = (a, b, c, (ground arith, sep.1, sep.2, sep.3));
      covers = λ x. refl;
      bytes = refl;
    })
  ]

  -- What is before the iterator passes unchanged, up to its last chunk.
  place-before :
      (start n p s : ℕ) (r : Store)
      → p < start
      → ((before start r ≡ [])
          × (place m start n ((p, s) ∷ r) ≡ merge m (p, s) (place m start n r)))
        ⊎ ((q t : ℕ) × (r' : Store) × (r ≡ (q, t) ∷ r')
            × (q < start)
            × (place m start n ((p, s) ∷ r) ≡ (p, s) ∷ place m start n r))
  unfolding place
  place-before start n p s [] h = inl (refl, rw (lt→ltb p start h))
  place-before start n p s ((q, t) ∷ r) h = elim (Bool-cases (ltb q start)) [
    | inl b ↦ inr (q, t, r, refl, ltb→lt q start b, rw (lt→ltb p start h, b))
    | inr b ↦ inl (rw b, rw (lt→ltb p start h, b))
  ]

  place-above :
      (start n p s : ℕ) (r : Store)
      → ltb p start ≡ false
      → ltb start p ≡ true
      → place m start n ((p, s) ∷ r) ≡ merge m (start, n) ((p, s) ∷ r)
  unfolding place
  place-above start n p s r above below = rw (above, below)

  place-nil : (start n : ℕ) → place m start n [] ≡ merge m (start, n) []
  unfolding place
  place-nil start n = refl

  place-Extends :
      (lo start n : ℕ) (l : Store)
      → hi < m + lo
      → Separated lo hi l
      → Apart (start, n) l
      → lo ≤ start
      → 0 < n
      → start + n ≤ hi
      → Extends lo hi (start, n) l (place m start n l)
  place-Extends lo start n [] fits sep gap a b c =
      rw (place-nil start n) (merge-Extends lo start n [] fits a b c tt)
  place-Extends lo start n ((p, s) ∷ r) fits sep gap a b c = elim (Bool-cases (ltb p start)) [
    | inl below ↦
        let lt : p < start = ltb→lt p start below in
        elim (place-before start n p s r lt) [
          | inl (_, e) ↦
              let ih =
                place-Extends (p + s) start n r (omega arith)
                  (Separated-mono (p + s) (suc (p + s)) hi r (omega arith) sep.3) gap.1
                  (omega arith) b c in
              let joined =
                merge-Extends lo p s (place m start n r) fits sep.0 sep.1 sep.2 ih.separated in
              rw e (record {
                separated = joined.separated;
                covers = λ x. ground (arith, joined.covers x, ih.covers x);
                bytes = omega (arith, joined.bytes, ih.bytes);
              })
          | inr (q, t, r', r-eq, q-lt, e) ↦
              let next = subst (Separated (suc (p + s)) hi) r-eq sep.3 in
              let ih =
                place-Extends (suc (p + s)) start n r (omega arith) sep.3 gap.1
                  (omega (arith, next.0)) b c in
              rw e (record {
                separated = (sep.0, sep.1, sep.2, ih.separated);
                covers = λ x. ground (arith, ih.covers x);
                bytes = omega (arith, ih.bytes);
              })
        ]
    | inr above ↦
        let ge : start ≤ p = ltb-false p start above in
        let clear : start + n ≤ p = omega arith in
        rw (place-above start n p s r above (lt→ltb start p (omega arith)))
          (merge-Extends lo start n ((p, s) ∷ r) fits a b c (clear, sep.1, sep.2, sep.3))
  ]

  -- A block that comes back to a list that is not empty: `add` is given the size without the header,
  -- and the list gains exactly the bytes of the block, header included. It stays in address order
  -- with no two chunks adjacent, if it was so and the block met no free chunk. The arena is smaller
  -- than the modulus of the size type.
  pub add-Extends :
      (h lo start size : ℕ) (c : Chunk) (l : Store)
      → hi < m + lo
      → Separated lo hi (c ∷ l)
      → Apart (start, size + h) (c ∷ l)
      → lo ≤ start
      → 0 < size + h
      → start + (size + h) ≤ hi
      → Extends lo hi (start, size + h) (c ∷ l) (add m h start size (c ∷ l))
  unfolding add
  add-Extends h lo start size c l fits sep gap a b e =
      let sum : (size + h) % m ≡ size + h = mod-eq_of_lt (omega arith) in
      rw sum (place-Extends lo start (size + h) (c ∷ l) fits sep gap a b e)

  -- The same block given to an empty list: its last `h` bytes are lost.
  pub add-empty :
      (h lo start size : ℕ)
      → lo ≤ start
      → 0 < size
      → start + (size + h) ≤ hi
      → Extends lo hi (start, size) [] (add m h start size [])
  unfolding add
  add-empty h lo start size a b e = record {
    separated = (a, b, omega arith, tt);
    covers = λ x. refl;
    bytes = refl;
  }
