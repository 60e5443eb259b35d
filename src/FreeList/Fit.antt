-- ===== src/FreeList/Fit.antt =====
-- `PolicyT::firstFit` finds the first chunk that is large enough, and `erase` takes it out.
use allocators.Common.{
  ℕ, zero, suc, ◌+◌, ◌≤◌, ◌<◌, ◌≡◌, ◌⊎◌, refl, inl, inr, true, false, [], ◌∷◌, none, some, leb,
  if◌then◌else◌, Bool-cases, leb-false, leb→le, arith, All, take, get_elem?,
}
use allocators.FreeList.Policy.{Store, first_fit, erase, in_range, covered}
use allocators.FreeList.Merge.{Separated, Separated-mono, Apart, bytes_of}

abbrev pub Smaller : ℕ → Store → Type 0
Smaller n = All λ c. c.1 < n

-- The search fails exactly when all chunks are too small, and otherwise it finds the first one, in
-- address order, that is not.
pub first_fit_cases :
    (n : ℕ) (l : Store)
    → ((first_fit n l ≡ none) × Smaller n l)
      ⊎ ((i p s : ℕ) × (first_fit n l ≡ some i)
          × (get_elem? l i ≡ some (p, s))
          × (n ≤ s)
          × Smaller n (take i l))
unfolding first_fit
first_fit_cases n [] = inl (refl, tt)
first_fit_cases n ((q, t) ∷ r) = elim (Bool-cases (leb n t)) [
  | inl big ↦ inr (0, q, t, rw big, refl, leb→le n t big, tt)
  | inr small ↦ elim (first_fit_cases n r) [
    | inl (e, all) ↦ inl (rw (small, e), (leb-false n t small, all))
    | inr (i, p, s, e, at, le, all) ↦
        inr (suc i, p, s, rw (small, e), at, le, (leb-false n t small, all))
  ]
]

-- What `erase` leaves of a list that held the chunk.
pub record Erased (lo hi p s : ℕ) (l l' : Store) : Type 0 where
  pub above : lo ≤ p
  pub positive : 0 < s
  pub below : p + s ≤ hi
  pub separated : Separated lo hi l'
  pub covers : (x : ℕ) → covered x l ≡ (if in_range x (p, s) then true else covered x l')
  pub clear : (x : ℕ) → p ≤ x → x ≤ p + s → covered x l' ≡ false
  pub apart : Apart (p, s) l'
  pub bytes : bytes_of l ≡ s + bytes_of l'

-- A byte below all chunks is in none.
covered_below : (x lo hi : ℕ) (l : Store) → Separated lo hi l → x < lo → covered x l ≡ false
covered_below x lo hi [] sep h = refl
covered_below x lo hi ((p, s) ∷ r) sep h = ground (arith, covered_below x (suc (p + s)) hi r sep.3)

Apart-below : (p s lo hi : ℕ) (l : Store) → Separated lo hi l → p + s ≤ lo → Apart (p, s) l
Apart-below p s lo hi [] sep h = tt
Apart-below p s lo hi ((q, t) ∷ r) sep h =
    (inr (omega arith), Apart-below p s (suc (q + t)) hi r sep.3 (omega arith))

pub erase-Erased :
    (lo hi i p s : ℕ) (l : Store)
    → Separated lo hi l
    → get_elem? l i ≡ some (p, s)
    → Erased lo hi p s l (erase i l)
unfolding erase
erase-Erased lo hi i p s [] sep at = absurd (cc)
erase-Erased lo hi zero p s ((q, t) ∷ r) sep at =
    let p-eq : q ≡ p = ground arith in
    let s-eq : t ≡ s = ground arith in
    record {
      above = omega arith;
      positive = omega arith;
      below = omega arith;
      separated = Separated-mono lo (suc (q + t)) hi r (omega arith) sep.3;
      covers = λ x. rw (p-eq, s-eq);
      clear = λ x ge le. covered_below x (suc (q + t)) hi r sep.3 (omega arith);
      apart = Apart-below p s (suc (q + t)) hi r sep.3 (omega arith);
      bytes = omega arith;
    }
erase-Erased lo hi (suc i) p s ((q, t) ∷ r) sep at =
    let ih = erase-Erased (suc (q + t)) hi i p s r sep.3 at in
    record {
      above = omega (arith, ih.above);
      positive = ih.positive;
      below = ih.below;
      separated = (sep.0, sep.1, sep.2, ih.separated);
      covers = λ x. ground (arith, ih.covers x, ih.above);
      clear = λ x ge le. ground (arith, ih.clear x, ih.above);
      apart = (inl (omega (arith, ih.above)), ih.apart);
      bytes = omega (arith, ih.bytes);
    }
