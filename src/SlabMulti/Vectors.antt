-- ===== src/SlabMulti/Vectors.antt =====
-- The vectors of `ImplSlabMulti::Cache`, index by index.
use allocators.Common.{
  ℕ, zero, suc, ◌≤◌, ◌<◌, ◌≡◌, refl, List, [], ◌∷◌, some, arith, get_elem?, set, length, ap, ◌∙◌,
  elem_at, elem_inside, get_elem?-set_other, length-set,
}
use allocators.SlabHelper.Splice.{back, pop_back, take_out}
use allocators.SlabMulti.Cache.{insert, erase, splice}

module _ {ℓ} {A : Type ℓ} where
  pub length-insert : (i : ℕ) (x : A) (l : List A) → length (insert i x l) ≡ suc (length l)
  unfolding insert
  length-insert zero x l = refl
  length-insert (suc i) x [] = refl
  length-insert (suc i) x (y ∷ l) = ap suc (length-insert i x l)

  pub length-erase : (i : ℕ) (l : List A) → i < length l → suc (length (erase i l)) ≡ length l
  unfolding erase
  length-erase i [] h = absurd (omega arith)
  length-erase zero (x ∷ l) h = refl
  length-erase (suc i) (x ∷ l) h = ap suc (length-erase i l (omega arith))

  get_elem?-insert_before :
      (i : ℕ) (x : A) (l : List A) (j : ℕ)
      → j < i
      → i ≤ length l
      → get_elem? (insert i x l) j ≡ get_elem? l j
  unfolding insert
  get_elem?-insert_before zero x l j lt le = absurd (omega arith)
  get_elem?-insert_before (suc i) x [] j lt le = absurd (omega arith)
  get_elem?-insert_before (suc i) x (y ∷ l) zero lt le = refl
  get_elem?-insert_before (suc i) x (y ∷ l) (suc j) lt le =
      get_elem?-insert_before i x l j (omega arith) (omega arith)

  get_elem?-insert_here :
      (i : ℕ) (x : A) (l : List A) → i ≤ length l → get_elem? (insert i x l) i ≡ some x
  unfolding insert
  get_elem?-insert_here zero x l le = refl
  get_elem?-insert_here (suc i) x [] le = absurd (omega arith)
  get_elem?-insert_here (suc i) x (y ∷ l) le = get_elem?-insert_here i x l (omega arith)

  get_elem?-insert_after :
      (i : ℕ) (x : A) (l : List A) → i ≤ length l → get_elem? (insert i x l) (suc i) ≡ get_elem? l i
  unfolding insert
  get_elem?-insert_after zero x l le = refl
  get_elem?-insert_after (suc i) x [] le = absurd (omega arith)
  get_elem?-insert_after (suc i) x (y ∷ l) le = get_elem?-insert_after i x l (omega arith)

  pub get_elem?-erase_before :
      (i : ℕ) (l : List A) (j : ℕ) → j < i → get_elem? (erase i l) j ≡ get_elem? l j
  unfolding erase
  get_elem?-erase_before i [] j lt = refl
  get_elem?-erase_before zero (x ∷ l) j lt = absurd (omega arith)
  get_elem?-erase_before (suc i) (x ∷ l) zero lt = refl
  get_elem?-erase_before (suc i) (x ∷ l) (suc j) lt = get_elem?-erase_before i l j (omega arith)

  pub get_elem?-erase_after :
      (i : ℕ) (l : List A) (j : ℕ) → i ≤ j → get_elem? (erase i l) j ≡ get_elem? l (suc j)
  unfolding erase
  get_elem?-erase_after i [] j le = refl
  get_elem?-erase_after zero (x ∷ l) j le = refl
  get_elem?-erase_after (suc i) (x ∷ l) zero le = absurd (omega arith)
  get_elem?-erase_after (suc i) (x ∷ l) (suc j) le = get_elem?-erase_after i l j (omega arith)

  -- `splice` of an element behind the position moves it there and what stood there one behind.
  pub splice_behind :
      (pos it : ℕ) (l : List A) (x : A)
      → pos < it
      → get_elem? l it ≡ some x
      → (k : List A) × (splice pos it l ≡ some k)
        × (length k ≡ length l)
        × ((j : ℕ) → j < pos → get_elem? k j ≡ get_elem? l j)
        × (get_elem? k pos ≡ some x)
        × (get_elem? k (suc pos) ≡ get_elem? l pos)
  unfolding splice
  splice_behind pos it l x lt at =
      let inside = elem_inside l it x at in
      let shorter = length-erase it l inside in
      let k = erase it l in
      (
        insert pos x k,
        rw at refl,
        omega (arith, length-insert pos x k, shorter),
        λ j t.
            get_elem?-insert_before pos x k j t (omega arith)
            ∙ get_elem?-erase_before it l j (omega arith),
        get_elem?-insert_here pos x k (omega arith),
        get_elem?-insert_after pos x k (omega arith) ∙ get_elem?-erase_before it l pos lt,
      )

  back_there : (x : A) (l : List A) → (b : A) × (back (x ∷ l) ≡ some b)
  unfolding back
  back_there x [] = (x, refl)
  back_there x (y ∷ l) = back_there y l

  pub length-pop_back : (l : List A) → 0 < length l → suc (length (pop_back l)) ≡ length l
  unfolding pop_back
  length-pop_back [] lt = absurd (omega arith)
  length-pop_back (x ∷ []) lt = refl
  length-pop_back (x ∷ y ∷ l) lt = ap suc (length-pop_back (y ∷ l) (omega arith))

  get_elem?-pop_back :
      (l : List A) (j : ℕ) → suc j < length l → get_elem? (pop_back l) j ≡ get_elem? l j
  unfolding pop_back
  get_elem?-pop_back [] j lt = refl
  get_elem?-pop_back (x ∷ []) j lt = absurd (omega arith)
  get_elem?-pop_back (x ∷ y ∷ l) zero lt = refl
  get_elem?-pop_back (x ∷ y ∷ l) (suc j) lt = get_elem?-pop_back (y ∷ l) j (omega arith)

  pub take_out_at :
      (i : ℕ) (l : List A)
      → i < length l
      → (x : A) × (k : List A) × (take_out i l ≡ some (x, k))
        × (suc (length k) ≡ length l)
        × ((j : ℕ) → j < i → get_elem? k j ≡ get_elem? l j)
  unfolding take_out
  take_out_at i [] lt = absurd (omega arith)
  take_out_at i (y ∷ l) lt =
      let (x, at) = elem_at (y ∷ l) i lt in
      let (b, e) = back_there y l in
      let same = length-set (y ∷ l) i b in
      (
        x,
        pop_back (set (y ∷ l) i b),
        rw (at, e) refl,
        omega (arith, length-pop_back (set (y ∷ l) i b) (omega arith), same),
        λ j t.
            get_elem?-pop_back (set (y ∷ l) i b) j (omega arith)
            ∙ get_elem?-set_other (y ∷ l) i j b (λ e. absurd (omega arith)),
      )
