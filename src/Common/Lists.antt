-- ===== src/Common/Lists.antt =====
-- Lists measured and indexed by native numbers, under the library's names.
use Prim.Native.Nat.{ℕ, zero, suc, ◌+◌, ◌<◌}
use mathlib.Core.Path.{refl, subst, ap, ◌≡◌}
use mathlib.Core.Logic.{◌≢◌}
use mathlib.Core.List.{List, [], ◌∷◌, ◌++◌}
use mathlib.Core.Option.{Option, none, some}
use native.Mathlib.Omega.{arith}

module _ {ℓ} {A : Type ℓ} where
  abbrev pub length : List A → ℕ
  length [] = 0
  length (x ∷ xs) = suc (length xs)

  abbrev pub get_elem? : List A → ℕ → Option A
  get_elem? [] i = none
  get_elem? (x ∷ xs) zero = some x
  get_elem? (x ∷ xs) (suc i) = get_elem? xs i

  -- A write out of bounds changes nothing.
  abbrev pub set : List A → ℕ → A → List A
  set [] i v = []
  set (x ∷ xs) zero v = v ∷ xs
  set (x ∷ xs) (suc i) v = x ∷ set xs i v

  pub length-append : (xs ys : List A) → length (xs ++ ys) ≡ length xs + length ys
  length-append [] ys = omega arith
  length-append (x ∷ xs) ys = omega (arith, length-append xs ys)

  abbrev pub take : ℕ → List A → List A
  take zero xs = []
  take (suc n) [] = []
  take (suc n) (x ∷ xs) = x ∷ take n xs

  -- Every element satisfies the predicate.
  abbrev pub All {κ} : (A → Type κ) → List A → Type κ
  All P [] = Unit
  All P (x ∷ xs) = P x × All P xs

  pub All-append {κ} : (P : A → Type κ) (xs ys : List A) → All P xs → All P ys → All P (xs ++ ys)
  All-append P [] ys hx hy = hy
  All-append P (x ∷ xs) ys hx hy = (hx.0, All-append P xs ys hx.1 hy)

  -- The sum of a measure over the elements.
  abbrev pub total : (A → ℕ) → List A → ℕ
  total f [] = 0
  total f (x ∷ xs) = f x + total f xs

  pub total-append : (f : A → ℕ) (xs ys : List A) → total f (xs ++ ys) ≡ total f xs + total f ys
  total-append f [] ys = omega arith
  total-append f (x ∷ xs) ys = omega (arith, total-append f xs ys)

  pub nil_of_length : (xs : List A) → length xs ≡ 0 → xs ≡ []
  nil_of_length [] h = refl
  nil_of_length (x ∷ xs) h = absurd (omega arith)

  -- A property of all elements holds of the one at an index.
  pub All-get_elem? {κ} :
      (P : A → Type κ) (l : List A) (i : ℕ) {x : A} → All P l → get_elem? l i ≡ some x → P x
  All-get_elem? P [] i all at = absurd (cc)
  All-get_elem? P (y ∷ l) zero all at = subst P (cc at) all.0
  All-get_elem? P (y ∷ l) (suc i) all at = All-get_elem? P l i all.1 at

  pub All-set {κ} :
      (P : A → Type κ) (l : List A) (i : ℕ) (x : A) → All P l → P x → All P (set l i x)
  All-set P [] i x h p = tt
  All-set P (y ∷ l) zero x h p = (p, h.1)
  All-set P (y ∷ l) (suc i) x h p = (h.0, All-set P l i x h.1 p)

  pub elem_at : (l : List A) (i : ℕ) → i < length l → (x : A) × (get_elem? l i ≡ some x)
  elem_at [] i h = absurd (omega arith)
  elem_at (x ∷ l) zero h = (x, refl)
  elem_at (x ∷ l) (suc i) h = elem_at l i (omega arith)

  pub get_elem?-set_other :
      (l : List A) (i j : ℕ) (x : A) → i ≢ j → get_elem? (set l i x) j ≡ get_elem? l j
  get_elem?-set_other [] i j x h = refl
  get_elem?-set_other (y ∷ l) zero zero x h = absurd (h refl)
  get_elem?-set_other (y ∷ l) zero (suc j) x h = refl
  get_elem?-set_other (y ∷ l) (suc i) zero x h = refl
  get_elem?-set_other (y ∷ l) (suc i) (suc j) x h = get_elem?-set_other l i j x (λ e. h (ap suc e))

  pub get_elem?-set_self : (l : List A) (i : ℕ) (x y : A) → get_elem? (set l i x) i ≡ some y → x ≡ y
  get_elem?-set_self [] i x y h = absurd (cc)
  get_elem?-set_self (z ∷ l) zero x y h = cc
  get_elem?-set_self (z ∷ l) (suc i) x y h = get_elem?-set_self l i x y h

  pub length-set : (l : List A) (i : ℕ) (x : A) → length (set l i x) ≡ length l
  length-set [] i x = refl
  length-set (y ∷ l) zero x = refl
  length-set (y ∷ l) (suc i) x = ap suc (length-set l i x)

  pub set-set : (l : List A) (i : ℕ) (x y : A) → set (set l i x) i y ≡ set l i y
  set-set [] i x y = refl
  set-set (z ∷ l) zero x y = refl
  set-set (z ∷ l) (suc i) x y = ap (λ k. z ∷ k) (set-set l i x y)

  pub elem_inside : (l : List A) (i : ℕ) (x : A) → get_elem? l i ≡ some x → i < length l
  elem_inside [] i x h = absurd (cc)
  elem_inside (y ∷ l) zero x h = omega arith
  elem_inside (y ∷ l) (suc i) x h = omega (arith, elem_inside l i x h)

  pub get_elem?-set_here :
      (l : List A) (i : ℕ) (x : A) → i < length l → get_elem? (set l i x) i ≡ some x
  get_elem?-set_here [] i x h = absurd (omega arith)
  get_elem?-set_here (y ∷ l) zero x h = refl
  get_elem?-set_here (y ∷ l) (suc i) x h = get_elem?-set_here l i x (omega arith)
