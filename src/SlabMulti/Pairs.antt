-- ===== src/SlabMulti/Pairs.antt =====
-- The two vectors of `ImplSlabMulti::Cache`, slabs and their memory, read as one sequence of pairs: what
-- the changes that it makes to both of them do to the pairs.
use mathlib.Core.List.{Permᴰ}
use mathlib.Core.List.Permᴰ
use allocators.Common.{
  ap, ℕ, zero, suc, ◌<◌, ◌≡◌, refl, List, [], ◌∷◌, ◌++◌, some, arith, get_elem?, set, length,
}
use mathlib.Core.Option.{some-injective}
use allocators.SlabHelper.Splice.{back, pop_back, take_out, take_out-suc}
use allocators.SlabMulti.Cache.{insert, erase}
use allocators.SlabMulti.Vectors.{length-pop_back}

module _ {ℓ κ} {A : Type ℓ} {B : Type κ} where
  abbrev pub pairs : List A → List B → List (A × B)
  pairs [] ys = []
  pairs (x ∷ xs) [] = []
  pairs (x ∷ xs) (y ∷ ys) = (x, y) ∷ pairs xs ys

  pub pairs-erase :
      (i : ℕ) (xs : List A) (ys : List B) (x : A) (y : B)
      → get_elem? xs i ≡ some x
      → get_elem? ys i ≡ some y
      → Permᴰ (pairs xs ys) ((x, y) ∷ pairs (erase i xs) (erase i ys))
  unfolding erase
  pairs-erase i [] ys x y e e' = absurd (cc)
  pairs-erase i (a ∷ xs) [] x y e e' = absurd (cc)
  pairs-erase zero (a ∷ xs) (b ∷ ys) x y e e' =
      Permᴰ.cons (λ k. (some-injective _ _ e k, some-injective _ _ e' k)) (Permᴰ.refl _)
  pairs-erase (suc i) (a ∷ xs) (b ∷ ys) x y e e' =
      Permᴰ.trans (Permᴰ.cons refl (pairs-erase i xs ys x y e e')) (Permᴰ.swap refl refl)

  pub pairs-set :
      (i : ℕ) (xs : List A) (ys : List B) (x : A) (y : B) (v : A)
      → get_elem? xs i ≡ some x
      → get_elem? ys i ≡ some y
      → Permᴰ (pairs (set xs i v) ys) ((v, y) ∷ pairs (erase i xs) (erase i ys))
  unfolding erase
  pairs-set i [] ys x y v e e' = absurd (cc)
  pairs-set i (a ∷ xs) [] x y v e e' = absurd (cc)
  pairs-set zero (a ∷ xs) (b ∷ ys) x y v e e' =
      Permᴰ.cons (λ k. (v, some-injective _ _ e' k)) (Permᴰ.refl _)
  pairs-set (suc i) (a ∷ xs) (b ∷ ys) x y v e e' =
      Permᴰ.trans (Permᴰ.cons refl (pairs-set i xs ys x y v e e')) (Permᴰ.swap refl refl)

  pub pairs-insert :
      (i : ℕ) (x : A) (y : B) (xs : List A) (ys : List B)
      → length ys ≡ length xs
      → Permᴰ (pairs (insert i x xs) (insert i y ys)) ((x, y) ∷ pairs xs ys)
  unfolding insert
  pairs-insert zero x y xs ys same = Permᴰ.refl _
  pairs-insert (suc i) x y [] [] same = Permᴰ.refl _
  pairs-insert (suc i) x y [] (b ∷ ys) same = absurd (omega arith)
  pairs-insert (suc i) x y (a ∷ xs) [] same = absurd (omega arith)
  pairs-insert (suc i) x y (a ∷ xs) (b ∷ ys) same =
      Permᴰ.trans (Permᴰ.cons refl (pairs-insert i x y xs ys (omega arith))) (Permᴰ.swap refl refl)

  pub pairs-append :
      (x : A) (y : B) (xs : List A) (ys : List B)
      → length ys ≡ length xs
      → Permᴰ (pairs (xs ++ x ∷ []) (ys ++ y ∷ [])) ((x, y) ∷ pairs xs ys)
  pairs-append x y [] [] same = Permᴰ.refl _
  pairs-append x y [] (b ∷ ys) same = absurd (omega arith)
  pairs-append x y (a ∷ xs) [] same = absurd (omega arith)
  pairs-append x y (a ∷ xs) (b ∷ ys) same =
      Permᴰ.trans (Permᴰ.cons refl (pairs-append x y xs ys (omega arith))) (Permᴰ.swap refl refl)

  pairs-pop_back :
      (a : A) (xs : List A) (b : B) (ys : List B)
      → length ys ≡ length xs
      → (x : A) × (y : B) × (back (a ∷ xs) ≡ some x)
        × (back (b ∷ ys) ≡ some y)
        × Permᴰ (pairs (a ∷ xs) (b ∷ ys)) ((x, y) ∷ pairs (pop_back (a ∷ xs)) (pop_back (b ∷ ys)))
  unfolding back pop_back
  pairs-pop_back a [] b [] same = (a, b, refl, refl, Permᴰ.refl _)
  pairs-pop_back a [] b (b' ∷ ys) same = absurd (omega arith)
  pairs-pop_back a (a' ∷ xs) b [] same = absurd (omega arith)
  pairs-pop_back a (a' ∷ xs) b (b' ∷ ys) same =
      let (x, y, e, e', p) = pairs-pop_back a' xs b' ys (omega arith) in
      (x, y, e, e', Permᴰ.trans (Permᴰ.cons refl p) (Permᴰ.swap refl refl))

  pub pairs-take_out :
      (i : ℕ) (xs : List A) (ys : List B)
      → i < length xs
      → length ys ≡ length xs
      → (x : A) × (y : B) × (xs' : List A) × (ys' : List B) × (take_out i xs ≡ some (x, xs'))
        × (take_out i ys ≡ some (y, ys'))
        × (get_elem? xs i ≡ some x)
        × (get_elem? ys i ≡ some y)
        × (length ys' ≡ length xs')
        × Permᴰ (pairs xs ys) ((x, y) ∷ pairs xs' ys')
  unfolding take_out back pop_back
  pairs-take_out i [] ys lt same = absurd (omega arith)
  pairs-take_out i (a ∷ xs) [] lt same = absurd (omega arith)
  pairs-take_out zero (a ∷ []) (b ∷ []) lt same =
      (a, b, [], [], refl, refl, refl, refl, refl, Permᴰ.refl _)
  pairs-take_out zero (a ∷ []) (b ∷ b' ∷ ys) lt same = absurd (omega arith)
  pairs-take_out zero (a ∷ a' ∷ xs) (b ∷ []) lt same = absurd (omega arith)
  pairs-take_out zero (a ∷ a' ∷ xs) (b ∷ b' ∷ ys) lt same =
      let (x, y, e, e', p) = pairs-pop_back a' xs b' ys (omega arith) in
      (
        a,
        b,
        x ∷ pop_back (a' ∷ xs),
        y ∷ pop_back (b' ∷ ys),
        rw e refl,
        rw e' refl,
        refl,
        refl,
        omega (
          arith,
          length-pop_back (a' ∷ xs) (omega arith),
          length-pop_back (b' ∷ ys) (omega arith),
        ),
        Permᴰ.cons refl p,
      )
  pairs-take_out (suc i) (a ∷ []) (b ∷ ys) lt same = absurd (omega arith)
  pairs-take_out (suc i) (a ∷ a' ∷ xs) (b ∷ []) lt same = absurd (omega arith)
  pairs-take_out (suc i) (a ∷ a' ∷ xs) (b ∷ b' ∷ ys) lt same =
      let (x, y, xs', ys', e, e', at, at', len, p) =
        pairs-take_out i (a' ∷ xs) (b' ∷ ys) (omega arith) (omega arith) in
      (
        x,
        y,
        a ∷ xs',
        b ∷ ys',
        take_out-suc a a' xs i x xs' e,
        take_out-suc b b' ys i y ys' e',
        at,
        at',
        ap suc len,
        Permᴰ.trans (Permᴰ.cons refl p) (Permᴰ.swap refl refl),
      )
