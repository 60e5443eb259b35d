-- ===== src/SlabHelper/Moves.antt =====
-- Allocators/SlabHelper.h, `Cache::splice`, as the moves of slabs that it makes: `emplace_back`,
-- `std::swap` and `pop_back` of the vectors, over the move constructor, the move assignment and the
-- destructor of a slab.
use allocators.Common.{
  ℕ, zero, suc, ◌-◌, ◌<◌, ◌≡◌, ◌≢◌, refl, inl, inr, List, [], ◌∷◌, ◌++◌, Option, some, ◌>>=◌, ◌==◌,
  Bool-cases, bind_some, arith, get_elem?, set, length, ap, sym, ◌∙◌, elem_at, elem_inside,
  get_elem?-set_other, get_elem?-set_here, length-set, set-set, subst,
}
use allocators.SlabHelper.Splice
use allocators.SlabHelper.Splice.{back, pop_back}

-- What the special members of a slab do: a move gives the slab that takes over and the one that is
-- left, a destructor what it releases.
pub record Moves (S R : Type 0) : Type 0 where
  pub move_construct : (other : S) → S × S
  pub move_assign : (target other : S) → S × S
  pub destroy : S → List R

-- A move leaves a slab that releases nothing.
pub record Movable {S R : Type 0} (ops : Moves S R) : Type 0 where
  pub construct_new : (s : S) → (ops.move_construct s).0 ≡ s
  pub construct_old : (s : S) → ops.destroy (ops.move_construct s).1 ≡ []
  pub assign_new : (t s : S) → (ops.move_assign t s).0 ≡ s
  pub assign_old : (t s : S) → ops.destroy (ops.move_assign t s).1 ≡ []

module _ {S R : Type 0} (ops : Moves S R) where
  -- `std::swap(v[i], v[j])`: the vector, and what the destructor of the temporary releases. The
  -- places may be the same.
  unfoldable pub swap : (i j : ℕ) → List S → Option (List S × List R)
  swap i j v = do
    a ← get_elem? v i
    let (temp, a') = ops.move_construct a
    let v1 = set v i a'
    b ← get_elem? v1 j
    let (x, b') = ops.move_assign a' b
    let v2 = set (set v1 i x) j b'
    c ← get_elem? v2 j
    let (y, temp') = ops.move_assign c temp
    some (set v2 j y, ops.destroy temp')

  -- `splice(to, pos, from, it)`: the vectors, and what is released.
  unfoldable pub splice : (to from : List S) → ℕ → Option ((List S × List S) × List R)
  unfolding swap back pop_back
  splice to from i = do
    s ← get_elem? from i
    let (s', old) = ops.move_construct s
    (from', released) ← swap i (length from - 1) (set from i old)
    last ← back from'
    some ((to ++ s' ∷ [], pop_back from'), released ++ ops.destroy last)

module _ {A : Type 0} where
  back-get : (l : List A) (k : ℕ) → suc k ≡ length l → back l ≡ get_elem? l k
  unfolding back
  back-get [] k e = absurd (omega arith)
  back-get (x ∷ []) zero e = refl
  back-get (x ∷ []) (suc k) e = absurd (omega arith)
  back-get (x ∷ y ∷ l) zero e = absurd (omega arith)
  back-get (x ∷ y ∷ l) (suc k) e = back-get (y ∷ l) k (omega arith)

  pop_back-set_last :
      (l : List A) (k : ℕ) (y : A) → suc k ≡ length l → pop_back (set l k y) ≡ pop_back l
  unfolding pop_back
  pop_back-set_last [] k y e = refl
  pop_back-set_last (x ∷ []) zero y e = refl
  pop_back-set_last (x ∷ []) (suc k) y e = refl
  pop_back-set_last (x ∷ z ∷ l) zero y e = absurd (omega arith)
  pop_back-set_last (x ∷ z ∷ []) (suc zero) y e = refl
  pop_back-set_last (x ∷ z ∷ []) (suc (suc k)) y e = absurd (omega arith)
  pop_back-set_last (x ∷ z ∷ w ∷ l) (suc zero) y e = absurd (omega arith)
  pop_back-set_last (x ∷ z ∷ w ∷ l) (suc (suc k)) y e =
      ap (λ t. x ∷ t) (pop_back-set_last (z ∷ w ∷ l) (suc k) y (omega arith))

module _ {S R : Type 0} (ops : Moves S R) (m : Movable ops) where
  swap_self :
      (i : ℕ) (v : List S) (a : S) → get_elem? v i ≡ some a → swap ops i i v ≡ some (set v i a, [])
  unfolding swap back pop_back
  swap_self i v a at =
      let here : (z : S) → get_elem? (set v i z) i ≡ some z =
        λ z. get_elem?-set_here v i z (elem_inside v i a at) in
      simp (at, here, m.construct_new, m.assign_new, m.assign_old, set-set)

  swap_apart :
      (i k : ℕ) (v : List S) (a b : S)
      → i ≢ k
      → get_elem? v i ≡ some a
      → get_elem? v k ≡ some b
      → swap ops i k v ≡ some (set (set v i b) k a, [])
  unfolding swap back pop_back
  swap_apart i k v a b ne at_i at_k =
      let other : (z : S) → get_elem? (set v i z) k ≡ some b =
        λ z. get_elem?-set_other v i k z ne ∙ at_k in
      let here : (z : S) → get_elem? (set (set v i b) k z) k ≡ some z = λ z.
        get_elem?-set_here (set v i b) k z
          (omega (arith, elem_inside v k b at_k, length-set v i b)) in
      simp (at_i, other, here, m.construct_new, m.assign_new, m.assign_old, set-set)

  -- What the vector that a slab leaves comes to, where `b` is its back.
  swap-eq :
      (i k : ℕ) (from : List S) (s old b : S)
      → suc k ≡ length from
      → get_elem? from i ≡ some s
      → get_elem? from k ≡ some b
      → (v : List S) × (swap ops i k (set from i old) ≡ some (v, []))
        × (back v ≡ some old)
        × (pop_back v ≡ pop_back (set from i b))
  swap-eq i k from s old b len at at_k = elim (Bool-cases (i == k)) [
    | inl same ↦
        let e : i ≡ k = ground arith in
        let inside : i < length from = elem_inside from i s at in
        (
          set from i old,
          subst (λ (n : ℕ). swap ops i n (set from i old) ≡ some (set from i old, [])) e
              (swap_self i (set from i old) old (get_elem?-set_here from i old inside)
                ∙ ap (λ (w : List S). some (w, [])) (set-set from i old old)),
          back-get (set from i old) k (omega (arith, len, length-set from i old))
              ∙ subst (λ (n : ℕ). get_elem? (set from i old) n ≡ some old) e
                  (get_elem?-set_here from i old inside),
          pop_back-set_last from i old (omega (arith, len, e))
              ∙ sym (pop_back-set_last from i b (omega (arith, len, e))),
        )
    | inr apart ↦
        let ne : i ≢ k = ground arith in
        let v = set from i b in
        (
          set v k old,
          swap_apart i k (set from i old) old b ne
                (get_elem?-set_here from i old (elem_inside from i s at))
                (get_elem?-set_other from i k old ne ∙ at_k)
              ∙ ap (λ (w : List S). some (set w k old, [])) (set-set from i old b),
          back-get (set v k old) k (omega (arith, len, length-set from i b, length-set v k old))
              ∙ get_elem?-set_here v k old (omega (arith, len, length-set from i b)),
          pop_back-set_last v k old (omega (arith, len, length-set from i b)),
        )
  ]

  -- The moves of `splice` come to what it is modelled as, and release nothing: no slab is copied,
  -- lost or freed, also where the slab is the last one, which `std::swap` exchanges with itself. The
  -- iterator is not the end.
  pub splice-eq :
      (to from : List S) (i : ℕ)
      → i < length from
      → (to' from' : List S) × (splice ops to from i ≡ some ((to', from'), []))
        × (Splice.splice to from i ≡ some (to', from'))
  unfolding splice Splice.splice
  splice-eq to from i inside =
      let (s, at) = elem_at from i inside in
      let k = length from - 1 in
      let (b, at_k) = elem_at from k (omega arith) in
      let old = (ops.move_construct s).1 in
      let (v, e, at_v, same) = swap-eq i k from s old b (omega arith) at at_k in
      let len : suc k ≡ length from = omega arith in
      (
        to ++ s ∷ [],
        pop_back (set from i b),
        bind_some (get_elem? from i) _ s at
            ∙ bind_some (swap ops i k (set from i old)) _ (v, []) e
            ∙ bind_some (back v) _ old at_v
            ∙ rw (m.construct_new s, m.construct_old s, same) refl,
        rw (at, back-get from k len, at_k) refl,
      )
