-- ===== src/SlabHelper/Splice.antt =====
-- Vectors as `SlabImpl::Cache` uses them: `back`, `pop_back` and `splice`, and what `splice` keeps.
use mathlib.Core.List.{Perm, Permᴰ, append_assoc, perm_append_comm}
use mathlib.Core.List.Permᴰ
use mathlib.Core.List.Perm
use allocators.Common.{
  ℕ, zero, suc, ◌<◌, ◌≡◌, refl, ◌∙◌, ap, subst, List, [], ◌∷◌, ◌++◌, Option, none, some, ◌>>=◌,
  arith, get_elem?, set, length, All, total,
}

module _ {ℓ} {A : Type ℓ} where
  unfoldable pub back : List A → Option A
  back [] = none
  back (x ∷ []) = some x
  back (x ∷ y ∷ xs) = back (y ∷ xs)

  unfoldable pub pop_back : List A → List A
  pop_back [] = []
  pop_back (x ∷ []) = []
  pop_back (x ∷ y ∷ xs) = x ∷ pop_back (y ∷ xs)

  -- `std::swap(*it, from.back()); from.pop_back();` once the element at `it` is moved away; `none`
  -- where `it` is the end.
  unfoldable pub take_out : ℕ → List A → Option (A × List A)
  unfolding back pop_back
  take_out i xs = do x ← get_elem? xs i; b ← back xs; some (x, pop_back (set xs i b))

  -- The vectors `to` and `from` after `splice(to, pos, from, it)`.
  unfoldable pub splice : (to from : List A) → ℕ → Option (List A × List A)
  unfolding take_out
  splice to from i = do (x, rest) ← take_out i from; some (to ++ x ∷ [], rest)

  -- A valid iterator: the element goes out, and the rest stays, in some order, whatever the element
  -- at the iterator is changed to before.
  pub record Extraction (i : ℕ) (xs : List A) : Type ℓ where
    pub elem : A
    pub rest : List A
    pub at : get_elem? xs i ≡ some elem
    pub taken : (v : A) → take_out i (set xs i v) ≡ some (v, rest)
    pub same : Permᴰ xs (elem ∷ rest)
    pub same_set : (v : A) → Permᴰ (set xs i v) (v ∷ rest)

  back-pop :
      (x : A) (xs : List A)
      → (b : A) × (back (x ∷ xs) ≡ some b) × Permᴰ (x ∷ xs) (b ∷ pop_back (x ∷ xs))
  unfolding back pop_back
  back-pop x [] = (x, refl, Permᴰ.refl (x ∷ []))
  back-pop x (y ∷ xs) =
      let (b, e, p) = back-pop y xs in
      (b, e, Permᴰ.trans (Permᴰ.cons refl p) (Permᴰ.swap refl refl))

  pop_back-set :
      (x y : A) (xs : List A) (i : ℕ) (b : A)
      → pop_back (x ∷ set (y ∷ xs) i b) ≡ x ∷ pop_back (set (y ∷ xs) i b)
  unfolding pop_back
  pop_back-set x y xs zero b = refl
  pop_back-set x y xs (suc i) b = refl

  -- One element further from the front.
  pub take_out-suc :
      (x y : A) (xs : List A) (i : ℕ) (a : A) (r : List A)
      → take_out i (y ∷ xs) ≡ some (a, r)
      → take_out (suc i) (x ∷ y ∷ xs) ≡ some (a, x ∷ r)
  unfolding take_out
  take_out-suc x y xs i a r h =
      let (b, e, _) = back-pop y xs in
      let b' : back (x ∷ y ∷ xs) ≡ some b = e in ground (arith, e, b', pop_back-set x y xs i b)

  take_out-suc-set :
      (x y : A) (xs : List A) (i : ℕ) (a v : A) (r : List A)
      → take_out i (set (y ∷ xs) i v) ≡ some (a, r)
      → take_out (suc i) (x ∷ set (y ∷ xs) i v) ≡ some (a, x ∷ r)
  take_out-suc-set x y xs zero a v r h = take_out-suc x v xs zero a r h
  take_out-suc-set x y xs (suc i) a v r h = take_out-suc x y (set xs i v) (suc i) a r h

  pub take_out-Extraction : (i : ℕ) (xs : List A) → i < length xs → Extraction i xs
  unfolding take_out
  take_out-Extraction i [] h = elim h [ ]
  take_out-Extraction zero (x ∷ []) h = record {
    elem = x;
    rest = [];
    at = refl;
    taken = λ v. refl;
    same = Permᴰ.refl (x ∷ []);
    same_set = λ v. Permᴰ.refl (v ∷ []);
  }
  take_out-Extraction zero (x ∷ y ∷ xs) h =
      let (b, e, p) = back-pop y xs in
      record {
        elem = x;
        rest = pop_back (b ∷ y ∷ xs);
        at = refl;
        taken = λ v. rw e;
        same = Permᴰ.cons refl p;
        same_set = λ v. Permᴰ.cons refl p;
      }
  take_out-Extraction (suc i) (x ∷ []) h = absurd (omega arith)
  take_out-Extraction (suc i) (x ∷ y ∷ xs) h =
      let ih = take_out-Extraction i (y ∷ xs) (omega arith) in
      record {
        elem = ih.elem;
        rest = x ∷ ih.rest;
        at = ih.at;
        taken = λ v. take_out-suc-set x y xs i v v ih.rest (ih.taken v);
        same = Permᴰ.trans (Permᴰ.cons refl ih.same) (Permᴰ.swap refl refl);
        same_set = λ v. Permᴰ.trans (Permᴰ.cons refl (ih.same_set v)) (Permᴰ.swap refl refl);
      }

  pub set-get : (i : ℕ) (xs : List A) (x : A) → get_elem? xs i ≡ some x → set xs i x ≡ xs
  set-get i [] x h = refl
  set-get zero (y ∷ xs) x h = cc
  set-get (suc i) (y ∷ xs) x h = rw (set-get i xs x h)

  pub take_out-Out_self :
      {i : ℕ} {xs : List A} (o : Extraction i xs) → take_out i xs ≡ some (o.elem, o.rest)
  take_out-Out_self {i} {xs} o =
      subst (λ ys. take_out i ys ≡ some (o.elem, o.rest)) (set-get i xs o.elem o.at)
        (o.taken o.elem)

  pub back-append : (xs : List A) (x : A) → back (xs ++ x ∷ []) ≡ some x
  unfolding back
  back-append [] x = refl
  back-append (y ∷ []) x = refl
  back-append (y ∷ z ∷ xs) x = back-append (z ∷ xs) x

  pub pop_back-append : (xs : List A) (x : A) → pop_back (xs ++ x ∷ []) ≡ xs
  unfolding pop_back
  pop_back-append [] x = refl
  pop_back-append (y ∷ []) x = refl
  pop_back-append (y ∷ z ∷ xs) x = rw (pop_back-append (z ∷ xs) x)

  pub All-perm {κ} : (P : A → Type κ) {xs ys : List A} → Permᴰ xs ys → All P xs → All P ys
  All-perm P Permᴰ.nil h = h
  All-perm P (Permᴰ.cons e p) h = (subst P e h.0, All-perm P p h.1)
  All-perm P (Permᴰ.swap e e') h = (subst P e' h.1.0, (subst P e h.0, h.1.1))
  All-perm P (Permᴰ.trans p q) h = All-perm P q (All-perm P p h)

  pub total-perm : (f : A → ℕ) {xs ys : List A} → Permᴰ xs ys → total f xs ≡ total f ys
  total-perm f Permᴰ.nil = refl
  total-perm f (Permᴰ.cons e p) = omega (arith, ap f e, total-perm f p)
  total-perm f (Permᴰ.swap e e') = omega (arith, ap f e, ap f e')
  total-perm f (Permᴰ.trans p q) = total-perm f p ∙ total-perm f q

  pub length-perm : {xs ys : List A} → Permᴰ xs ys → length xs ≡ length ys
  length-perm Permᴰ.nil = refl
  length-perm (Permᴰ.cons e p) = ap suc (length-perm p)
  length-perm (Permᴰ.swap e e') = refl
  length-perm (Permᴰ.trans p q) = length-perm p ∙ length-perm q

  -- The lists of the elements, joined.
  abbrev pub flat {κ} : {B : Type κ} → (A → List B) → List A → List B
  flat f [] = []
  flat f (x ∷ xs) = f x ++ flat f xs

  pub flat-append {κ} :
      {B : Type κ} (f : A → List B) (xs ys : List A) → flat f (xs ++ ys) ≡ flat f xs ++ flat f ys
  flat-append f [] ys = refl
  flat-append f (x ∷ xs) ys = rw (flat-append f xs ys, append_assoc)

  pub flat-perm {κ} :
      {B : Type κ} (f : A → List B) {xs ys : List A} → Permᴰ xs ys → Perm (flat f xs) (flat f ys)
  flat-perm f Permᴰ.nil = Perm.nil
  flat-perm f (Permᴰ.cons {b} e p) = rw e (Perm.append_left (f b) (flat-perm f p))
  flat-perm f (Permᴰ.swap {a'} {b'} {l} e e') =
      rw (e, e', ← append_assoc, ← append_assoc)
        (Perm.append_right (flat f l) (perm_append_comm (f b') (f a')))
  flat-perm f (Permᴰ.trans p q) = Perm.trans (flat-perm f p) (flat-perm f q)
