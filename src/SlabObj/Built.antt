-- ===== src/SlabObj/Built.antt =====
-- The objects of a slab, through the calls that it makes of `Cache::xtors`.
use allocators.Common.{
  ℕ, zero, suc, ◌+◌, ◌*◌, ◌<◌, ◌≤◌, ◌≡◌, ◌≢◌, refl, inl, inr, List, [], ◌∷◌, ◌++◌, Option, none,
  some, ◌>>=◌, ◌==◌, Bool-cases, bind_some, Option-cases, arith, ◌∙◌, ap, sym, subst,
}
use mathlib.Core.Option.{some-injective}
use allocators.SlabHelper.Xtors.{Objects, Xtor, Functor, place, xtors, xtor_func}
use allocators.SlabObj.Slab.{Slab, XtorCall, construct_all, construct_slab, deallocate}

module _ {T : Type 0} (x : Xtor T) where
  unfoldable pub perform_one : XtorCall → Objects T → Option (Objects T)
  perform_one (XtorCall.construct ptr) objects = x.construct ptr objects
  perform_one (XtorCall.destruct ptr) objects = x.destruct ptr objects

  -- The calls in order.
  unfoldable pub perform : List XtorCall → Objects T → Option (Objects T)
  unfolding perform_one
  perform [] objects = some objects
  perform (c ∷ calls) objects = do o ← perform_one c objects; perform calls o

  perform-append :
      (l k : List XtorCall) (objects o : Objects T)
      → perform l objects ≡ some o
      → perform (l ++ k) objects ≡ perform k o
  unfolding perform
  perform-append [] k objects o e = ap (perform k) (some-injective _ _ e)
  perform-append (c ∷ l) k objects o e = elim (Option-cases (perform_one c objects)) [
    | inl stuck ↦
        let none_left : perform (c ∷ l) objects ≡ none = rw stuck refl in
        absurd (cc (sym none_left ∙ e))
    | inr (o', step) ↦
        bind_some (perform_one c objects) (perform (l ++ k)) o' step
        ∙ perform-append l k o' o (sym (bind_some (perform_one c objects) (perform l) o' step) ∙ e)
  ]

apart : (mem size i k : ℕ) → 0 < size → i < k → mem + size * i ≢ mem + size * k
apart mem size i k pos lt = grind arith

module _ {T : Type 0} (x : Xtor T) (v : T) (size : ℕ) (pos : 0 < size)
    (makes : (ptr : ℕ) (objects : Objects T)
      → x.construct ptr objects ≡ some (place ptr v objects)) where
  construct_all-Made :
      (mem i n : ℕ) (objects : Objects T)
      → (o : Objects T) × (perform x (construct_all size mem i n) objects ≡ some o)
        × ((k : ℕ) → i ≤ k → k < i + n → o (mem + size * k) ≡ some v)
        × ((p : ℕ) → ((k : ℕ) → i ≤ k → k < i + n → p ≢ mem + size * k) → o p ≡ objects p)
  unfolding perform construct_all
  construct_all-Made mem i zero objects =
      (objects, refl, λ k l t. absurd (omega arith), λ p other. refl)
  construct_all-Made mem i (suc n) objects =
      let first = place (mem + size * i) v objects in
      let (o, e, made, kept) = construct_all-Made mem (suc i) n first in
      (
        o,
        rw (makes (mem + size * i) objects) e,
        λ k l t. elim (Bool-cases (k == i)) [
          | inl same ↦
              let first_kept =
                kept (mem + size * i) (λ j l' t'. apart mem size i j pos (omega arith)) in
              subst (λ (j : ℕ). o (mem + size * j) ≡ some v) (ground arith)
                (first_kept ∙ ground arith)
          | inr other ↦ made k (ground arith) (omega arith)
        ],
        λ p other.
            let ne : p ≢ mem + size * i = other i (omega arith) (omega arith) in
            kept p (λ j l' t'. other j (omega arith) (omega arith)) ∙ ground arith,
      )

  -- The constructor of a slab makes every object of the slab the one that the user asked for, and
  -- changes no other memory. What is constructed is a copy of one object, as `CtorArgs` and the
  -- default constructor do, and the type has a size.
  pub construct_slab-Made :
      (block_size count mem : ℕ) (indices : List ℕ) (objects : Objects T)
      → (o : Objects T) × (perform x
            (construct_slab size block_size count mem indices).calls
            objects
          ≡ some o)
        × ((k : ℕ) → k < count → o (mem + size * k) ≡ some v)
        × ((p : ℕ) → ((k : ℕ) → k < count → p ≢ mem + size * k) → o p ≡ objects p)
  unfolding construct_slab
  construct_slab-Made block_size count mem indices objects =
      let (o, e, made, kept) = construct_all-Made mem 0 count objects in
      (
        o,
        e,
        λ k t. made k (omega arith) (omega arith),
        λ p other. kept p (λ k l t. other k (omega arith)),
      )

module _ {T : Type 0} (ctor : Functor T) (func : T → T) (size ptr : ℕ) (s : Slab)
    (objects o : Objects T) (x : T) where
  -- An object that comes back to a slab whose destructor is a function of the user is what the
  -- function makes of it; no other object changes, and it is not constructed again.
  pub deallocate_resets :
      perform (xtors ctor (xtor_func func)) s.calls objects ≡ some o
      → o ptr ≡ some x
      → perform (xtors ctor (xtor_func func)) (deallocate size ptr s).calls objects
        ≡ some (place ptr (func x) o)
  unfolding deallocate perform xtors xtor_func
  deallocate_resets before there =
      perform-append (xtors ctor (xtor_func func)) s.calls (XtorCall.destruct ptr ∷ []) objects o
        before
      ∙ rw there refl
