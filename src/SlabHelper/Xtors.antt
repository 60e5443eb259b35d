-- ===== src/SlabHelper/Xtors.antt =====
-- Allocators/SlabHelper.h, what makes and clears the objects of the slabs: `DefaultXtor`, `CtorArgs`,
-- `XtorFunc`, `DefaultDtor` and `Xtors`. The objects are a function of their addresses, `none` where
-- none lives. The constructors of `T` and the functions that are wrapped are the user's: parameters.
use allocators.Common.{ℕ, Option, some, ◌>>=◌, ◌==◌, if◌then◌else◌}

abbrev pub Objects : Type 0 → Type 0
Objects T = ℕ → Option T

-- What a slab calls.
pub record Xtor (T : Type 0) : Type 0 where
  pub construct : (ptr : ℕ) → Objects T → Option (Objects T)
  pub destruct : (ptr : ℕ) → Objects T → Option (Objects T)

-- What has an `operator()` on a reference.
pub record Functor (T : Type 0) : Type 0 where
  pub call : (ptr : ℕ) → Objects T → Option (Objects T)

module _ {T : Type 0} where
  -- `new (ptr) T(...)`, whatever was there.
  abbrev pub place : (ptr : ℕ) → T → Objects T → Objects T
  place ptr x objects p = if p == ptr then some x else objects p

  -- `DefaultXtor`, where `T()` makes `init`.
  unfoldable pub default_xtor : (init : T) → Xtor T
  default_xtor init = record {
    construct = λ ptr objects. some (place ptr init objects);
    destruct = λ ptr objects. some objects;
  }

  -- `CtorArgs(args...)`, where `make` is the constructor of `T`.
  unfoldable pub ctor_args : {Args : Type 0} (make : Args → T) (args : Args) → Functor T
  ctor_args make args = record { call = λ ptr objects. some (place ptr (make args) objects) }

  -- `XtorFunc(func)`: a reference is to an object.
  unfoldable pub xtor_func : (func : T → T) → Functor T
  xtor_func func = record {
    call = λ ptr objects. objects ptr >>= (λ x. some (place ptr (func x) objects));
  }

  -- `DefaultDtor`
  unfoldable pub default_dtor : Functor T
  default_dtor = record { call = λ ptr objects. some objects }

  -- `CtorArgs` and `XtorFunc` as what a slab calls: their `destruct` is that of `DefaultXtor`.
  unfoldable pub alone : Functor T → Xtor T
  alone f = record {
    construct = λ ptr objects. f.call ptr objects;
    destruct = λ ptr objects. some objects;
  }

  -- `Xtors(ctor, dtor)`
  unfoldable pub xtors : (ctor dtor : Functor T) → Xtor T
  xtors ctor dtor = record {
    construct = λ ptr objects. ctor.call ptr objects;
    destruct = λ ptr objects. dtor.call ptr objects;
  }
