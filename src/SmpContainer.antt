-- ===== src/SmpContainer.antt =====
-- Allocators/SmpContainer.h: a container under a shared mutex (`SmpContainersBase`), with the operations of
-- `SmpVector` and of `SmpMap` over a vector of pairs. A call holds the mutex throughout: it is one
-- step. A fallible function is one whose undefined behaviour is `none`.
use allocators.Common.{
  ℕ, zero, suc, Bool, true, false, List, [], ◌∷◌, ◌++◌, Option, none, some, ◌>>=◌, ◌==◌,
  if◌then◌else◌,
}

module _ {A : Type 0} where
  unfoldable pub empty : List A → Bool
  empty [] = true
  empty (x ∷ cont) = false

  -- `SmpContainersBase(SmpContainersBase&&)`: the new container, and the other one afterwards.
  unfoldable pub move_construct : (other : List A) → List A × List A
  move_construct other = (other, [])

  -- `SmpVector::emplace_back`
  unfoldable pub emplace_back : A → List A → List A
  emplace_back x cont = cont ++ x ∷ []

  -- `SmpVector::emplace` in front of the element at the iterator `it`; `none` behind the end.
  unfoldable pub emplace_at : (it : ℕ) → A → List A → Option (List A)
  emplace_at zero x cont = some (x ∷ cont)
  emplace_at (suc it) x [] = none
  emplace_at (suc it) x (y ∷ cont) = do cont' ← emplace_at it x cont; some (y ∷ cont')

  -- `iterate`: `func` is called on each element, which it may change, up to the first for which it
  -- returns true. `s` is what it has captured.
  unfoldable pub iterate :
      {S : Type 0} (func : A → S → Option (Bool × A × S)) → S → List A → Option (S × List A)
  iterate func s [] = some (s, [])
  iterate func s (x ∷ cont) = do
    (ret, x', s') ← func x s
    if ret
        then some (s', x' ∷ cont)
        else (do (s'', cont') ← iterate func s' cont; some (s'', x' ∷ cont'))

module _ {V : Type 0} where
  -- `SmpMap::emplace`
  unfoldable pub emplace : (key : ℕ) → V → List (ℕ × V) → List (ℕ × V)
  emplace key v l = l ++ (key, v) ∷ []

  -- `SmpMap::find` in a vector; `none` is the end.
  unfoldable pub find : (key : ℕ) → List (ℕ × V) → Option V
  find key [] = none
  find key ((k, v) ∷ l) = if k == key then some v else find key l

  -- The value at the iterator that `find` returns is written.
  unfoldable pub write : (key : ℕ) → V → List (ℕ × V) → List (ℕ × V)
  write key v [] = []
  write key v ((k, u) ∷ l) = if k == key then (k, v) ∷ l else (k, u) ∷ write key v l
