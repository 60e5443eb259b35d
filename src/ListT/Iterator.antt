-- ===== src/ListT/Iterator.antt =====
-- Allocators/AllocHelpers.h, `ListT::iterator`: the address of a node.
use allocators.Common.{
  ℕ, zero, suc, ◌<◌, ◌≡◌, refl, Bool, true, false, not, List, [], ◌∷◌, ◌++◌, Option, some, none,
  ◌>>=◌, ◌==◌, if◌then◌else◌, arith, All, length, map, ◌∙◌, bind_some,
}
use allocators.ListT.{Ptr, null, Heap, ListT, read_elem, advance, begin, end}
use allocators.ListT.Links.{has-append, Distinct, Links}
use allocators.ListT.Shape.{IsList, ptrs}
use allocators.ListT.Loop.{Lives, front, next_front, front-Lives, tail-Links, advance-eq}
use allocators.ListT.Clear.{lives, begin-eq}

unfoldable pub eq : (it other : Ptr) → Bool
eq it other = it == other

unfoldable pub ne : (it other : Ptr) → Bool
unfolding eq
ne it other = not (eq it other)

module _ {T : Type 0} where
  -- `*it`
  unfoldable pub deref : Ptr → Heap T → Option T
  unfolding read_elem
  deref it h = read_elem it h

  -- `it++`: what it returns, and the iterator.
  unfoldable pub post_advance : Ptr → Heap T → Option (Ptr × Ptr)
  unfolding advance
  post_advance it h = do it' ← advance it h; some (it, it')

  -- `for (auto it = ...; it != stop; it++)`, on fuel: what the program reads.
  unfoldable pub read_from : (fuel : ℕ) → (it stop : Ptr) → Heap T → Option (List T)
  unfolding ne deref post_advance
  read_from zero it stop h = none
  read_from (suc fuel) it stop h =
      let rest : Option (List T) = (do (_, it') ← post_advance it h; read_from fuel it' stop h) in
      if ne it stop then (do x ← deref it h; xs ← rest; some (x ∷ xs)) else some []

  read_from-step :
      (fuel : ℕ) (h : Heap T) (p q e : Ptr) (x : T) (xs : List T)
      → (p == e) ≡ false
      → h.live p ≡ true
      → h.elem p ≡ some x
      → advance p h ≡ some q
      → read_from fuel q e h ≡ some xs
      → read_from (suc fuel) p e h ≡ some (x ∷ xs)
  unfolding read_from read_elem
  read_from-step fuel h p q e x xs other live elem step rest =
      let read : deref p h ≡ some x = rw (live, elem) refl in
      let moved : post_advance p h ≡ some (p, q) = bind_some (advance p h) _ q step in
      let later : Option (List T) = (do (_, it') ← post_advance p h; read_from fuel it' e h) in
      let walked : later ≡ some xs = bind_some (post_advance p h) _ (p, q) moved ∙ rest in
      rw other (bind_some (deref p h) _ x read ∙ bind_some later _ xs walked)

  read_from-end : (fuel : ℕ) (h : Heap T) (e : Ptr) → read_from (suc fuel) e e h ≡ some []
  unfolding read_from
  read_from-end fuel h e = let same : (e == e) ≡ true = ground arith in rw same refl

  read_from-eq :
      (fuel : ℕ) (h : Heap T) (cells : List (Ptr × T)) (e : Ptr)
      → Links h (ptrs cells ++ e ∷ [])
      → Distinct (ptrs cells ++ e ∷ [])
      → Lives h (ptrs cells ++ e ∷ [])
      → All (λ c. h.elem c.0 ≡ some c.1) cells
      → h.live null ≡ false
      → length cells < fuel
      → read_from fuel (front (ptrs cells) e) e h ≡ some (map (λ c. c.1) cells)
  unfolding Lives
  read_from-eq zero h cells e links distinct lives elems fault enough = absurd (omega arith)
  read_from-eq (suc fuel) h [] e links distinct lives elems fault enough = read_from-end fuel h e
  read_from-eq (suc fuel) h ((p, x) ∷ cells) e links distinct lives elems fault enough =
      let k = ptrs cells in
      let other : (p == e) ≡ false = ground (arith, has-append p k (e ∷ []), distinct.0) in
      read_from-step fuel h p (front k e) e x (map (λ c. c.1) cells) other lives.0 elems.0
        (advance-eq h p (front k e) lives.0 (next_front h p k e links) (front-Lives h k e lives.1)
          fault)
        (read_from-eq fuel h cells e (tail-Links h p k e links) distinct.1 lives.1 elems.1 fault
          (omega arith))

-- A loop from `begin()` to `end()` reads the elements of a list, each once and in order, and ends
-- after as many turns as the list has elements.
pub read_from-IsList :
    {T : Type 0} (h : Heap T) (l : ListT) (cells : List (Ptr × T))
    → IsList h l cells
    → (do it ← begin l h; read_from (suc (length cells)) it (end l) h) ≡ some (map (λ c. c.1) cells)
unfolding end Lives
read_from-IsList h l cells is =
    bind_some (begin l h) _ (front (ptrs cells) l.my_end) (begin-eq h l cells is)
    ∙ read_from-eq (suc (length cells)) h cells l.my_end
        (tail-Links h l.my_head (ptrs cells) l.my_end is.links) is.distinct.1 (lives h l cells is)
        is.elems is.fault (omega arith)
