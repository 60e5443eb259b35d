-- ===== src/ListT/Shape.antt =====
-- What a `ListT` stands for: the addresses and the elements of its nodes, in order.
use mathlib.Core.List.{append_assoc, map-append}
use allocators.Common.{◌≡◌, refl, true, false, List, [], ◌∷◌, ◌++◌, some, All, length, ◌∙◌, ap, map}
use allocators.ListT.{Ptr, null, Heap, ListT}
use allocators.ListT.Links.{Distinct, Links}

abbrev pub ptrs {ℓ} : {T : Type ℓ} → List (Ptr × T) → List Ptr
ptrs = map λ c. c.0

-- The addresses of a list, its sentinels included.
abbrev pub nodes {ℓ} : {T : Type ℓ} → ListT → List (Ptr × T) → List Ptr
nodes l cells = l.my_head ∷ (ptrs cells ++ l.my_end ∷ [])

pub record IsList {T : Type 0} (h : Heap T) (l : ListT) (cells : List (Ptr × T)) : Type 0 where
  pub links : Links h (nodes l cells)
  pub distinct : Distinct (nodes l cells)
  pub live : All (λ x. h.live x ≡ true) (nodes l cells)
  pub elems : All (λ c. h.elem c.0 ≡ some c.1) cells
  pub last : h.next l.my_end ≡ null
  pub fault : h.live null ≡ false
  pub size : l.my_size ≡ length cells

-- The node that an iterator in front of `ys` points at.
abbrev pub first {ℓ} : {T : Type ℓ} → ListT → List (Ptr × T) → Ptr
first l [] = l.my_end
first l (c ∷ ys) = c.0

-- A list that is not empty, seen from its end.
pub record Snoc (x : Ptr) (l : List Ptr) : Type 0 where
  pub us : List Ptr
  pub a : Ptr
  pub same : x ∷ l ≡ us ++ a ∷ []

pub snoc : (x : Ptr) (l : List Ptr) → Snoc x l
snoc x [] = record { us = []; a = x; same = refl }
snoc x (y ∷ l) =
    let s = snoc y l in record { us = x ∷ s.us; a = s.a; same = ap (λ k. x ∷ k) s.same }

-- The nodes around a position.
pub record View {T : Type 0} (l : ListT) (xs ys : List (Ptr × T)) : Type 0 where
  pub us : List Ptr
  pub a : Ptr
  pub vs : List Ptr
  pub before : l.my_head ∷ ptrs xs ≡ us ++ a ∷ []
  pub after : ptrs ys ++ l.my_end ∷ [] ≡ first l ys ∷ vs

after_lem :
    {T : Type 0} (l : ListT) (ys : List (Ptr × T))
    → (vs : List Ptr) × (ptrs ys ++ l.my_end ∷ [] ≡ first l ys ∷ vs)
after_lem l [] = ([], refl)
after_lem l (c ∷ ys) = (ptrs ys ++ l.my_end ∷ [], refl)

pub view : {T : Type 0} (l : ListT) (xs ys : List (Ptr × T)) → View l xs ys
view l xs ys =
    let s = snoc l.my_head (ptrs xs) in
    let (vs, after) = after_lem l ys in
    record { us = s.us; a = s.a; vs = vs; before = s.same; after = after }

module _ {T : Type 0} {l : ListT} {xs ys : List (Ptr × T)} (v : View l xs ys) where
  pub nodes-View : nodes l (xs ++ ys) ≡ v.us ++ v.a ∷ first l ys ∷ v.vs
  nodes-View =
      rw (map-append (λ c. c.0) xs ys, append_assoc, v.after)
        (ap (λ k. k ++ first l ys ∷ v.vs) v.before
          ∙ append_assoc v.us (v.a ∷ []) (first l ys ∷ v.vs))

  pub nodes-View_with :
      (c : Ptr × T) → nodes l (xs ++ c ∷ ys) ≡ v.us ++ v.a ∷ c.0 ∷ first l ys ∷ v.vs
  nodes-View_with c =
      rw (map-append (λ c. c.0) xs (c ∷ ys), append_assoc, v.after)
        (ap (λ k. k ++ c.0 ∷ first l ys ∷ v.vs) v.before
          ∙ append_assoc v.us (v.a ∷ []) (c.0 ∷ first l ys ∷ v.vs))
