-- ===== src/ListT/Frame.antt =====
-- A heap that agrees with another one on the nodes of a list holds the same list.
use allocators.Common.{
  ◌≡◌, true, false, List, [], ◌∷◌, ◌++◌, some, ◌==◌, Bool-cases, arith, All, ◌∙◌, ap, inl, inr,
}
use allocators.ListT.{Ptr, null, Heap, ListT}
use allocators.ListT.Links.{has, has-append, frame_after}
use allocators.ListT.Shape.{IsList, nodes, ptrs}

pub has_last : (k : List Ptr) (e : Ptr) → has e (k ++ e ∷ []) ≡ true
has_last [] e = ground arith
has_last (x ∷ k) e = ground (arith, has_last k e)

-- The two nodes around a position are none outside.
pub has_around :
    (us : List Ptr) (a b : Ptr) (vs : List Ptr) (p : Ptr)
    → has p (us ++ a ∷ b ∷ vs) ≡ false
    → ((p == a) ≡ false) × ((p == b) ≡ false)
has_around us a b vs p out =
    (ground (arith, has-append p us (a ∷ b ∷ vs)), ground (arith, has-append p us (a ∷ b ∷ vs)))

pub has_ne : (k : List Ptr) (p q : Ptr) → has p k ≡ true → has q k ≡ false → (p == q) ≡ false
has_ne k p q inside outside = elim (Bool-cases (p == q)) [
  | inl e ↦ let at : p ≡ q = ground arith in absurd (cc (ap (λ x. has x k) at))
  | inr ne ↦ ne
]

module _ {T : Type 0} where
  -- The node at `p` is the same in both heaps.
  pub record Same (h g : Heap T) (p : Ptr) : Type 0 where
    pub live : g.live p ≡ h.live p
    pub elem : g.elem p ≡ h.elem p
    pub next : g.next p ≡ h.next p
    pub prev : g.prev p ≡ h.prev p

  module _ (h g : Heap T) where
    Same-live :
        (k : List Ptr)
        → ((p : Ptr) → has p k ≡ true → Same h g p)
        → All (λ p. h.live p ≡ true) k
        → All (λ p. g.live p ≡ true) k
    Same-live [] same all = tt
    Same-live (p ∷ k) same all =
        ((same p (ground arith)).live ∙ all.0, Same-live k (λ q i. same q (ground arith)) all.1)

    Same-elems :
        (cells : List (Ptr × T)) (k : List Ptr)
        → ((p : Ptr) → has p (ptrs cells ++ k) ≡ true → Same h g p)
        → All (λ c. h.elem c.0 ≡ some c.1) cells
        → All (λ c. g.elem c.0 ≡ some c.1) cells
    Same-elems [] k same all = tt
    Same-elems (c ∷ cells) k same all = (
      (same c.0 (ground arith)).elem ∙ all.0,
      Same-elems cells k (λ q i. same q (ground arith)) all.1,
    )

    pub Same-IsList :
        (l : ListT) (cells : List (Ptr × T))
        → ((p : Ptr) → has p (nodes l cells) ≡ true → Same h g p)
        → g.live null ≡ h.live null
        → IsList h l cells
        → IsList g l cells
    Same-IsList l cells same fault is = record {
      links =
          frame_after h g l.my_head (ptrs cells ++ l.my_end ∷ []) (λ x i. (same x i).next)
            (λ x i. (same x (ground arith)).prev) is.links;
      distinct = is.distinct;
      live = Same-live (nodes l cells) same is.live;
      elems = Same-elems cells (l.my_end ∷ []) (λ q i. same q (ground arith)) is.elems;
      last = (same l.my_end (ground (arith, has_last (ptrs cells) l.my_end))).next ∙ is.last;
      fault = fault ∙ is.fault;
      size = is.size;
    }
