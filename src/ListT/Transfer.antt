-- ===== src/ListT/Transfer.antt =====
-- `splice` moves an element from one list to another.
use allocators.Common.{
  ◌+◌, ◌-◌, ◌%◌, ◌<◌, ◌^◌, ◌≡◌, refl, true, false, List, ◌∷◌, ◌++◌, some, Bool-cases, arith, length,
  sym, ◌∙◌, inl, inr,
}
use allocators.ListT.{Ptr, Heap, ListT, splice}
use allocators.ListT.Links.{has}
use allocators.ListT.Shape.{IsList, nodes, first}
use allocators.ListT.Frame.{Same-IsList, has_ne}
use allocators.ListT.Insert.{insert_at-IsList}
use allocators.ListT.Erase.{
  erased_has, erased_elem, less_has, unlinked-Same, unlinked, unlink_there, unlinked_out,
  unlinked-IsList, live_erased,
}

module _ {T : Type 0} (h : Heap T) (l o : ListT) (xs ys zs ws : List (Ptr × T)) (n : Ptr) (x : T)
    (is : IsList h l (xs ++ ys)) (is' : IsList h o (zs ++ (n, x) ∷ ws))
    (apart : (p : Ptr)
      → has p (nodes l (xs ++ ys)) ≡ true
      → has p (nodes o (zs ++ (n, x) ∷ ws)) ≡ false)
    (small : length (xs ++ ys) + 1 < 2 ^ 64) (small' : length (zs ++ (n, x) ∷ ws) < 2 ^ 64) where
  -- The node that moves is none of the list that it moves to.
  out : has n (nodes l (xs ++ ys)) ≡ false
  out = elim (Bool-cases (has n (nodes l (xs ++ ys)))) [
    | inl i ↦ absurd (cc (apart n i, erased_has h o zs ws n x is' small'))
    | inr e ↦ e
  ]

  -- The heap between the two halves of the move.
  abbrev between : Heap T
  between = unlinked h o zs ws n x is' small'

  between-IsList : IsList between l (xs ++ ys)
  between-IsList =
      Same-IsList h between l (xs ++ ys)
        (λ p i. unlinked-Same h o zs ws n x is' small' p (apart p i)) refl is

  -- A node that stays is neither the one that moves nor one of the list that it moves to.
  stays : (p : Ptr) → has p (nodes o (zs ++ ws)) ≡ true → has p (n ∷ nodes l (xs ++ ys)) ≡ false
  stays p i = elim (Bool-cases (has p (nodes l (xs ++ ys)))) [
    | inl j ↦ absurd (cc (apart p j, less_has h o zs ws n x is' small' p i))
    | inr e ↦
        let other = has_ne (nodes o (zs ++ ws)) p n i (unlinked_out h o zs ws n x is' small') in
        ground arith
  ]

  -- `splice` of an element of another list takes it out there and puts its node before the
  -- position: both lists stay linked in both directions and counted, and the node is neither
  -- copied nor deleted. The lists share no node, and their sizes are words before and after.
  pub splice-IsList :
      (l' o' : ListT) × (h' : Heap T) × (splice (first l ys) n l o h ≡ some ((l', o'), h'))
      × IsList h' l' (xs ++ (n, x) ∷ ys)
      × IsList h' o' (zs ++ ws)
  unfolding splice
  splice-IsList =
      let (l', h', e, made, _, _, same) =
        insert_at-IsList between l xs ys between-IsList n x (live_erased h o zs ws n x is' small')
          (erased_elem h o zs ws n x is' small') out small in
      let o' : ListT = record o { my_size = (o.my_size + 2 ^ 64 - 1) % 2 ^ 64 } in
      let taken = unlinked-IsList h o zs ws n x is' small' in
      (
        l',
        o',
        h',
        rw (unlink_there h o zs ws n x is' small', e) refl,
        made,
        Same-IsList between h' o' (zs ++ ws) (λ p i. same p (stays p i)) (made.fault ∙ sym is.fault)
            taken,
      )
