-- ===== src/ListT/Emplace.antt =====
-- `emplace` and `emplace_back` put an element before an iterator, and at the end.
use mathlib.Core.List.{append-nil}
use allocators.Common.{
  ◌+◌, ◌<◌, ◌^◌, ◌≡◌, ◌≢◌, refl, true, false, List, [], ◌∷◌, ◌++◌, some, arith, All, length, subst,
  sym,
}
use allocators.ListT.{Ptr, null, Heap, ListT, new_node, emplace, emplace_back}
use allocators.ListT.Links.{has}
use allocators.ListT.Frame.{has_ne, Same-IsList}
use allocators.ListT.Shape.{IsList, nodes, first}
use allocators.ListT.Insert.{insert_at-IsList}

module _ {T : Type 0} (h : Heap T) (n : Ptr) (x : T) (unused : h.live n ≡ false)
    (real : n ≢ null) where
  not_has : (k : List Ptr) → All (λ p. h.live p ≡ true) k → has n k ≡ false
  not_has [] all = refl
  not_has (p ∷ k) all = ground (arith, not_has k all.1)

  module _ (l : ListT) (cells : List (Ptr × T)) (is : IsList h l cells) where
    apart_nodes : has n (nodes l cells) ≡ false
    apart_nodes = not_has (nodes l cells) is.live

    new_node-IsList : IsList (new_node n (some x) h) l cells
    unfolding new_node
    new_node-IsList =
        Same-IsList h (new_node n (some x) h) l cells
          (λ p i.
            let other = has_ne (nodes l cells) p n i apart_nodes in
            record {
              live = ground arith;
              elem = ground arith;
              next = ground arith;
              prev = ground arith;
            })
          (ground arith) is

  -- `emplace` before any element, or at the end, puts a node with the new element there: the list
  -- stays linked in both directions, holds the elements before and behind in order, and counts one
  -- more. The address is one that no node has, and the size does not overflow.
  pub emplace-IsList :
      (l : ListT) (xs ys : List (Ptr × T))
      → IsList h l (xs ++ ys)
      → length (xs ++ ys) + 1 < 2 ^ 64
      → (l' : ListT) × (h' : Heap T) × (emplace n x (first l ys) l h ≡ some (l', h'))
        × IsList h' l' (xs ++ (n, x) ∷ ys)
        × (l'.my_head ≡ l.my_head)
        × (l'.my_end ≡ l.my_end)
  unfolding emplace new_node
  emplace-IsList l xs ys is small =
      let (l', h', e, is', head, end', _) =
        insert_at-IsList (new_node n (some x) h) l xs ys (new_node-IsList l (xs ++ ys) is) n x
          (ground arith) (ground arith) (apart_nodes l (xs ++ ys) is) small in
      (l', h', e, is', head, end')

  -- `emplace_back` puts it at the end, under the same conditions.
  pub emplace_back-IsList :
      (l : ListT) (xs : List (Ptr × T))
      → IsList h l xs
      → length xs + 1 < 2 ^ 64
      → (l' : ListT) × (h' : Heap T) × (emplace_back n x l h ≡ some (l', h'))
        × IsList h' l' (xs ++ (n, x) ∷ [])
  unfolding emplace_back
  emplace_back-IsList l xs is small =
      let same = append-nil xs in
      let (l', h', e, is', _, _) =
        emplace-IsList l xs [] (subst (IsList h l) (sym same) is) (rw same small) in
      (l', h', e, is')
