-- ===== src/ListT/Clear.antt =====
-- `clear` and the destructor delete every node of a list, and `ListT()` makes an empty one.
use allocators.Common.{
  ℕ, suc, ◌<◌, ◌≡◌, refl, inl, inr, true, false, not, ◌&&◌, List, [], ◌∷◌, ◌++◌, some, none, ◌>>=◌,
  ◌==◌, if◌then◌else◌, Bool-cases, arith, All, All-append, length, nil_of_length, sym, ◌∙◌,
}
use allocators.ListT.{
  Ptr, null, Heap, ListT, update, delete, delete_from, begin, set_next, set_prev, clear, construct,
  destroy,
}
use allocators.ListT.Links.{has, has-append}
use allocators.ListT.Shape.{IsList, nodes, ptrs}
use allocators.ListT.Erase.{not_null}
use allocators.ListT.Loop.{
  front, gone, gone_lem, gone_dead, Lives, next_front, tail-Links, delete-eq, delete_from-eq,
  has_outside, has_before, Distinct_last, Lives-last, update_dead, length-ptrs,
}

module _ {T : Type 0} (h : Heap T) (l : ListT) (cells : List (Ptr × T))
    (is : IsList h l cells) where
  -- The heap once the elements are deleted.
  abbrev emptied : Heap T
  emptied = record h { live = gone (ptrs cells) h.live }

  pub lives : Lives h (ptrs cells ++ l.my_end ∷ [])
  unfolding Lives
  lives = is.live.1

  pub begin-eq : begin l h ≡ some (front (ptrs cells) l.my_end)
  unfolding begin
  begin-eq = rw (is.live.0, next_front h l.my_head (ptrs cells) l.my_end is.links) refl

  emptied_head : emptied.live l.my_head ≡ true
  emptied_head = ground (
    arith,
    gone_lem (ptrs cells) h.live l.my_head,
    is.live.0,
    has_before l.my_head (ptrs cells) l.my_end is.distinct.0,
  )

  emptied_end : emptied.live l.my_end ≡ true
  emptied_end = ground (
    arith,
    gone_lem (ptrs cells) h.live l.my_end,
    Lives-last h (ptrs cells) l.my_end lives,
    Distinct_last (ptrs cells) l.my_end is.distinct.1,
  )

  emptied_null : emptied.live null ≡ false
  emptied_null = ground (arith, gone_lem (ptrs cells) h.live null, is.fault)

  deleted :
      (n : ℕ)
      → length (ptrs cells) < n
      → delete_from n (front (ptrs cells) l.my_end) l.my_end h ≡ some emptied
  deleted n enough =
      delete_from-eq n h (ptrs cells) l.my_end
        (tail-Links h l.my_head (ptrs cells) l.my_end is.links) is.distinct.1 lives is.fault enough

  pub size_enough : length (ptrs cells) < suc l.my_size
  size_enough = omega (arith, length-ptrs cells, is.size)

  -- The heap of the empty list.
  abbrev relinked : Heap T
  relinked = record emptied {
    next = update h.next l.my_head l.my_end;
    prev = update h.prev l.my_end l.my_head;
  }

  clear-eq : clear l h ≡ some (record l { my_size = 0 }, relinked)
  unfolding clear set_next set_prev
  clear-eq = rw (begin-eq, deleted (suc l.my_size) size_enough, emptied_head, emptied_end) refl

  head_not_end : (l.my_end == l.my_head) ≡ false
  head_not_end = has_outside l.my_head (ptrs cells) l.my_end is.distinct.0

  -- `clear` ends, deletes the nodes of all elements, and leaves the empty list.
  pub clear-IsList :
      (h' : Heap T) × (clear l h ≡ some (record l { my_size = 0 }, h'))
      × IsList h' (record l { my_size = 0 }) []
      × All (λ p. h'.live p ≡ false) (ptrs cells)
  clear-IsList = (
    relinked,
    clear-eq,
    record {
      links = ((ground arith, ground arith), tt);
      distinct = (ground (arith, head_not_end), (refl, tt));
      live = (emptied_head, (emptied_end, tt));
      elems = tt;
      last = ground (arith, head_not_end, is.last);
      fault = emptied_null;
      size = refl;
    },
    gone_dead (ptrs cells) h.live,
  )

  -- The loop of the destructor, which an empty list skips.
  elements_deleted :
      (if not (l.my_head == null) && not (l.my_size == 0)
        then begin l h >>= (λ it. delete_from (suc l.my_size) it l.my_end h)
        else some h)
      ≡ some emptied
  elements_deleted = elim (Bool-cases (l.my_size == 0)) [
    | inl z ↦
        let none_left = nil_of_length cells (sym is.size ∙ ground arith) in
        rw (z, none_left, not_null h l.my_head is.live.0 is.fault) refl
    | inr s ↦
        rw (s, not_null h l.my_head is.live.0 is.fault, begin-eq)
          (deleted (suc l.my_size) size_enough)
  ]

  deleted_head :
      delete l.my_head emptied
      ≡ some (record emptied { live = update emptied.live l.my_head false })
  deleted_head = delete-eq emptied l.my_head emptied_head emptied_null

  deleted_end :
      delete l.my_end (record emptied { live = update emptied.live l.my_head false })
      ≡ some (record emptied { live = update (update emptied.live l.my_head false) l.my_end false })
  deleted_end =
      delete-eq (record emptied { live = update emptied.live l.my_head false }) l.my_end
        (ground (arith, emptied_end, head_not_end)) (ground (arith, emptied_null))

  -- The destructor ends, whatever the list holds, and deletes the nodes of all elements and the two
  -- sentinels; what is not of the list stays.
  pub destroy_all :
      (h' : Heap T) × (destroy l h ≡ some h')
      × All (λ p. h'.live p ≡ false) (nodes l cells)
      × ((p : Ptr) → has p (nodes l cells) ≡ false → h'.live p ≡ h.live p)
  unfolding destroy
  destroy_all =
      let f = update (update emptied.live l.my_head false) l.my_end false in
      (
        record h { live = f },
        rw (elements_deleted, deleted_head, deleted_end) refl,
        (
          ground arith,
          All-append (λ p. f p ≡ false) (ptrs cells) (l.my_end ∷ [])
              (update_dead (update emptied.live l.my_head false) l.my_end (ptrs cells)
                (update_dead emptied.live l.my_head (ptrs cells) (gone_dead (ptrs cells) h.live)))
              (ground arith, tt),
        ),
        λ p out.
            ground
              (arith, gone_lem (ptrs cells) h.live p, has-append p (ptrs cells) (l.my_end ∷ [])),
      )

-- `ListT()` makes the empty list out of two fresh nodes.
pub construct-IsList :
    {T : Type 0} (h : Heap T) (a b : Ptr)
    → (a == b) ≡ false
    → (null == a) ≡ false
    → (null == b) ≡ false
    → h.live null ≡ false
    → (l : ListT) × (h' : Heap T) × (construct a b h ≡ some (l, h')) × IsList h' l []
unfolding construct
construct-IsList h a b apart real_a real_b fault = (
  record { my_head = a; my_end = b; my_size = 0 },
  record {
    live = update (update h.live a true) b true;
    elem = update (update h.elem a none) b none;
    next = update (update (update (update h.next a null) b null) b null) a b;
    prev = update (update (update (update h.prev a null) b null) a null) b a;
  },
  ground arith,
  record {
    links = ((ground arith, ground arith), tt);
    distinct = (ground arith, (refl, tt));
    live = (ground arith, (ground arith, tt));
    elems = tt;
    last = ground arith;
    fault = ground arith;
    size = refl;
  },
)
