-- ===== src/ListT/Erase.antt =====
-- `erase` takes an element out.
use allocators.Common.{
  ◌+◌, ◌-◌, ◌%◌, ◌<◌, ◌^◌, ◌≡◌, refl, true, false, List, [], ◌∷◌, ◌++◌, none, some, ◌==◌,
  Bool-cases, arith, All, length, length-append, subst, sym, ap, inl, inr, ◌∙◌,
}
use allocators.ListT.{Ptr, null, Heap, ListT, update, unlink, delete, erase_body, erase}
use allocators.ListT.Links.{
  has, has-append, Distinct, Apart, Distinct-append, append-Distinct, Links, Links-split,
  Links-join, frame_before, frame_after,
}
use allocators.ListT.Shape.{IsList, nodes, ptrs, first, View, view, nodes-View, nodes-View_with}
use allocators.ListT.Insert.{All-middle}
use allocators.ListT.Frame.{Same, has_last, has_ne, Same-IsList}

All-third :
    (P : Ptr → Type 0) (us : List Ptr) (a n b : Ptr) (vs : List Ptr)
    → All P (us ++ a ∷ n ∷ b ∷ vs)
    → P b
All-third P [] a n b vs all = all.1.1.0
All-third P (u ∷ us) a n b vs all = All-third P us a n b vs all.1

-- The heap once the node between `a` and `b` is taken out.
abbrev pub removed : {T : Type 0} → Heap T → (a b : Ptr) → Heap T
removed h a b = record h { next = update h.next a b; prev = update h.prev b a }

module _ {T : Type 0} (h : Heap T) (us : List Ptr) (a n b : Ptr) (vs : List Ptr)
    (distinct : Distinct (us ++ a ∷ n ∷ b ∷ vs)) where
  parts : Apart us (a ∷ n ∷ b ∷ vs)
  parts = Distinct-append us (a ∷ n ∷ b ∷ vs) distinct

  pub removed-Links : Links h (us ++ a ∷ n ∷ b ∷ vs) → Links (removed h a b) (us ++ a ∷ b ∷ vs)
  removed-Links l =
      let (before, link, after) = Links-split h us a n (b ∷ vs) l in
      Links-join (removed h a b) us a b vs
        (frame_before h (removed h a b) us a (λ x i. ground (arith, parts.apart x))
          (λ x i. ground (arith, has-append x us (a ∷ []), parts.apart x, parts.right)) before)
        (ground arith, ground arith)
        (frame_after h (removed h a b) b vs (λ x i. ground (arith, parts.right))
          (λ x i. ground (arith, parts.right)) after.1)

  pub removed-Distinct : Distinct (us ++ a ∷ b ∷ vs)
  removed-Distinct = append-Distinct us (a ∷ b ∷ vs) (record {
    left = parts.left;
    right = (ground (arith, parts.right), parts.right.1.1);
    apart = λ x i. ground (arith, parts.apart x);
  })

  pub removed_next : (e : Ptr) → has e (b ∷ vs) ≡ true → (removed h a b).next e ≡ h.next e
  removed_next e i = ground (arith, parts.right)

  -- The node that is taken out is none of the others.
  pub removed_out : has n (us ++ a ∷ b ∷ vs) ≡ false
  removed_out = elim (Bool-cases (has n us)) [
    | inl i ↦ absurd (ground (arith, parts.apart n i))
    | inr o ↦ ground (arith, has-append n us (a ∷ b ∷ vs), parts.right)
  ]

  pub unlink-eq :
      Links h (us ++ a ∷ n ∷ b ∷ vs)
      → All (λ p. h.live p ≡ true) (us ++ a ∷ n ∷ b ∷ vs)
      → unlink n h ≡ some (removed h a b)
  unfolding unlink
  unlink-eq l live =
      let (_, link, after) = Links-split h us a n (b ∷ vs) l in
      let around = All-middle (λ p. h.live p ≡ true) us a n (b ∷ vs) live in
      let third = All-third (λ p. h.live p ≡ true) us a n b vs live in
      let other : (n == a) ≡ false = ground (arith, parts.right) in
      ground (arith, link, after.0, around, third, other)

All-without :
    (P : Ptr → Type 0) (us : List Ptr) (a n : Ptr) (k : List Ptr)
    → All P (us ++ a ∷ n ∷ k)
    → All P (us ++ a ∷ k)
All-without P [] a n k all = (all.0, all.1.1)
All-without P (u ∷ us) a n k all = (all.0, All-without P us a n k all.1)

All-at :
    {A : Type 0} (P : A → Type 0) (xs : List A) (x : A) (ys : List A) → All P (xs ++ x ∷ ys) → P x
All-at P [] x ys all = all.0
All-at P (y ∷ xs) x ys all = All-at P xs x ys all.1

All-drop :
    {A : Type 0} (P : A → Type 0) (xs ys : List A) (x : A) → All P (xs ++ x ∷ ys) → All P (xs ++ ys)
All-drop P [] ys x all = all.1
All-drop P (y ∷ xs) ys x all = (all.0, All-drop P xs ys x all.1)

pub not_null :
    {T : Type 0} (h : Heap T) (n : Ptr)
    → h.live n ≡ true
    → h.live null ≡ false
    → (n == null) ≡ false
not_null h n live fault = elim (Bool-cases (n == null)) [
  | inl e ↦ let at : n ≡ null = ground arith in absurd (cc (ap h.live at))
  | inr ne ↦ ne
]

module _ {T : Type 0} (h : Heap T) (n : Ptr) where
  -- The heap once `n` is deleted.
  abbrev freed : Heap T
  freed = record h { live = update h.live n false }

module _ {T : Type 0} (h : Heap T) (l : ListT) (xs ys : List (Ptr × T)) (n : Ptr) (x : T)
    (is : IsList h l (xs ++ (n, x) ∷ ys)) (small : length (xs ++ (n, x) ∷ ys) < 2 ^ 64) where
  abbrev pub around : View l xs ys
  around = view l xs ys

  abbrev same : nodes l (xs ++ (n, x) ∷ ys) ≡ around.us ++ around.a ∷ n ∷ first l ys ∷ around.vs
  same = nodes-View_with around (n, x)

  abbrev less : nodes l (xs ++ ys) ≡ around.us ++ around.a ∷ first l ys ∷ around.vs
  less = nodes-View around

  links : Links h (around.us ++ around.a ∷ n ∷ first l ys ∷ around.vs)
  links = subst (Links h) same is.links

  distinct : Distinct (around.us ++ around.a ∷ n ∷ first l ys ∷ around.vs)
  distinct = subst Distinct same is.distinct

  lives : All (λ p. h.live p ≡ true) (around.us ++ around.a ∷ n ∷ first l ys ∷ around.vs)
  lives = subst (All (λ p. h.live p ≡ true)) same is.live

  pub live_erased : h.live n ≡ true
  live_erased =
      (All-middle (λ p. h.live p ≡ true) around.us around.a n (first l ys ∷ around.vs) lives).1

  -- The heap once `n` is taken out of the list.
  abbrev pub unlinked : Heap T
  unlinked = removed h around.a (first l ys)

  pub unlink_there : unlink n h ≡ some unlinked
  unlink_there = unlink-eq h around.us around.a n (first l ys) around.vs distinct links lives

  pub unlinked_out : has n (nodes l (xs ++ ys)) ≡ false
  unlinked_out =
      ap (has n) less ∙ removed_out h around.us around.a n (first l ys) around.vs distinct

  pub erased_has : has n (nodes l (xs ++ (n, x) ∷ ys)) ≡ true
  erased_has =
      ap (has n) same
      ∙ ground (arith, has-append n around.us (around.a ∷ n ∷ first l ys ∷ around.vs))

  pub erased_elem : h.elem n ≡ some x
  erased_elem = All-at (λ c. h.elem c.0 ≡ some c.1) xs (n, x) ys is.elems

  pub less_has :
      (p : Ptr) → has p (nodes l (xs ++ ys)) ≡ true → has p (nodes l (xs ++ (n, x) ∷ ys)) ≡ true
  less_has p i =
      let b = first l ys in
      let i' : has p (around.us ++ around.a ∷ b ∷ around.vs) ≡ true = sym (ap (has p) less) ∙ i in
      ap (has p) same
      ∙ ground (
        arith,
        has-append p around.us (around.a ∷ n ∷ b ∷ around.vs),
        has-append p around.us (around.a ∷ b ∷ around.vs),
      )

  pub unlinked-Same : (p : Ptr) → has p (nodes l (xs ++ (n, x) ∷ ys)) ≡ false → Same h unlinked p
  unlinked-Same p i =
      let b = first l ys in
      let i' : has p (around.us ++ around.a ∷ n ∷ b ∷ around.vs) ≡ false =
        sym (ap (has p) same) ∙ i in
      let split = has-append p around.us (around.a ∷ n ∷ b ∷ around.vs) in
      record {
        live = refl;
        elem = refl;
        next = ground (arith, split);
        prev = ground (arith, split);
      }

  pub unlinked-IsList :
      IsList unlinked (record l { my_size = (l.my_size + 2 ^ 64 - 1) % 2 ^ 64 }) (xs ++ ys)
  unlinked-IsList =
      let b = first l ys in
      record {
        links =
            subst (Links unlinked) (sym less)
              (removed-Links h around.us around.a n b around.vs distinct links);
        distinct =
            subst Distinct (sym less)
              (removed-Distinct h around.us around.a n b around.vs distinct);
        live =
            subst (All (λ p. h.live p ≡ true)) (sym less)
              (All-without (λ p. h.live p ≡ true) around.us around.a n (b ∷ around.vs) lives);
        elems = All-drop (λ c. h.elem c.0 ≡ some c.1) xs ys (n, x) is.elems;
        last =
            removed_next h around.us around.a n b around.vs distinct l.my_end
              (sym (ap (has l.my_end) around.after) ∙ has_last (ptrs ys) l.my_end)
            ∙ is.last;
        fault = is.fault;
        size = omega (arith, is.size, length-append xs ((n, x) ∷ ys), length-append xs ys);
      }

  -- The statements of `erase` take the node of any element out and delete it: the list stays linked
  -- in both directions, holds the elements before and behind in order, and counts one less. The size
  -- is a word. A call of `erase` is undefined all the same, since no `return` follows the statements.
  pub erase-IsList :
      (l' : ListT) × (h' : Heap T) × (erase_body n l h ≡ some (l', h'))
      × IsList h' l' (xs ++ ys)
      × (h'.live n ≡ false)
      × (erase n l h ≡ none)
  unfolding erase erase_body delete
  erase-IsList =
      let real : (n == null) ≡ false = not_null h n live_erased is.fault in
      (
        record l { my_size = (l.my_size + 2 ^ 64 - 1) % 2 ^ 64 },
        freed unlinked n,
        rw (unlink_there, real, live_erased) refl,
        Same-IsList unlinked (freed unlinked n)
            (record l { my_size = (l.my_size + 2 ^ 64 - 1) % 2 ^ 64 }) (xs ++ ys)
            (λ p i.
              let other = has_ne (nodes l (xs ++ ys)) p n i unlinked_out in
              record { live = ground arith; elem = refl; next = refl; prev = refl })
            (ground (arith, real)) unlinked-IsList,
        ground arith,
        rw (unlink_there, real, live_erased) refl,
      )
