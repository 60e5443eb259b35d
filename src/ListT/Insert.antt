-- ===== src/ListT/Insert.antt =====
-- `insertAt` and what builds on it: a `ListT` as the sequence of its elements.
use allocators.Common.{
  ◌+◌, ◌<◌, ◌^◌, ◌≡◌, refl, true, false, List, [], ◌∷◌, ◌++◌, some, arith, All, length,
  length-append, u64, sym, ◌∙◌, ap, subst,
}
use allocators.ListT.{Ptr, Heap, ListT, update, set_prev, insert_at}
use allocators.ListT.Shape.{IsList, nodes, ptrs, first, view, nodes-View, nodes-View_with}
use allocators.ListT.Frame.{has_last, has_around, Same}
use allocators.ListT.Links.{
  has, Distinct, has-append, Apart, Distinct-append, append-Distinct, Links, Links-split,
  Links-join, frame_before, frame_after,
}

-- The heap once `n` stands between `a` and `b`.
abbrev inserted : {T : Type 0} → Heap T → (a n b : Ptr) → Heap T
inserted h a n b = record h {
  next = update (update h.next a n) n b;
  prev = update (update h.prev n a) b n;
}

module _ {T : Type 0} (h : Heap T) (us : List Ptr) (a n b : Ptr) (vs : List Ptr) where
  module _ (distinct : Distinct (us ++ a ∷ b ∷ vs)) (out : has n (us ++ a ∷ b ∷ vs) ≡ false) where
    parts : Apart us (a ∷ b ∷ vs)
    parts = Distinct-append us (a ∷ b ∷ vs) distinct

    out_us : has n us ≡ false
    out_us = ground (arith, has-append n us (a ∷ b ∷ vs))

    out_vs : has n (a ∷ b ∷ vs) ≡ false
    out_vs = ground (arith, has-append n us (a ∷ b ∷ vs))

    out_vs_rest : has n (b ∷ vs) ≡ false
    out_vs_rest = ground (arith, out_vs)

    inserted-Links : Links h (us ++ a ∷ b ∷ vs) → Links (inserted h a n b) (us ++ a ∷ n ∷ b ∷ vs)
    inserted-Links l =
        let (before, link, after) = Links-split h us a b vs l in
        Links-join (inserted h a n b) us a n (b ∷ vs)
          (frame_before h (inserted h a n b) us a (λ x i. ground (arith, parts.apart x, out_us))
            (λ x i.
              ground (arith, has-append x us (a ∷ []), parts.apart x, parts.right, out_us, out_vs))
            before)
          (ground (arith, out_vs), ground (arith, out_vs))
          (
            (ground (arith), ground (arith)),
            frame_after h (inserted h a n b) b vs (λ x i. ground (arith, parts.right, out_vs))
                (λ x i. ground (arith, parts.right, out_vs)) after,
          )

    inserted_next : (e : Ptr) → has e (b ∷ vs) ≡ true → (inserted h a n b).next e ≡ h.next e
    inserted_next e i = ground (arith, parts.right, out_vs)

    inserted-Distinct : Distinct (us ++ a ∷ n ∷ b ∷ vs)
    inserted-Distinct = append-Distinct us (a ∷ n ∷ b ∷ vs) (record {
      left = parts.left;
      right = (ground (arith, out_vs, parts.right), (out_vs_rest, parts.right.1));
      apart = λ x i. ground (arith, parts.apart x, out_us);
    })

All-insert :
    (P : Ptr → Type 0) (us : List Ptr) (a n : Ptr) (k : List Ptr)
    → All P (us ++ a ∷ k)
    → P n
    → All P (us ++ a ∷ n ∷ k)
All-insert P [] a n k all p = (all.0, (p, all.1))
All-insert P (u ∷ us) a n k all p = (all.0, All-insert P us a n k all.1 p)

pub All-middle :
    (P : Ptr → Type 0) (us : List Ptr) (a b : Ptr) (k : List Ptr)
    → All P (us ++ a ∷ b ∷ k)
    → P a × P b
All-middle P [] a b k all = (all.0, all.1.0)
All-middle P (u ∷ us) a b k all = All-middle P us a b k all.1

All-grow :
    {A : Type 0} (P : A → Type 0) (xs ys : List A) (x : A)
    → All P (xs ++ ys)
    → P x
    → All P (xs ++ x ∷ ys)
All-grow P [] ys x all p = (p, all)
All-grow P (y ∷ xs) ys x all p = (all.0, All-grow P xs ys x all.1 p)

module _ {T : Type 0} (h : Heap T) (l : ListT) where
  insert_at-eq :
      (a n b : Ptr)
      → h.prev b ≡ a
      → h.live a ≡ true
      → h.live n ≡ true
      → h.live b ≡ true
      → insert_at n b l h ≡ some (record l { my_size = u64 (l.my_size + 1) }, inserted h a n b)
  unfolding insert_at
  insert_at-eq a n b prev la ln lb = rw (lb, prev, la, ln, ln, lb, set_prev) refl

  module _ (xs ys : List (Ptr × T)) (is : IsList h l (xs ++ ys)) (n : Ptr) (x : T)
      (live : h.live n ≡ true) (elem : h.elem n ≡ some x) (out : has n (nodes l (xs ++ ys)) ≡ false)
      (small : length (xs ++ ys) + 1 < 2 ^ 64) where
    pub insert_at-IsList :
        (l' : ListT) × (h' : Heap T) × (insert_at n (first l ys) l h ≡ some (l', h'))
        × IsList h' l' (xs ++ (n, x) ∷ ys)
        × (l'.my_head ≡ l.my_head)
        × (l'.my_end ≡ l.my_end)
        × ((p : Ptr) → has p (n ∷ nodes l (xs ++ ys)) ≡ false → Same h h' p)
    insert_at-IsList =
        let v = view l xs ys in
        let b = first l ys in
        let same = nodes-View v in
        let links = subst (Links h) same is.links in
        let distinct = subst Distinct same is.distinct in
        let all = subst (All (λ p. h.live p ≡ true)) same is.live in
        let out' : has n (v.us ++ v.a ∷ b ∷ v.vs) ≡ false = sym (ap (has n) same) ∙ out in
        let link = (Links-split h v.us v.a b v.vs links).1 in
        let around = All-middle (λ p. h.live p ≡ true) v.us v.a b v.vs all in
        let grown = sym (nodes-View_with v (n, x)) in
        (
          record l { my_size = u64 (l.my_size + 1) },
          inserted h v.a n b,
          insert_at-eq v.a n b link.1 around.0 live around.1,
          record {
            links =
                subst (Links (inserted h v.a n b)) grown
                  (inserted-Links h v.us v.a n b v.vs distinct out' links);
            distinct = subst Distinct grown (inserted-Distinct h v.us v.a n b v.vs distinct out');
            live =
                subst (All (λ p. h.live p ≡ true)) grown
                  (All-insert (λ p. h.live p ≡ true) v.us v.a n (b ∷ v.vs) all live);
            elems = All-grow (λ c. h.elem c.0 ≡ some c.1) xs ys (n, x) is.elems elem;
            last =
                inserted_next h v.us v.a n b v.vs distinct out' l.my_end
                  (sym (ap (has l.my_end) v.after) ∙ has_last (ptrs ys) l.my_end)
                ∙ is.last;
            fault = is.fault;
            size = omega (arith, is.size, length-append xs ys, length-append xs ((n, x) ∷ ys));
          },
          refl,
          refl,
          λ p i.
              let outside = has_around v.us v.a b v.vs p (sym (ap (has p) same) ∙ ground arith) in
              record {
                live = refl;
                elem = refl;
                next = ground (arith, outside);
                prev = ground (arith, outside);
              },
        )
