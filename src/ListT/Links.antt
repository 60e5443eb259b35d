-- ===== src/ListT/Links.antt =====
-- Addresses that are linked in both directions, and what a write to a pointer leaves linked.
use allocators.Common.{◌≡◌, refl, Bool, true, false, ◌||◌, List, [], ◌∷◌, ◌++◌, ◌==◌, arith, ◌∙◌}
use allocators.ListT.{Ptr, Heap}

abbrev pub has : Ptr → List Ptr → Bool
has x [] = false
has x (y ∷ l) = (y == x) || has x l

-- No address stands twice.
abbrev pub Distinct : List Ptr → Type 0
Distinct [] = Unit
Distinct (x ∷ l) = (has x l ≡ false) × Distinct l

pub has-append : (x : Ptr) (l k : List Ptr) → has x (l ++ k) ≡ (has x l || has x k)
has-append x [] k = refl
has-append x (y ∷ l) k = ground (arith, has-append x l k)

pub record Apart (l k : List Ptr) : Type 0 where
  pub left : Distinct l
  pub right : Distinct k
  pub apart : (x : Ptr) → has x l ≡ true → has x k ≡ false

pub Distinct-append : (l k : List Ptr) → Distinct (l ++ k) → Apart l k
Distinct-append [] k d = record { left = tt; right = d; apart = λ x h. absurd (cc) }
Distinct-append (y ∷ l) k d =
    let rest = Distinct-append l k d.1 in
    record {
      left = (ground (arith, has-append y l k), rest.left);
      right = rest.right;
      apart = λ x h. ground (arith, has-append y l k, rest.apart x);
    }

pub append-Distinct : (l k : List Ptr) → Apart l k → Distinct (l ++ k)
append-Distinct [] k a = a.right
append-Distinct (y ∷ l) k a = (
  ground (arith, has-append y l k, a.apart y),
  append-Distinct l k
      (record { left = a.left.1; right = a.right; apart = λ x h. a.apart x (ground arith) }),
)

module _ {T : Type 0} where
  abbrev pub Link : Heap T → (a b : Ptr) → Type 0
  Link h a b = (h.next a ≡ b) × (h.prev b ≡ a)

  -- Each address is linked with the next one.
  abbrev pub Links : Heap T → List Ptr → Type 0
  Links h [] = Unit
  Links h (a ∷ []) = Unit
  Links h (a ∷ b ∷ l) = Link h a b × Links h (b ∷ l)

  pub Links-split :
      (h : Heap T) (us : List Ptr) (a b : Ptr) (vs : List Ptr)
      → Links h (us ++ a ∷ b ∷ vs)
      → Links h (us ++ a ∷ []) × Link h a b × Links h (b ∷ vs)
  Links-split h [] a b vs l = (tt, l.0, l.1)
  Links-split h (u ∷ []) a b vs l = ((l.0, tt), l.1.0, l.1.1)
  Links-split h (u ∷ v ∷ us) a b vs l =
      let r = Links-split h (v ∷ us) a b vs l.1 in ((l.0, r.0), r.1, r.2)

  pub Links-join :
      (h : Heap T) (us : List Ptr) (a b : Ptr) (vs : List Ptr)
      → Links h (us ++ a ∷ [])
      → Link h a b
      → Links h (b ∷ vs)
      → Links h (us ++ a ∷ b ∷ vs)
  Links-join h [] a b vs l m r = (m, r)
  Links-join h (u ∷ []) a b vs l m r = (l.0, (m, r))
  Links-join h (u ∷ v ∷ us) a b vs l m r = (l.0, Links-join h (v ∷ us) a b vs l.1 m r)

  -- The links up to `a` read the next pointers before `a` and no prev pointer outside.
  pub frame_before :
      (h g : Heap T) (us : List Ptr) (a : Ptr)
      → ((x : Ptr) → has x us ≡ true → g.next x ≡ h.next x)
      → ((x : Ptr) → has x (us ++ a ∷ []) ≡ true → g.prev x ≡ h.prev x)
      → Links h (us ++ a ∷ [])
      → Links g (us ++ a ∷ [])
  frame_before h g [] a same same' l = tt
  frame_before h g (u ∷ []) a same same' l =
      ((same u (ground arith) ∙ l.0.0, same' a (ground arith) ∙ l.0.1), tt)
  frame_before h g (u ∷ v ∷ us) a same same' l = (
    (same u (ground arith) ∙ l.0.0, same' v (ground arith) ∙ l.0.1),
    frame_before h g (v ∷ us) a (λ x i. same x (ground arith)) (λ x i. same' x (ground arith)) l.1,
  )

  -- The links from `b` on read the prev pointers behind `b` and no next pointer outside.
  pub frame_after :
      (h g : Heap T) (b : Ptr) (vs : List Ptr)
      → ((x : Ptr) → has x (b ∷ vs) ≡ true → g.next x ≡ h.next x)
      → ((x : Ptr) → has x vs ≡ true → g.prev x ≡ h.prev x)
      → Links h (b ∷ vs)
      → Links g (b ∷ vs)
  frame_after h g b [] same same' l = tt
  frame_after h g b (v ∷ vs) same same' l = (
    (same b (ground arith) ∙ l.0.0, same' v (ground arith) ∙ l.0.1),
    frame_after h g v vs (λ x i. same x (ground arith)) (λ x i. same' x (ground arith)) l.1,
  )
