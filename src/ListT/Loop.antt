-- ===== src/ListT/Loop.antt =====
-- The loop that deletes the nodes from an iterator to the end.
use allocators.Common.{
  ℕ, zero, suc, ◌<◌, ◌≡◌, refl, Bool, true, false, not, ◌&&◌, List, [], ◌∷◌, ◌++◌, some, ◌==◌,
  arith, All, length, ◌∙◌, ap,
}
use allocators.ListT.{Ptr, null, Heap, update, advance, delete, delete_from}
use allocators.ListT.Links.{has, has-append, Distinct, Links}
use allocators.ListT.Shape.{ptrs}
use allocators.ListT.Erase.{not_null}

-- The node in front of the end of `k`, where `e` follows.
abbrev pub front : List Ptr → Ptr → Ptr
front [] e = e
front (p ∷ k) e = p

-- What is live once the nodes of `k` are deleted.
abbrev pub gone : List Ptr → (Ptr → Bool) → Ptr → Bool
gone [] f = f
gone (p ∷ k) f = gone k (update f p false)

pub gone_lem : (k : List Ptr) (f : Ptr → Bool) (x : Ptr) → gone k f x ≡ (f x && not (has x k))
gone_lem [] f x = ground arith
gone_lem (p ∷ k) f x = ground (arith, gone_lem k (update f p false) x)

pub gone_dead : (k : List Ptr) (f : Ptr → Bool) → All (λ p. gone k f p ≡ false) k
gone_dead [] f = tt
gone_dead (p ∷ k) f =
    (ground (arith, gone_lem k (update f p false) p), gone_dead k (update f p false))

module _ {T : Type 0} where
  unfoldable pub Lives : Heap T → List Ptr → Type 0
  Lives h k = All (λ p. h.live p ≡ true) k

  update-Lives :
      (h : Heap T) (p : Ptr) (k : List Ptr)
      → has p k ≡ false
      → Lives h k
      → Lives (record h { live = update h.live p false }) k
  unfolding Lives
  update-Lives h p [] out lives = tt
  update-Lives h p (q ∷ k) out lives = (ground (arith), update-Lives h p k (ground arith) lives.1)

  -- The links do not read what is live.
  same-Links :
      (h : Heap T) (f : Ptr → Bool) (k : List Ptr) → Links h k → Links (record h { live = f }) k
  same-Links h f [] links = tt
  same-Links h f (a ∷ []) links = tt
  same-Links h f (a ∷ b ∷ k) links = (links.0, same-Links h f (b ∷ k) links.1)

  pub next_front :
      (h : Heap T) (p : Ptr) (k : List Ptr) (e : Ptr)
      → Links h (p ∷ (k ++ e ∷ []))
      → h.next p ≡ front k e
  next_front h p [] e links = links.0.0
  next_front h p (q ∷ k) e links = links.0.0

  pub front-Lives :
      (h : Heap T) (k : List Ptr) (e : Ptr) → Lives h (k ++ e ∷ []) → h.live (front k e) ≡ true
  unfolding Lives
  front-Lives h [] e lives = lives.0
  front-Lives h (q ∷ k) e lives = lives.0

  pub tail-Links :
      (h : Heap T) (p : Ptr) (k : List Ptr) (e : Ptr)
      → Links h (p ∷ (k ++ e ∷ []))
      → Links h (k ++ e ∷ [])
  tail-Links h p [] e links = links.1
  tail-Links h p (q ∷ k) e links = links.1

  pub advance-eq :
      (h : Heap T) (p q : Ptr)
      → h.live p ≡ true
      → h.next p ≡ q
      → h.live q ≡ true
      → h.live null ≡ false
      → advance p h ≡ some q
  unfolding advance
  advance-eq h p q live at live_q fault = rw (live, at, not_null h q live_q fault) refl

  pub delete-eq :
      (h : Heap T) (p : Ptr)
      → h.live p ≡ true
      → h.live null ≡ false
      → delete p h ≡ some (record h { live = update h.live p false })
  unfolding delete
  delete-eq h p live fault = rw (not_null h p live fault, live) refl

  delete_from-step :
      (fuel : ℕ) (h h' : Heap T) (p q e : Ptr)
      → (p == e) ≡ false
      → advance p h ≡ some q
      → delete p h ≡ some h'
      → delete_from (suc fuel) p e h ≡ delete_from fuel q e h'
  unfolding delete_from
  delete_from-step fuel h h' p q e other step drop = ground (arith, step, drop)

  pub delete_from-eq :
      (fuel : ℕ) (h : Heap T) (k : List Ptr) (e : Ptr)
      → Links h (k ++ e ∷ [])
      → Distinct (k ++ e ∷ [])
      → Lives h (k ++ e ∷ [])
      → h.live null ≡ false
      → length k < fuel
      → delete_from fuel (front k e) e h ≡ some (record h { live = gone k h.live })
  unfolding delete_from Lives
  delete_from-eq zero h k e links distinct lives fault enough = absurd (omega arith)
  delete_from-eq (suc fuel) h [] e links distinct lives fault enough = ground arith
  delete_from-eq (suc fuel) h (p ∷ k) e links distinct lives fault enough =
      let h' : Heap T = record h { live = update h.live p false } in
      let rest =
        delete_from-eq fuel h' k e (same-Links h h'.live (k ++ e ∷ []) (tail-Links h p k e links))
          distinct.1 (update-Lives h p (k ++ e ∷ []) distinct.0 lives.1) (ground (arith, fault))
          (omega arith) in
      let other : (p == e) ≡ false = ground (arith, has-append p k (e ∷ []), distinct.0) in
      let step =
        advance-eq h p (front k e) lives.0 (next_front h p k e links) (front-Lives h k e lives.1)
          fault in
      delete_from-step fuel h h' p (front k e) e other step (delete-eq h p lives.0 fault) ∙ rest

pub has_outside :
    (x : Ptr) (k : List Ptr) (e : Ptr) → has x (k ++ e ∷ []) ≡ false → (e == x) ≡ false
has_outside x k e out = ground (arith, has-append x k (e ∷ []), out)

pub has_before : (x : Ptr) (k : List Ptr) (e : Ptr) → has x (k ++ e ∷ []) ≡ false → has x k ≡ false
has_before x k e out = ground (arith, has-append x k (e ∷ []), out)

pub Distinct_last : (k : List Ptr) (e : Ptr) → Distinct (k ++ e ∷ []) → has e k ≡ false
Distinct_last [] e distinct = refl
Distinct_last (p ∷ k) e distinct =
    ground (arith, Distinct_last k e distinct.1, has_outside p k e distinct.0)

pub Lives-last :
    {T : Type 0} (h : Heap T) (k : List Ptr) (e : Ptr) → Lives h (k ++ e ∷ []) → h.live e ≡ true
unfolding Lives
Lives-last h [] e lives = lives.0
Lives-last h (p ∷ k) e lives = Lives-last h k e lives.1

pub update_dead :
    (f : Ptr → Bool) (x : Ptr) (k : List Ptr)
    → All (λ p. f p ≡ false) k
    → All (λ p. update f x false p ≡ false) k
update_dead f x [] dead = tt
update_dead f x (p ∷ k) dead = (ground arith, update_dead f x k dead.1)

pub length-ptrs : {T : Type 0} (cells : List (Ptr × T)) → length (ptrs cells) ≡ length cells
length-ptrs [] = refl
length-ptrs (c ∷ cells) = ap suc (length-ptrs cells)
