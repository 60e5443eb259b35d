-- ===== src/ListT.antt =====
-- Allocators/AllocHelpers.h, `ListT<T>`: a doubly linked list between two sentinels, over an explicit
-- heap of nodes. An access to a node that is not live is a fault, `none`. `fresh` is what
-- `operator new` returns. The iterator that `insertAt` and `emplace` return is to the node `n`, and is left
-- out. `erase` ends without the `return` that its type wants, which is undefined: `none`, whatever its
-- statements do.
pub mod Links
pub mod Shape
pub mod Frame
pub mod Insert
pub mod Emplace
pub mod Erase
pub mod Transfer
pub mod Loop
pub mod Clear
pub mod Iterator
mod Tests
use allocators.Common.{
  ℕ, zero, suc, ◌+◌, ◌-◌, ◌%◌, ◌^◌, Bool, true, false, not, ◌&&◌, Option, none, some, ◌>>=◌, ◌==◌,
  if◌then◌else◌, u64,
}

abbrev pub Ptr : Type 0
Ptr = ℕ

abbrev pub null : Ptr
null = 0

-- The fields of the nodes by address; the `data` of a sentinel is `none`.
pub record Heap (T : Type 0) : Type 0 where
  pub live : Ptr → Bool
  pub elem : Ptr → Option T
  pub next : Ptr → Ptr
  pub prev : Ptr → Ptr

pub record ListT : Type 0 where
  pub my_head : Ptr
  pub my_end : Ptr
  pub my_size : ℕ

abbrev pub update : {A : Type 0} → (Ptr → A) → Ptr → A → Ptr → A
update f p x q = if q == p then x else f q

unfoldable pub end : ListT → Ptr
end l = l.my_end

unfoldable pub size : ListT → ℕ
size l = l.my_size

unfoldable pub empty : ListT → Bool
empty l = l.my_size == 0

module _ {T : Type 0} where
  unfoldable pub read_next : Ptr → Heap T → Option Ptr
  read_next p h = if h.live p then some (h.next p) else none

  unfoldable pub read_prev : Ptr → Heap T → Option Ptr
  read_prev p h = if h.live p then some (h.prev p) else none

  unfoldable pub read_elem : Ptr → Heap T → Option T
  read_elem p h = if h.live p then h.elem p else none

  unfoldable pub set_next : (p q : Ptr) → Heap T → Option (Heap T)
  set_next p q h = if h.live p then some (record h { next = update h.next p q }) else none

  unfoldable pub set_prev : (p q : Ptr) → Heap T → Option (Heap T)
  set_prev p q h = if h.live p then some (record h { prev = update h.prev p q }) else none

  -- `new Node{...}`, whose pointers are null.
  unfoldable pub new_node : (fresh : Ptr) → Option T → Heap T → Heap T
  new_node fresh x h = record h {
    live = update h.live fresh true;
    elem = update h.elem fresh x;
    next = update h.next fresh null;
    prev = update h.prev fresh null;
  }

  -- `delete`, which does nothing on the null pointer.
  unfoldable pub delete : Ptr → Heap T → Option (Heap T)
  delete p h =
      if p == null
      then some h
      else if h.live p
      then some (record h { live = update h.live p false })
      else none

  -- `ListT()`
  unfoldable pub construct : (fresh fresh' : Ptr) → Heap T → Option (ListT × Heap T)
  unfolding new_node set_next set_prev
  construct fresh fresh' h = do
    let h0 = new_node fresh' none (new_node fresh none h)
    h1 ← set_next fresh' null h0
    h2 ← set_prev fresh null h1
    h3 ← set_next fresh fresh' h2
    h4 ← set_prev fresh' fresh h3
    some (record { my_head = fresh; my_end = fresh'; my_size = 0 }, h4)

  -- `++it`
  unfoldable pub advance : Ptr → Heap T → Option Ptr
  unfolding read_next
  advance it h = do n ← read_next it h; some (if n == null then it else n)

  unfoldable pub insert_at : (n it : Ptr) → ListT → Heap T → Option (ListT × Heap T)
  unfolding read_prev set_next set_prev
  insert_at n it l h = do
    prev ← read_prev it h
    h1 ← set_next prev n h
    h2 ← set_next n it h1
    h3 ← set_prev n prev h2
    h4 ← set_prev it n h3
    some (record l { my_size = u64 (l.my_size + 1) }, h4)

  unfoldable pub begin : ListT → Heap T → Option Ptr
  unfolding read_next
  begin l h = read_next l.my_head h

  unfoldable pub back : ListT → Heap T → Option T
  unfolding read_prev read_elem
  back l h = do p ← read_prev l.my_end h; read_elem p h

  -- The two writes that take a node out of its list, each with the reads before it.
  unfoldable pub unlink : (n : Ptr) → Heap T → Option (Heap T)
  unfolding read_prev read_next set_prev set_next
  unlink n h = do
    p ← read_prev n h
    q ← read_next n h
    h1 ← set_next p q h
    q' ← read_next n h1
    p' ← read_prev n h1
    set_prev q' p' h1

  -- `splice(pos, other, it)`, for a list that is not `other`: the lists afterwards.
  unfoldable pub splice :
      (pos it : Ptr) → (l other : ListT) → Heap T → Option ((ListT × ListT) × Heap T)
  unfolding unlink insert_at
  splice pos it l other h = do
    h1 ← unlink it h
    (l', h2) ← insert_at it pos l h1
    some ((l', record other { my_size = (other.my_size + 2 ^ 64 - 1) % 2 ^ 64 }), h2)

  -- `emplace(it, args...)`, where `x` is the element that the arguments make.
  unfoldable pub emplace : (fresh : Ptr) → T → (it : Ptr) → ListT → Heap T → Option (ListT × Heap T)
  unfolding new_node insert_at
  emplace fresh x it l h = insert_at fresh it l (new_node fresh (some x) h)

  unfoldable pub emplace_back : (fresh : Ptr) → T → ListT → Heap T → Option (ListT × Heap T)
  unfolding emplace end
  emplace_back fresh x l h = emplace fresh x (end l) l h

  -- The statements of `erase`.
  unfoldable pub erase_body : (pos : Ptr) → ListT → Heap T → Option (ListT × Heap T)
  unfolding unlink delete
  erase_body pos l h = do
    h1 ← unlink pos h
    h2 ← delete pos h1
    some (record l { my_size = (l.my_size + 2 ^ 64 - 1) % 2 ^ 64 }, h2)

  -- There is no `return` behind the statements.
  unfoldable pub erase : (pos : Ptr) → ListT → Heap T → Option (ListT × Heap T)
  unfolding erase_body
  erase pos l h = do (l', h') ← erase_body pos l h; none

  -- The loops of `clear` and of the destructor, on fuel: the nodes from `it` up to `stop`.
  unfoldable pub delete_from : (fuel : ℕ) → (it stop : Ptr) → Heap T → Option (Heap T)
  unfolding advance delete
  delete_from zero it stop h = none
  delete_from (suc fuel) it stop h = elim (it == stop) [
    | true ↦ some h
    | false ↦ do it' ← advance it h; h' ← delete it h; delete_from fuel it' stop h'
  ]

  unfoldable pub clear : ListT → Heap T → Option (ListT × Heap T)
  unfolding begin delete_from set_next set_prev
  clear l h = do
    it ← begin l h
    h1 ← delete_from (suc l.my_size) it l.my_end h
    h2 ← set_next l.my_head l.my_end h1
    h3 ← set_prev l.my_end l.my_head h2
    some (record l { my_size = 0 }, h3)

  -- `~ListT()`
  unfoldable pub destroy : ListT → Heap T → Option (Heap T)
  unfolding begin delete_from delete
  destroy l h = do
    h1 ←
        if not (l.my_head == null) && not (l.my_size == 0)
        then (do it ← begin l h; delete_from (suc l.my_size) it l.my_end h)
        else some h
    h2 ← delete l.my_head h1
    delete l.my_end h2

-- `otherMove`: the list that takes over, and the one that is left.
unfoldable pub other_move : (other : ListT) → ListT × ListT
other_move other = (other, record other { my_head = null; my_end = null })

-- `ListT(ListT&&)`
unfoldable pub move_construct : (other : ListT) → ListT × ListT
unfolding other_move
move_construct other = other_move other

-- `operator=(ListT&&)`, which does not release the nodes of the target.
unfoldable pub move_assign : (target other : ListT) → ListT × ListT
unfolding other_move
move_assign target other = other_move other
