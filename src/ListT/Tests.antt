-- ===== src/ListT/Tests.antt =====
-- The lists of AllocHelpers.h on two small ones that share a heap.
use allocators.Common.{
  ℕ, ◌≡◌, refl, true, false, ◌||◌, [], ◌∷◌, some, none, ◌==◌, ◌>>=◌, arith, All,
}
use allocators.ListT.{
  Ptr, Heap, ListT, update, emplace, erase_body, erase, splice, clear, begin, back,
}
use allocators.ListT.Links.{has}
use allocators.ListT.Shape.{IsList}
use allocators.ListT.Emplace.{emplace-IsList}
use allocators.ListT.Erase.{erase-IsList}
use allocators.ListT.Transfer.{splice-IsList}
use allocators.ListT.Clear.{clear-IsList}
use allocators.ListT.{end}
use allocators.ListT.Iterator.{read_from, read_from-IsList}

-- The list 1, 3, 2 with an element at 3, and the list 5, 7, 6 with one at 7.
abbrev two : Heap ℕ
two = record {
  live = λ p. (p == 1) || (p == 2) || (p == 3) || (p == 5) || (p == 6) || (p == 7);
  elem = update (update (λ p. none) 3 (some 10)) 7 (some 20);
  next = update (update (update (update (λ p. 0) 1 3) 3 2) 5 7) 7 6;
  prev = update (update (update (update (λ p. 0) 3 1) 2 3) 7 5) 6 7;
}

abbrev left : ListT
left = record { my_head = 1; my_end = 2; my_size = 1 }

abbrev right : ListT
right = record { my_head = 5; my_end = 6; my_size = 1 }

left-IsList : IsList two left ((3, 10) ∷ [])
left-IsList = record {
  links = ((refl, refl), ((refl, refl), tt));
  distinct = (refl, (refl, (refl, tt)));
  live = (refl, (refl, (refl, tt)));
  elems = (refl, tt);
  last = refl;
  fault = refl;
  size = refl;
}

right-IsList : IsList two right ((7, 20) ∷ [])
right-IsList = record {
  links = ((refl, refl), ((refl, refl), tt));
  distinct = (refl, (refl, (refl, tt)));
  live = (refl, (refl, (refl, tt)));
  elems = (refl, tt);
  last = refl;
  fault = refl;
  size = refl;
}

begin_there : begin left two ≡ some 3
unfolding begin
begin_there = refl

back_there : back right two ≡ some 20
unfolding back
back_there = refl

apart : (p : Ptr) → has p (1 ∷ 3 ∷ 2 ∷ []) ≡ true → has p (5 ∷ 7 ∷ 6 ∷ []) ≡ false
apart p i = ground arith

emplace-IsList_example :
    (l' : ListT) × (h' : Heap ℕ) × (emplace 4 30 3 left two ≡ some (l', h'))
    × IsList h' l' ((4, 30) ∷ (3, 10) ∷ [])
    × (l'.my_head ≡ 1)
    × (l'.my_end ≡ 2)
emplace-IsList_example =
    emplace-IsList two 4 30 refl (omega arith) left [] ((3, 10) ∷ []) left-IsList (omega arith)

erase-IsList_example :
    (l' : ListT) × (h' : Heap ℕ) × (erase_body 3 left two ≡ some (l', h'))
    × IsList h' l' []
    × (h'.live 3 ≡ false)
    × (erase 3 left two ≡ none)
erase-IsList_example = erase-IsList two left [] [] 3 10 left-IsList (omega arith)

splice-IsList_example :
    (l' o' : ListT) × (h' : Heap ℕ) × (splice 2 7 left right two ≡ some ((l', o'), h'))
    × IsList h' l' ((3, 10) ∷ (7, 20) ∷ [])
    × IsList h' o' []
splice-IsList_example =
    splice-IsList two left right ((3, 10) ∷ []) [] [] [] 7 20 left-IsList right-IsList apart
      (omega arith) (omega arith)

clear-IsList_example :
    (h' : Heap ℕ) × (clear left two ≡ some (record left { my_size = 0 }, h'))
    × IsList h' (record left { my_size = 0 }) []
    × All (λ p. h'.live p ≡ false) (3 ∷ [])
clear-IsList_example = clear-IsList two left ((3, 10) ∷ []) left-IsList

read_from-IsList_example : (do it ← begin left two; read_from 2 it (end left) two) ≡ some (10 ∷ [])
read_from-IsList_example = read_from-IsList two left ((3, 10) ∷ []) left-IsList
