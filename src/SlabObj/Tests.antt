-- ===== src/SlabObj/Tests.antt =====
-- The theorems about Allocators/SlabObj.h at concrete inputs: slabs of three objects of 8 bytes.
use allocators.Common.{ℕ, none, ◌>>=◌, ◌≡◌, refl, Bool, [], ◌∷◌, some, arith}
use allocators.SlabObj.Slab
use allocators.SlabObj.Slab.{Slab, XtorCall, construct_all, construct_slab}
use allocators.SlabHelper.Xtors.{Objects, place, alone, xtor_func, default_xtor}
use allocators.SlabObj.Built.{perform}
use allocators.SlabObj.Objects.{allocate-deallocate}

-- The object at address 4096 is out.
abbrev used : Slab
used = record { mem = 4096; count = 3; availible = 1 ∷ 2 ∷ []; calls = [] }

allocate-deallocate_example :
    (is_last : Bool) × (s' : Slab) × (Slab.allocate 8 (Slab.deallocate 8 4096 used)
      ≡ some ((4096, is_last), s'))
    × (s'.calls ≡ XtorCall.destruct 4096 ∷ [])
    × (s'.availible ≡ 1 ∷ 2 ∷ [])
allocate-deallocate_example =
    allocate-deallocate 8 3 (omega arith) (omega arith) 4096 used
      (record { block = refl; blocks = refl; below = (omega arith, (omega arith, tt)) })
      (0, omega arith, refl)

-- No object lives anywhere yet.
abbrev nowhere : Objects ℕ
nowhere p = none

abbrev one_there : Objects ℕ
one_there = place 4096 7 nowhere

-- A function of the user as a constructor gets a reference to no object.
raw_test :
    perform (alone (xtor_func (λ n. 0))) (construct_slab 8 8 3 4096 (0 ∷ [])).calls nowhere ≡ none
unfolding perform construct_slab alone xtor_func
raw_test = refl

default_test : (do o ← perform (default_xtor 9) (construct_all 8 4096 0 2) nowhere; o 4104) ≡ some 9
unfolding perform construct_all default_xtor
default_test = refl
