-- ===== src/FreeList/Tests.antt =====
-- The theorems about Allocators/FreeList.h at concrete inputs, and tests: an arena of 200 bytes at
-- address 1000, whose sizes are bytes and whose header is one byte.
use allocators.Common.{ℕ, ◌≤◌, ◌<◌, ◌≡◌, refl, inr, true, false, [], ◌∷◌, Option, none, some, arith}
use allocators.FreeList.Policy
use allocators.FreeList.Policy.{Store, add, merge, erase, covered}
use allocators.FreeList.Merge.{Extends}
use allocators.FreeList.Interface.{
  AlSearch, Params, params, Storage, uninitialised, construct, allocate, deallocate,
}
use allocators.FreeList.Blocks.{Finds, Carves, allocate-Carves, allocate_overclaims}
use allocators.FreeList.Returns.{deallocate-Extends, deallocate-allocate}

abbrev small : Params
small = record { bytes = 200; modulus = 256; header_size = 1 }

small_lem : params 200 ≡ small
unfolding params
small_lem = refl

abbrev with_chunks : Store → Storage
with_chunks l = record {
  my_begin = 1000;
  my_end = 1200;
  init = false;
  search = AlSearch.first_fit;
  bytes_free = 100;
  availible = l;
  headers = λ _. 12;
}

abbrev whole : Storage
whole = with_chunks ((1000, 200) ∷ [])

abbrev holes : Storage
holes = with_chunks ((1000, 50) ∷ (1100, 100) ∷ [])

construct_test : (construct small 1000 (uninitialised small)).availible ≡ (1000, 200) ∷ []
unfolding construct uninitialised
construct_test = refl

whole-Finds : Finds small 1000 1200 4 3 0 1000 200 whole
unfolding Policy.first_fit
whole-Finds = record {
  word = omega arith;
  small = omega arith;
  narrow = omega arith;
  first = refl;
  ordered = omega arith;
  found = refl;
  at = refl;
  enough = omega arith;
}

holes-Finds : Finds small 1000 1200 4 3 0 1000 50 holes
unfolding Policy.first_fit
holes-Finds = record {
  word = omega arith;
  small = omega arith;
  narrow = omega arith;
  first = refl;
  ordered = omega arith;
  found = refl;
  at = refl;
  enough = omega arith;
}

-- The chunks that an allocation leaves.
abbrev left_by : Option (ℕ × Storage) → Store
left_by none = []
left_by (some (p, st)) = st.availible

-- The rest of the first chunk is stored a byte too long.
holes_test : left_by (allocate small 4 3 holes) ≡ (1013, 38) ∷ (1100, 100) ∷ []
unfolding allocate
holes_test = refl

allocate-Carves_example :
    (st' : Storage) × (allocate small 4 3 whole ≡ some (1001, st'))
    × Carves 1000 1200 (1000, 13) whole.availible st'.availible
    × (st'.headers 1000 ≡ 12)
unfolding erase
allocate-Carves_example =
    allocate-Carves small 1000 1200 4 3 0 1000 200 whole whole-Finds (inr refl)

allocate_overclaims_example :
    (st' : Storage) × (allocate small 4 3 holes ≡ some (1001, st'))
    × ((x : ℕ)
        → 1050 ≤ x
        → x < 1051
        → (covered x holes.availible ≡ false) × (covered x st'.availible ≡ true))
unfolding erase
allocate_overclaims_example =
    allocate_overclaims small 1000 1200 4 3 0 1000 50 holes holes-Finds (1100, 100) [] refl
      (omega arith) (inr (omega arith), tt) (omega arith)

deallocate-Extends_example :
    Extends 1000 1200 (1060, 13) holes.availible (deallocate small 1061 holes).availible
deallocate-Extends_example =
    deallocate-Extends small holes 1000 1200 1060 (1000, 50) ((1100, 100) ∷ []) refl (omega arith)
      (omega arith) (omega arith) (omega arith) (omega arith) (omega arith)

deallocate-allocate_example :
    (st' : Storage) × (allocate small 4 3 whole ≡ some (1001, st'))
    × (13 < 200 → (deallocate small 1001 st').availible ≡ (1000, 200) ∷ [])
    × (◌≡◌ {A = ℕ} 200 13 → (deallocate small 1001 st').availible ≡ (1000, 199) ∷ [])
    × ((deallocate small 1001 st').bytes_free ≡ 100)
deallocate-allocate_example =
    deallocate-allocate small 1000 1200 4 3 1000 200 whole whole-Finds refl (omega arith)
      (omega arith) (omega arith)
