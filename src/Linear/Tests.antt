-- ===== src/Linear/Tests.antt =====
-- The theorems about Allocators/Linear.h at concrete inputs, and tests.
use allocators.Common.{ℕ, ◌+◌, ◌*◌, ◌^◌, ◌<◌, ◌≡◌, refl, false, [], ◌∷◌, arith}
use allocators.Linear.{LStorage, ok, uninstantiated, construct, allocate}
use allocators.Linear.Blocks.{Inv, Packed, run, run-Packed, allocate_wraps}

-- An arena of 64 bytes at address 4096, of which 16 are taken.
abbrev arena : LStorage
arena = record { init = false; my_begin = 4096; my_last = 16 }

arena-Inv : Inv 64 arena
arena-Inv = record { ready = refl; within = omega arith }

-- Two requests are granted, and one between them is refused.
run_test :
    run 64 ((8, 2) ∷ (8, 5) ∷ (4, 8) ∷ []) arena
    ≡ ((4112, 16) ∷ (4128, 32) ∷ [], record arena { my_last = 64 })
unfolding run allocate
run_test = refl

construct_once : construct 512 (construct 4096 uninstantiated) ≡ record arena { my_last = 0 }
unfolding construct
construct_once = refl

run-Packed_example :
    Packed 4112 4160 ((4112, 16) ∷ (4128, 32) ∷ [])
    × Inv 64 (record arena { my_last = 64 })
    × (◌≡◌ {A = ℕ} 4096 4096)
unfolding run allocate
run-Packed_example = run-Packed 64 ((8, 2) ∷ (8, 5) ∷ (4, 8) ∷ []) arena arena-Inv (omega arith)

allocate_wraps_example :
    (allocate 64 8 (2 ^ 61 + 1) arena ≡ ok (4112, record arena { my_last = 24 }))
    × (64 < (2 ^ 61 + 1) * 8)
allocate_wraps_example =
    allocate_wraps {bytes = 64} 8 (2 ^ 61 + 1) 8 arena-Inv (omega arith) refl (omega arith)
