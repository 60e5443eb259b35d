-- ===== src/Linear/Blocks.antt =====
-- What a sequence of allocations from one arena returns, and what a size that wraps does.
use allocators.Common.{
  ℕ, ◌+◌, ◌*◌, ◌^◌, ◌≤◌, ◌<◌, ◌≡◌, refl, ◌⊎◌, inl, inr, Bool-cases, false, List, [], ◌∷◌, arith,
  ltb, subst, u64, All, ltb-false, tests,
}
use allocators.Linear.{LStorage, Error, ok, err, allocate}

-- A request: `sizeof(T)` and `count`.
abbrev pub Request : Type 0
Request = ℕ × ℕ

-- A block: its address and its length.
abbrev pub Block : Type 0
Block = ℕ × ℕ

-- Requests in order; one that fails leaves the arena as it is, and yields no block.
unfoldable pub run : (bytes : ℕ) → List Request → LStorage → List Block × LStorage
run bytes [] s = ([], s)
run bytes ((size, count) ∷ rs) s = elim (allocate bytes size count s) [
  | err e ↦ run bytes rs s
  | ok (p, s') ↦ let (bs, t) = run bytes rs s' in ((p, count * size) ∷ bs, t)
]

-- The blocks lie end to end, the first at `lo`, and the last ends at `hi`.
abbrev pub Packed : (lo hi : ℕ) → List Block → Type 0
Packed lo hi [] = lo ≡ hi
Packed lo hi ((p, n) ∷ bs) = (p ≡ lo) × Packed (lo + n) hi bs

-- An arena that is in use: its offset is within its size.
pub record Inv (bytes : ℕ) (s : LStorage) : Type 0 where
  pub ready : s.init ≡ false
  pub within : s.my_last ≤ bytes

abbrev pub Fits : ℕ → Request → Type 0
Fits bytes (size, count) = count * size + bytes < 2 ^ 64

-- On every branch: the request is refused, exactly when the rest of the arena is too small, or it
-- gets the block at the offset, which moves behind it.
pub allocate_cases :
    {bytes : ℕ} {s : LStorage} (size count : ℕ)
    → Inv bytes s
    → Fits bytes (size, count)
    → ((bytes < s.my_last + count * size) × (allocate bytes size count s ≡ err Error.bad_alloc))
      ⊎ ((s.my_last + count * size ≤ bytes)
          × (allocate bytes size count s
              ≡ ok (s.my_begin + s.my_last, record s { my_last = s.my_last + count * size })))
unfolding allocate
allocate_cases {bytes} {s} size count inv fits =
    elim (Bool-cases (ltb bytes (u64 (u64 (count * size) + s.my_last)))) [
      | inl over ↦ inl (omega (tests, inv.within), rw over)
      | inr room ↦ inr (
        omega (arith, ltb-false bytes (u64 (u64 (count * size) + s.my_last)) room, inv.within),
        let last : u64 (s.my_last + u64 (count * size)) ≡ s.my_last + count * size =
              omega (arith, inv.within) in
            rw (room, last, inv.ready),
      )
    ]

-- The blocks of any sequence of requests lie end to end behind the offset, in order: no two overlap,
-- and none leaves the arena. The arena stays in use, at the same address. It is in use before, with
-- its offset within it, and no request together with the arena reaches 2 ^ 64 bytes.
pub run-Packed :
    (bytes : ℕ) (rs : List Request) (s : LStorage)
    → Inv bytes s
    → All (Fits bytes) rs
    → Packed
        (s.my_begin + s.my_last)
        ((run bytes rs s).1.my_begin + (run bytes rs s).1.my_last)
        (run bytes rs s).0
      × Inv bytes (run bytes rs s).1
      × ((run bytes rs s).1.my_begin ≡ s.my_begin)
unfolding run
run-Packed bytes [] s inv fits = (refl, inv, refl)
run-Packed bytes ((size, count) ∷ rs) s inv (here, later) =
    elim (allocate_cases size count inv here) [
      | inl (_, e) ↦ rw (e, run) (run-Packed bytes rs s inv later)
      | inr (room, e) ↦
          let s' : LStorage = record s { my_last = s.my_last + count * size } in
          let inv' : Inv bytes s' = record { ready = inv.ready; within = room } in
          let ih = run-Packed bytes rs s' inv' later in
          rw (e, run)
            (
              (
                refl,
                subst
                    (λ (lo : ℕ).
                      Packed lo ((run bytes rs s').1.my_begin + (run bytes rs s').1.my_last)
                        (run bytes rs s').0)
                    (omega arith) ih.0,
              ),
              ih.1,
              ih.2,
            )
    ]

-- A request whose size in bytes wraps to a small number is granted, though no arena holds it: the
-- block that it gets is shorter than what was asked for.
pub allocate_wraps :
    {bytes : ℕ} {s : LStorage} (size count short : ℕ)
    → Inv bytes s
    → bytes < 2 ^ 64
    → count * size ≡ 2 ^ 64 + short
    → s.my_last + short ≤ bytes
    → (allocate bytes size count s
        ≡ ok (s.my_begin + s.my_last, record s { my_last = s.my_last + short }))
      × (bytes < count * size)
unfolding allocate
allocate_wraps {bytes} {s} size count short inv small wraps room =
    let wrapped : u64 (count * size) ≡ short = omega arith in
    let sum : u64 (short + s.my_last) ≡ s.my_last + short = omega arith in
    let sum' : u64 (s.my_last + short) ≡ s.my_last + short = omega arith in
    let test : ltb bytes (s.my_last + short) ≡ false = ground arith in
    (rw (wrapped, sum, test, inv.ready, sum'), omega arith)
