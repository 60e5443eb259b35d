-- ===== src/SlabMulti/Race.antt =====
-- Orders of the steps of several threads over one `ImplSlabMulti::Cache` in which blocks are given out
-- twice or lost.
use mathlib.Core.List.{Mem, Nodup, Nodup-cons}
use allocators.Common.{
  ℕ, ◌+◌, ◌-◌, ◌*◌, ◌%◌, ◌^◌, ◌≤◌, ◌<◌, ◌≡◌, refl, true, false, List, [], ◌∷◌, arith, length, ◌==◌,
  ◌&&◌, if◌then◌else◌, leb, ltb, le→leb, lt→ltb,
}
use allocators.SlabMulti.Dispatcher.{GlobalDispatch}
use allocators.SlabMulti.Slab
use allocators.SlabMulti.Slab.{Slab}
use allocators.SlabMulti.Cache
use allocators.SlabMulti.Cache.{Cache, splice_both, mem_to_dispatch}
use allocators.SlabMulti.Threads.{judge, Pc, Move, System, pick, Steps, done, later}

-- The owner is idle, and thread 1 has returned a block of the second slab, which has two indices `j`
-- and `k` or more left.
abbrev pub before_splice :
    GlobalDispatch → Cache → (u v : Slab) (p q j k : ℕ) (rest out : List ℕ) → System
before_splice d c u v p q j k rest out = record {
  shared = record {
    dispatcher = d;
    cache = record c {
      slabs = u ∷ record v { availible = j ∷ k ∷ rest } ∷ [];
      ptrs = p ∷ q ∷ [];
      act = 0;
    };
    out = out;
  };
  pc = λ i. if i == 1 then Pc.back 1 else Pc.idle;
}

module _ (fresh : ℕ → ℕ) (d : GlobalDispatch) (c : Cache) (u v : Slab) (p q j k : ℕ)
    (rest out : List ℕ) where
  abbrev s0 : System
  s0 = before_splice d c u v p q j k rest out

  -- `allocate` reads the active slab and its memory one after the other, without the mutex. If between
  -- the two another thread moves the second slab before the active one, since it has few blocks out,
  -- the owner takes an index of the second slab and adds it to the memory of the first: where the
  -- program has that block already, it gets it twice. The second slab has two indices left,
  -- and no more free ones than blocks, which are a word.
  pub given_twice :
      v.count ≤ 2 + length rest + length v.foreigns + c.threshold
      → 2 + length rest + length v.foreigns ≤ v.count
      → v.count < 2 ^ 64
      → Mem (p + j * v.block_size) out
      → (t : System) × Steps fresh s0 t
        × (t.shared.out ≡ (p + j * v.block_size) ∷ out)
        × (¬ Nodup t.shared.out)
  unfolding judge splice_both Cache.splice Slab.allocate Slab.empty_and_size
  given_twice few most word lent =
      let size = (v.count + 2 ^ 64 - (length (j ∷ k ∷ rest) + length v.foreigns)) % 2 ^ 64 in
      let near : leb size c.threshold ≡ true = le→leb _ _ (omega arith) in
      let s1 = later done (pick 0 (Move.choose refl)) in
      let s2 = later s1 (pick 1 (Move.go_splice refl (rw near refl))) in
      let s3 = later s2 (pick 1 (Move.splice (λ i. ground arith) (omega arith) refl)) in
      let s4 = later s3 (pick 0 (Move.load refl)) in
      let s5 = later s4 (pick 0 (Move.pop refl refl)) in
      let s6 = later s5 (pick 0 Move.count) in (_, s6, refl, λ n. (Nodup-cons.0 n).0 lent)

-- Threads 1 and 2 have returned the last two blocks of the first slab, which is whole now. The third
-- slab is the active one.
abbrev pub before_dispatch :
    GlobalDispatch → Cache → (u v w : Slab) (p q r : ℕ) (out : List ℕ) → System
before_dispatch d c u v w p q r out = record {
  shared = record {
    dispatcher = d;
    cache = record c { slabs = u ∷ v ∷ w ∷ []; ptrs = p ∷ q ∷ r ∷ []; act = 2 };
    out = out;
  };
  pc = λ i. if i == 1 then Pc.back 0 else if i == 2 then Pc.back 0 else Pc.idle;
}

-- Two threads that return the last blocks of a slab may both find it empty and both let go of the
-- mutex before the first of them drops it, where more blocks are counted as out than one slab less
-- holds. The second one then drops the slab that stands in its place, whether or not the program has
-- blocks of it.
pub dropped_twice :
    (fresh : ℕ → ℕ) (d : GlobalDispatch) (c : Cache) (u v w : Slab) (p q r : ℕ) (out : List ℕ)
    → length u.availible + length u.foreigns ≡ u.count
    → (c.my_capacity + 2 ^ 64 - c.count) % 2 ^ 64 < c.my_size
    → (t : System) × Steps fresh (before_dispatch d c u v w p q r out) t
      × (t.shared.cache.slabs ≡ w ∷ [])
      × (t.shared.cache.ptrs ≡ r ∷ [])
      × (t.shared.out ≡ out)
unfolding judge mem_to_dispatch Cache.erase Slab.empty_and_size
dropped_twice fresh d c u v w p q r out whole spare =
    let free = length u.availible + length u.foreigns in
    let behind : (leb ((u.count + 2 ^ 64 - free) % 2 ^ 64) c.threshold && ltb 2 0) ≡ false =
      ground arith in
    let all : (free == u.count) ≡ true = ground arith in
    let less = lt→ltb _ _ spare in
    let s1 = later done (pick 1 (Move.go_dispatch refl (rw (behind, all, less) refl))) in
    let s2 = later s1 (pick 2 (Move.go_dispatch refl (rw (behind, all, less) refl))) in
    let s3 = later s2 (pick 1 (Move.dispatch (λ i. ground arith) (omega arith) refl)) in
    let s4 = later s3 (pick 2 (Move.dispatch (λ i. ground arith) (omega arith) refl)) in
    (_, s4, refl, refl, refl)
