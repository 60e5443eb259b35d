-- ===== src/SlabMulti/Calm.antt =====
-- Runs of several threads over one `ImplSlabMulti::Cache` in which no block is given out twice.
use mathlib.Core.List.{Nodup, Disjoint, Perm}
use mathlib.Core.List.Perm
use allocators.Common.{ℕ, ◌≡◌, ◌≢◌, Bool, true, false, List, ◌++◌, some, arith, sym, subst, ◌==◌}
use allocators.SlabMulti.Dispatcher.{GlobalDispatch, get_block, get_indicies}
use allocators.SlabMulti.Cache.{Cache}
use allocators.SlabMulti.Ready.{new}
use allocators.SlabMulti.Supply.{blocks}
use allocators.SlabMulti.Held.{OfSlab, all_blocks}
use allocators.SlabMulti.Apart.{is_reading, moves_slabs}
use allocators.SlabMulti.Threads.{Pc, Shared, Move, System, Alone, update, pick, Steps, done, later}

-- Where a step takes a new active slab: the blocks of the slab that the dispatcher has next are
-- distinct, and none of them is one of `all`.
abbrev pub NewApart :
    {fresh : ℕ → ℕ} {owner : Bool} {A : Type 0} {m m' : Shared} {p p' : Pc}
    → Move fresh owner A m p m' p'
    → (all : List ℕ) → Type 0
NewApart {fresh} {m = m} (Move.refill _ _ _) all =
    (ids : List ℕ) (mem : ℕ) (d : GlobalDispatch)
    → get_indicies m.cache.block_size m.dispatcher ≡ some ids
    → get_block fresh m.dispatcher ≡ some (mem, d)
    → Nodup (blocks (new m.cache ids) mem) × Disjoint (blocks (new m.cache ids) mem) all
NewApart _ all = Unit

-- Runs in which a thread moves slabs only while the owner is not reading which slab is active, blocks
-- that are returned are those of the slab that the search finds, and a new slab has blocks of its own.
-- The mutex keeps its promise.
pub data Calm (fresh : ℕ → ℕ) (s : System) : System → Type 0 where
  begin : Calm fresh s s
  own :
      {t : System} {m : Shared} {p : Pc}
      → Calm fresh s t
      → (mv : Move fresh true (Alone t) t.shared (t.pc 0) m p) → OfSlab mv
      → NewApart mv (all_blocks (t.pc 0) t.shared)
      → Calm fresh s (record { shared = m; pc = update t.pc 0 p })
  foreign :
      {t : System} {m : Shared} {p : Pc} (i : ℕ)
      → Calm fresh s t
      → i ≢ 0
      → (mv : Move fresh false (Alone t) t.shared (t.pc i) m p)
      → (moves_slabs mv ≡ true → is_reading (t.pc 0) ≡ false)
      → OfSlab mv
      → Calm fresh s (record { shared = m; pc = update t.pc i p })

-- They are runs.
pub Calm-Steps : {fresh : ℕ → ℕ} {s t : System} → Calm fresh s t → Steps fresh s t
Calm-Steps begin = done
Calm-Steps (own run mv of na) = later (Calm-Steps run) (pick 0 mv)
Calm-Steps {fresh = fresh} (foreign {t} {m} {p} i run ne mv calm of) =
    let other : (i == 0) ≡ false = ground arith in
    later (Calm-Steps run)
      (pick i (subst (λ (o : Bool). Move fresh o (Alone t) t.shared (t.pc i) m p) (sym other) mv))

-- All blocks afterwards are among those before, each as often.
abbrev Loses : (before after : List ℕ) → Type 0
Loses before after = (gone : List ℕ) × Perm before (gone ++ after)
