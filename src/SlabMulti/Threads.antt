-- ===== src/SlabMulti/Threads.antt =====
-- `ImplSlabMulti::Cache` under several threads, interleaved in any order: thread 0 owns the cache and alone
-- allocates, the others return blocks. The shared mutex is taken to do what it promises: the threads
-- that hold it shared keep every other one from holding it alone. That is more than the code of
-- Allocators/SharedMutex.h does (SharedMutex/Race). What a thread does while it holds it
-- alone is one step, for no other thread that uses it steps in between; `allocate` reads the active
-- slab and takes the block without it, and `deallocate` has let go of it when it moves a slab.
use allocators.Common.{
  ℕ, ◌+◌, ◌-◌, ◌*◌, ◌%◌, ◌^◌, ◌<◌, ◌≡◌, refl, Bool, true, false, ◌&&◌, List, ◌∷◌, ◌++◌, Option,
  some, ltb, ◌==◌, leb, if◌then◌else◌, get_elem?, set, length, u64, Bool-cases, inl, inr,
}
use allocators.SlabMulti.Dispatcher.{GlobalDispatch}
use allocators.SlabMulti.Slab
use allocators.SlabMulti.Slab.{Slab}
use allocators.SlabMulti.Cache.{Cache, next_slab, search, splice_both, mem_to_dispatch, settle}

-- Where `deallocate` goes on once the slab has its block back.
pub data Verdict : Type 0 where
  to_splice : Verdict
  to_dispatch : Verdict
  stay : Verdict

unfoldable pub judge : (it : ℕ) (s : Slab) → Cache → Verdict
unfolding Slab.empty_and_size
judge it s c =
    let (empty, size) = Slab.empty_and_size s in
    let spare = (c.my_capacity + 2 ^ 64 - c.count) % 2 ^ 64 in
    if leb size c.threshold && ltb c.act it
    then to_splice
    else if empty && ltb 1 (length c.slabs) && ltb spare c.my_size
    then to_dispatch
    else stay

abbrev perform : Verdict → (it : ℕ) → Cache → Option Cache
perform to_splice it c = splice_both it c
perform to_dispatch it c = mem_to_dispatch it c
perform stay it c = some c

-- With no step in between it is what `settle` does.
pub settle-judge : (it : ℕ) (s : Slab) (c : Cache) → settle it s c ≡ perform (judge it s c) it c
unfolding settle judge Slab.empty_and_size
settle-judge it s c =
    let free = length s.availible + length s.foreigns in
    let spare = (c.my_capacity + 2 ^ 64 - c.count) % 2 ^ 64 in
    elim (Bool-cases (leb ((s.count + 2 ^ 64 - free) % 2 ^ 64) c.threshold && ltb c.act it)) [
      | inl near ↦ rw near refl
      | inr far ↦
          elim (Bool-cases ((free == s.count) && ltb 1 (length c.slabs) && ltb spare c.my_size)) [
            | inl gone ↦ rw (far, gone) refl
            | inr stays ↦ rw (far, stays) refl
          ]
    ]

pub data Pc : Type 0 where
  idle : Pc
  -- `allocate` with the slab at `b`, then also with its memory, then with a block
  chose : (b : ℕ) → Pc
  loaded : (b mem : ℕ) → Pc
  taken : (p : ℕ) (possibly_full : Bool) → Pc
  -- `deallocate` with the mutex shared, the slab at `it` having its block back, and when that slab
  -- stays where it is
  back : (it : ℕ) → Pc
  staying : Pc
  -- without it, before `spliceBoth` and `memToDispatch`, and after them
  splicing : (it : ℕ) → Pc
  dispatching : (it : ℕ) → Pc
  leaving : Pc

-- Whether the thread holds the mutex shared.
abbrev pub is_sharing : Pc → Bool
is_sharing (back it) = true
is_sharing staying = true
is_sharing _ = false

abbrev pub is_leaving : Pc → Bool
is_leaving staying = true
is_leaving leaving = true
is_leaving _ = false

-- What the threads share, and the addresses that the program has.
pub record Shared : Type 0 where
  pub dispatcher : GlobalDispatch
  pub cache : Cache
  pub out : List ℕ

-- A step of a thread; there is none where an index is out of range. An iterator that another thread's
-- step made invalid still stands for its index. `Alone` says that no thread holds the mutex shared.
pub data Move (fresh : ℕ → ℕ) (owner : Bool) (Alone : Type 0) (m : Shared)
    : Pc → Shared → Pc → Type 0 where
  choose : owner ≡ true → Move fresh owner Alone m idle m (chose m.cache.act)
  load :
      {b mem : ℕ}
      → get_elem? m.cache.ptrs m.cache.act ≡ some mem
      → Move fresh owner Alone m (chose b) m (loaded b mem)
  pop :
      {b mem p : ℕ} {full : Bool} {s s' : Slab}
      → get_elem? m.cache.slabs b ≡ some s
      → Slab.allocate mem s ≡ some ((p, full), s')
      → Move fresh owner Alone m
          (loaded b mem)
          (record m { cache = record m.cache { slabs = set m.cache.slabs b s' } })
          (taken p full)
  refill :
      {p : ℕ} {s : Slab} {d : GlobalDispatch} {c : Cache}
      → Alone
      → get_elem? m.cache.slabs m.cache.act ≡ some s
      → next_slab fresh s m.dispatcher m.cache ≡ some (d, c)
      → Move fresh owner Alone m
          (taken p true)
          (record m { dispatcher = d; cache = c })
          (taken p false)
  count :
      {p : ℕ}
      → Move fresh owner Alone m
          (taken p false)
          (record m {
            cache = record m.cache { my_size = u64 (m.cache.my_size + 1) };
            out = p ∷ m.out;
          })
          idle
  give_back :
      (ptr : ℕ) (l r : List ℕ) {it mem : ℕ} {s : Slab}
      → m.out ≡ l ++ ptr ∷ r
      → search (ℕ.suc (2 * length m.cache.ptrs)) ptr m.cache.act (length m.cache.ptrs) m.cache
        ≡ some it
      → get_elem? m.cache.slabs it ≡ some s
      → get_elem? m.cache.ptrs it ≡ some mem
      → Move fresh owner Alone m idle
          (record m {
            cache = record m.cache {
              slabs = set m.cache.slabs it (Slab.deallocate ptr mem owner s);
            };
            out = l ++ r;
          })
          (back it)
  keep :
      {it : ℕ} {s : Slab}
      → get_elem? m.cache.slabs it ≡ some s
      → judge it s m.cache ≡ stay
      → Move fresh owner Alone m (back it) m staying
  go_splice :
      {it : ℕ} {s : Slab}
      → get_elem? m.cache.slabs it ≡ some s
      → judge it s m.cache ≡ to_splice
      → Move fresh owner Alone m (back it) m (splicing it)
  go_dispatch :
      {it : ℕ} {s : Slab}
      → get_elem? m.cache.slabs it ≡ some s
      → judge it s m.cache ≡ to_dispatch
      → Move fresh owner Alone m (back it) m (dispatching it)
  splice :
      {it : ℕ} {c : Cache}
      → Alone
      → it < length m.cache.slabs
      → splice_both it m.cache ≡ some c
      → Move fresh owner Alone m (splicing it) (record m { cache = c }) leaving
  dispatch :
      {it : ℕ} {c : Cache}
      → Alone
      → it < length m.cache.slabs
      → mem_to_dispatch it m.cache ≡ some c
      → Move fresh owner Alone m (dispatching it) (record m { cache = c }) leaving
  leave :
      {p : Pc}
      → is_leaving p ≡ true
      → Move fresh owner Alone m p
          (record m {
            cache = record m.cache { my_size = (m.cache.my_size + 2 ^ 64 - 1) % 2 ^ 64 };
          })
          idle

pub record System : Type 0 where
  pub shared : Shared
  pub pc : ℕ → Pc

abbrev pub update : (ℕ → Pc) → ℕ → Pc → ℕ → Pc
update f i p j = if j == i then p else f j

abbrev pub Alone : System → Type 0
Alone s = (j : ℕ) → is_sharing (s.pc j) ≡ false

pub data Step (fresh : ℕ → ℕ) (s : System) : System → Type 0 where
  pick :
      (i : ℕ) {m : Shared} {p : Pc}
      → Move fresh (i == 0) (Alone s) s.shared (s.pc i) m p
      → Step fresh s (record { shared = m; pc = update s.pc i p })

pub data Steps (fresh : ℕ → ℕ) (s : System) : System → Type 0 where
  done : Steps fresh s s
  later : {t u : System} → Steps fresh s t → Step fresh t u → Steps fresh s u
