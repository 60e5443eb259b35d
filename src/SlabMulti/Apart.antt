-- ===== src/SlabMulti/Apart.antt =====
-- Threads over one `ImplSlabMulti::Cache`, over any number of steps: no block is given out twice where no
-- thread moves slabs while the owner reads which slab is active.
use mathlib.Core.List.{Nodup}
use allocators.Common.{ℕ, ◌≡◌, ◌≢◌, refl, Bool, true, false, some, get_elem?, ap, ◌∙◌, sym}
use allocators.SlabMulti.Cache.{Cache}
use allocators.SlabMulti.Held.{Steady, all_blocks}
use allocators.SlabMulti.Lengths.{IsPaired}
use allocators.SlabMulti.Threads.{Pc, Shared, Move, System}

-- `allocate`, where it has read which slab is active and has no block yet.
abbrev pub is_reading : Pc → Bool
is_reading (Pc.chose b) = true
is_reading (Pc.loaded b mem) = true
is_reading _ = false

abbrev pub is_allocating : Pc → Bool
is_allocating (Pc.taken p full) = true
is_allocating p = is_reading p

-- What the owner has read still holds.
abbrev pub Current : Pc → Cache → Type 0
Current (Pc.chose b) c = b ≡ c.act
Current (Pc.loaded b mem) c = get_elem? c.ptrs b ≡ some mem
Current _ c = Unit

pub record Inv (s : System) : Type 0 where
  pub paired : IsPaired s.shared.cache
  pub owner : (i : ℕ) → i ≢ 0 → is_allocating (s.pc i) ≡ false
  pub current : Current (s.pc 0) s.shared.cache
  pub apart : Nodup (all_blocks (s.pc 0) s.shared)

pub Current-Steady : (p : Pc) (c : Cache) → Current p c → Steady p c
Current-Steady (Pc.loaded b mem) c h = h
Current-Steady _ c h = tt

still-Current : (p : Pc) (c : Cache) → is_reading p ≡ false → Current p c
still-Current (Pc.chose b) c e = absurd (cc)
still-Current (Pc.loaded b mem) c e = absurd (cc)
still-Current _ c e = tt

-- The active index and the pointers are the same.
same-Current :
    (p : Pc) (c c' : Cache) → c'.act ≡ c.act → c'.ptrs ≡ c.ptrs → Current p c → Current p c'
same-Current (Pc.chose b) c c' e e' h = h ∙ sym e
same-Current (Pc.loaded b mem) c c' e e' h = ap (λ l. get_elem? l b) e' ∙ h
same-Current _ c c' e e' h = tt

-- Whether slabs change their places.
abbrev pub moves_slabs :
    {fresh : ℕ → ℕ} {owner : Bool} {A : Type 0} {m m' : Shared} {p p' : Pc}
    → Move fresh owner A m p m' p'
    → Bool
moves_slabs (Move.splice _ _ _) = true
moves_slabs (Move.dispatch _ _ _) = true
moves_slabs _ = false

module _ {fresh : ℕ → ℕ} {A : Type 0} (m : Shared) where
  -- A thread that is not the owner.
  pub Move-foreign :
      {p p' : Pc} {m' : Shared} (mv : Move fresh false A m p m' p')
      → is_allocating p ≡ false
      → is_allocating p' ≡ false
  Move-foreign (Move.choose e) h = absurd (cc)
  Move-foreign (Move.load e) h = absurd (cc)
  Move-foreign (Move.pop at e) h = absurd (cc)
  Move-foreign (Move.refill a at e) h = absurd (cc)
  Move-foreign Move.count h = absurd (cc)
  Move-foreign _ h = refl

  pub foreign-Current :
      (q : Pc) {p p' : Pc} {m' : Shared} (mv : Move fresh false A m p m' p')
      → is_allocating p ≡ false
      → (moves_slabs mv ≡ true → is_reading q ≡ false)
      → Current q m.cache
      → Current q m'.cache
  foreign-Current q (Move.choose e) h calm cur = absurd (cc)
  foreign-Current q (Move.load e) h calm cur = absurd (cc)
  foreign-Current q (Move.pop at e) h calm cur = absurd (cc)
  foreign-Current q (Move.refill a at e) h calm cur = absurd (cc)
  foreign-Current q Move.count h calm cur = absurd (cc)
  foreign-Current q (Move.splice {c = c} a lt e) h calm cur = still-Current q c (calm refl)
  foreign-Current q (Move.dispatch {c = c} a lt e) h calm cur = still-Current q c (calm refl)
  foreign-Current q mv h calm cur = same-Current q _ _ refl refl cur

  pub own-Current :
      {owner : Bool} {p p' : Pc} {m' : Shared} (mv : Move fresh owner A m p m' p')
      → Current p m.cache
      → Current p' m'.cache
  own-Current (Move.choose e) cur = refl
  own-Current (Move.load e) cur = ap (λ (k : ℕ). get_elem? m.cache.ptrs k) cur ∙ e
  own-Current _ cur = tt
