-- ===== src/SlabHelper/Inv.antt =====
-- The invariant of `SlabImpl::Cache`: which slabs stand in which vector, and the two counters.
use mathlib.Core.List.{Perm}
use allocators.Common.{ℕ, ◌+◌, ◌*◌, ◌<◌, ◌≡◌, List, ◌∷◌, ◌++◌, length, All, total, subst, sym}
use allocators.SlabHelper.SlabOps.{SlabOps, SlabLaws}
use allocators.SlabHelper.Splice.{flat}
use allocators.SlabHelper.Cache.{Cache}

module _ {S : Type 0} (ops : SlabOps S) (bs n : ℕ) (laws : SlabLaws ops bs n) where
  -- How many blocks of a slab are free.
  abbrev pub room : S → ℕ
  room s = length (laws.free s)

  abbrev pub IsFree : S → Type 0
  IsFree s = laws.Good s × (room s ≡ n)

  abbrev pub IsPart : S → Type 0
  IsPart s = laws.Good s × (0 < room s) × (room s < n)

  abbrev pub IsFull : S → Type 0
  IsFull s = laws.Good s × (room s ≡ 0)

  pub record Inv (c : Cache S) : Type 0 where
    pub block : c.block_size ≡ bs
    pub blocks : c.count ≡ n
    pub free : All IsFree c.slabs_free
    pub part : All IsPart c.slabs_part
    pub full : All IsFull c.slabs_full
    pub capacity :
        c.my_capacity ≡ n * (length c.slabs_free + length c.slabs_part + length c.slabs_full)
    pub size : c.my_size + total room c.slabs_free + total room c.slabs_part ≡ c.my_capacity

  -- The addresses of all free blocks.
  abbrev pub supply : Cache S → List ℕ
  supply c = flat laws.free c.slabs_part ++ flat laws.free c.slabs_free

  -- `p` was free in `c`, and is taken in `c'`, where all else is as free as before.
  pub record Gives (c : Cache S) (p : ℕ) (c' : Cache S) : Type 0 where
    pub inv : Inv c'
    pub taken : c'.my_size ≡ c.my_size + 1
    pub capacity : c'.my_capacity ≡ c.my_capacity
    pub given : Perm (supply c) (p ∷ supply c')

  -- `p` was taken in `c`, and is free in `c'`, where all else is as free as before.
  pub record Takes (c : Cache S) (p : ℕ) (c' : Cache S) : Type 0 where
    pub inv : Inv c'
    pub released : c'.my_size + 1 ≡ c.my_size
    pub capacity : c'.my_capacity ≡ c.my_capacity
    pub returned : Perm (p ∷ supply c) (supply c')

  -- A cache with the invariant is one over its own block size and count.
  abbrev pub cache : (cap sz : ℕ) (fr part fu : List S) → Cache S
  cache cap sz fr part fu = record {
    count = n;
    block_size = bs;
    my_capacity = cap;
    my_size = sz;
    slabs_free = fr;
    slabs_part = part;
    slabs_full = fu;
  }

  pub by_fields {κ} :
      (P : Cache S → Type κ)
      → ((cap sz : ℕ) (fr part fu : List S)
          → Inv (cache cap sz fr part fu)
          → P (cache cap sz fr part fu))
      → (c : Cache S) → Inv c
      → P c
  by_fields P h c inv =
      let same : c ≡ cache c.my_capacity c.my_size c.slabs_free c.slabs_part c.slabs_full =
        λ i. record c { count = inv.blocks i; block_size = inv.block i } in
      subst P (sym same)
        (h c.my_capacity c.my_size c.slabs_free c.slabs_part c.slabs_full (subst Inv same inv))
