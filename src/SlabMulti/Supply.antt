-- ===== src/SlabMulti/Supply.antt =====
-- The free blocks of `ImplSlabMulti::Cache`: the addresses that its slabs still have to give, those that
-- other threads returned included.
use mathlib.Core.List.{Perm, perm_middle, append-nil}
use mathlib.Core.List.Perm
use allocators.Common.{ℕ, ◌+◌, ◌*◌, ◌≡◌, List, [], ◌∷◌, ◌++◌, map, some, get_elem?, set}
use allocators.SlabHelper.Splice.{flat, flat-perm}
use allocators.SlabMulti.Slab
use allocators.SlabMulti.Slab.{Slab, push_all}
use allocators.SlabMulti.Cache.{Cache, erase}
use allocators.SlabMulti.Pairs.{pairs, pairs-set, pairs-erase}

-- The free blocks of a slab whose memory starts at `mem`.
abbrev pub blocks : (s : Slab) (mem : ℕ) → List ℕ
blocks s mem = map (λ i. mem + i * s.block_size) (s.availible ++ s.foreigns)

abbrev pub pair_blocks : Slab × ℕ → List ℕ
pair_blocks (s, mem) = blocks s mem

abbrev pub supply_of : List Slab → List ℕ → List ℕ
supply_of slabs ptrs = flat pair_blocks (pairs slabs ptrs)

abbrev pub supply : Cache → List ℕ
supply c = supply_of c.slabs c.ptrs

module _ (i : ℕ) (slabs : List Slab) (ptrs : List ℕ) (s : Slab) (mem : ℕ)
    (at : get_elem? slabs i ≡ some s) (at_mem : get_elem? ptrs i ≡ some mem) where
  pub supply-erase :
      Perm (supply_of slabs ptrs) (blocks s mem ++ supply_of (erase i slabs) (erase i ptrs))
  supply-erase = flat-perm pair_blocks (pairs-erase i slabs ptrs s mem at at_mem)

  pub supply-set :
      (s' : Slab)
      → Perm
          (supply_of (set slabs i s') ptrs)
          (blocks s' mem ++ supply_of (erase i slabs) (erase i ptrs))
  supply-set s' = flat-perm pair_blocks (pairs-set i slabs ptrs s mem s' at at_mem)

  -- A block less in a slab is a block less in the cache.
  pub supply-give :
      (p : ℕ) (s' : Slab)
      → Perm (blocks s mem) (p ∷ blocks s' mem)
      → Perm (supply_of slabs ptrs) (p ∷ supply_of (set slabs i s') ptrs)
  supply-give p s' less =
      Perm.trans supply-erase
        (Perm.trans (Perm.append_right _ less) (Perm.cons p (Perm.symm (supply-set s'))))

  pub supply-take :
      (p : ℕ) (s' : Slab)
      → Perm (p ∷ blocks s mem) (blocks s' mem)
      → Perm (p ∷ supply_of slabs ptrs) (supply_of (set slabs i s') ptrs)
  supply-take p s' more =
      Perm.trans (Perm.cons p supply-erase)
        (Perm.trans (Perm.append_right _ more) (Perm.symm (supply-set s')))

push_all-Perm : (l k : List ℕ) → Perm (push_all l k) (k ++ l)
unfolding push_all
push_all-Perm [] k = rw append-nil Perm.rfl
push_all-Perm (x ∷ l) k = Perm.trans (push_all-Perm l (x ∷ k)) (Perm.symm (perm_middle k l))

-- Merging gives a slab its returned blocks, and no other.
pub blocks-merge_foreigns :
    (s : Slab) (mem : ℕ) → Perm (blocks s mem) (blocks (Slab.merge_foreigns s) mem)
unfolding Slab.merge_foreigns
blocks-merge_foreigns s mem =
    rw (append-nil (push_all s.foreigns s.availible))
      (Perm.map _ (Perm.symm (push_all-Perm s.foreigns s.availible)))
