-- ===== src/SlabMulti/Refs.antt =====
-- Allocators/SlabMulti.h: the count of the references to an interface, over the constructors and the
-- destructor of `SlabMulti` handles. `handles` are those that exist.
use allocators.Common.{ℕ, suc, zero, ◌+◌, ◌-◌, Bool, false, List, [], ◌∷◌, Option, none, some, ltb}

pub record Refs : Type 0 where
  pub handles : ℕ
  pub ref_count : ℕ
  pub deleted : Bool

-- `SlabMulti()` with `Interface()`
abbrev pub init : Refs
init = record { handles = 1; ref_count = 1; deleted = false }

-- A copy or move constructor, or the destructor, of a handle.
pub data Event : Type 0 where
  copy destroy : Event

unfoldable pub inc_ref : Refs → Refs
inc_ref r = record r { ref_count = r.ref_count + 1 }

-- `fetch_sub` returns the count before.
unfoldable pub dec_ref : Refs → Refs
dec_ref r = record r { ref_count = r.ref_count - 1; deleted = ltb r.ref_count 1 }

-- `none`: there is no handle that the event could be about.
unfoldable pub step : Event → Refs → Option Refs
unfolding inc_ref dec_ref
step e r = elim r.handles [
  | zero ↦ none
  | suc n ↦ elim e [
    | Event.copy ↦ some (record (inc_ref r) { handles = suc (suc n) })
    | Event.destroy ↦ some (record (dec_ref r) { handles = n })
  ]
]

unfoldable pub run : List Event → Refs → Option Refs
unfolding step
run [] r = some r
run (e ∷ es) r = elim (step e r) [ none ↦ none | some r' ↦ run es r' ]
