-- ===== src/SlabMulti/Handles.antt =====
-- Allocators/SlabMulti.h: handles (`SlabMulti`) and the interfaces that they refer to, with the
-- assignment operators. A use of an interface that is deleted, or of a handle that does not exist, is
-- `none`, and so is a function that ends without the `return` that its type wants.
use allocators.Common.{
  ℕ, ◌+◌, ◌-◌, ◌≡◌, refl, Bool, false, Option, none, some, ◌>>=◌, ltb, ◌==◌, if◌then◌else◌, arith,
}

-- `interface` is where the handles refer to, by their addresses.
pub record Handles : Type 0 where
  pub interface : ℕ → Option ℕ
  pub ref_count : ℕ → ℕ
  pub deleted : ℕ → Bool

abbrev pub update : {A : Type 0} → (ℕ → A) → ℕ → A → ℕ → A
update f p x q = if q == p then x else f q

-- `SlabMulti()`, where `i` is the new interface.
unfoldable pub construct : (h i : ℕ) → Handles → Handles
construct h i st = record {
  interface = update st.interface h (some i);
  ref_count = update st.ref_count i 1;
  deleted = update st.deleted i false;
}

unfoldable pub inc_ref : (i : ℕ) → Handles → Option Handles
inc_ref i st =
    if st.deleted i
    then none
    else some (record st { ref_count = update st.ref_count i (st.ref_count i + 1) })

-- `fetch_sub` returns the count before.
unfoldable pub dec_ref : (i : ℕ) → Handles → Option Handles
dec_ref i st =
    if st.deleted i
    then none
    else some (record st {
      ref_count = update st.ref_count i (st.ref_count i - 1);
      deleted = update st.deleted i (ltb (st.ref_count i) 1);
    })

-- A copy or move constructor of the handle `h` from `other`.
unfoldable pub copy : (h other : ℕ) → Handles → Option Handles
unfolding inc_ref
copy h other st = do
  i ← st.interface other
  inc_ref i (record st { interface = update st.interface h (some i) })

unfoldable pub destroy : (h : ℕ) → Handles → Option Handles
unfolding dec_ref
destroy h st = do
  i ← st.interface h
  st' ← dec_ref i st
  some (record st' { interface = update st'.interface h none })

-- The statements of `operator=` of the handle `h`, for a copy and for a move alike.
unfoldable pub assign_body : (h other : ℕ) → Handles → Option Handles
unfolding dec_ref
assign_body h other st = do
  i ← st.interface h
  st' ← dec_ref i st
  j ← st'.interface other
  some (record st' { interface = update st'.interface h (some j) })

-- `operator=`: no `return` follows the statements, which is undefined.
unfoldable pub assign : (h other : ℕ) → Handles → Option Handles
unfolding assign_body
assign h other st = do st' ← assign_body h other st; none

unfoldable pub eq : (h other : ℕ) → Handles → Option Bool
eq h other st = do i ← st.interface h; j ← st.interface other; some (i == j)

module _ (h i : ℕ) where
  -- The handle refers to an interface with `n` references counted.
  pub record Refers (n : ℕ) (st : Handles) : Type 0 where
    pub at : st.interface h ≡ some i
    pub count : st.ref_count i ≡ n
    pub alive : st.deleted i ≡ false

  -- The statements of an assignment from another handle leave the count of the interface that the
  -- handle refers to afterwards as it was, though one more handle refers to it. The two handles refer
  -- to different interfaces before. No `return` follows, so that the assignment is undefined.
  pub assign-uncounted :
      (k j n : ℕ) (st : Handles)
      → Refers n st
      → st.interface k ≡ some j
      → st.deleted j ≡ false
      → (i == j) ≡ false
      → (st' : Handles) × (assign_body k h st ≡ some st')
        × (st'.interface k ≡ some i)
        × (st'.interface h ≡ some i)
        × (st'.ref_count i ≡ n)
        × (assign k h st ≡ none)
  unfolding assign assign_body dec_ref
  assign-uncounted k j n st r at alive other = (
    record {
      interface = update st.interface k (some i);
      ref_count = update st.ref_count j (st.ref_count j - 1);
      deleted = update st.deleted j (ltb (st.ref_count j) 1);
    },
    rw (at, alive, r.at) refl,
    ground arith,
    ground (arith, r.at),
    ground (arith, r.count),
    rw (at, alive, r.at) refl,
  )
