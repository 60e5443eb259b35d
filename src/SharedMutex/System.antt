-- ===== src/SharedMutex/System.antt =====
-- Any number of threads over one `SharedMutex`, interleaved in any order.
use allocators.Common.{ℕ, Bool, false, ◌==◌, if◌then◌else◌}
use allocators.SharedMutex.{Flag, Mem, Register, Pc, Move}

pub record Thread : Type 0 where
  pub reg : Register
  pub pc : Pc

pub record System : Type 0 where
  pub mem : Mem
  pub thread : ℕ → Thread

abbrev pub update : {A : Type 0} → (ℕ → A) → ℕ → A → ℕ → A
update f i x j = if j == i then x else f j

pub data Step (tries : Bool) (threads : ℕ) (s : System) : System → Type 0 where
  pick :
      (i : ℕ) {m : Mem} {r : Register} {p : Pc}
      → Move tries threads s.mem (s.thread i).reg (s.thread i).pc m r p
      → Step tries threads s
          (record { mem = m; thread = update s.thread i (record { reg = r; pc = p }) })

-- `SharedMutex()`, before any thread has called it.
abbrev pub init : System
init = record {
  mem = record { sp_lock = false; flags = λ _. Flag.unregistered };
  thread = λ _. record { reg = Register.missing; pc = Pc.idle };
}

pub data Reach (tries : Bool) (threads : ℕ) : System → Type 0 where
  start : Reach tries threads init
  later : {s t : System} → Reach tries threads s → Step tries threads s t → Reach tries threads t
