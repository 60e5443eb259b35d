-- ===== src/SlabMulti/SpinLock.antt =====
-- Allocators/ImplSlabMulti.h, `SpinLock`: any number of threads over one flag, one step per access to it.
use allocators.Common.{
  ℕ, ◌≡◌, refl, Bool, true, false, ◌==◌, if◌then◌else◌, arith, Bool-cases, inl, inr,
}

pub data Pc : Type 0 where
  idle spinning holding : Pc

-- The flag, and where the threads are.
pub record Lock : Type 0 where
  pub flag : Bool
  pub pc : ℕ → Pc

abbrev pub update : (ℕ → Pc) → ℕ → Pc → ℕ → Pc
update f i p j = if j == i then p else f j

pub data Step (s : Lock) : Lock → Type 0 where
  lock : (i : ℕ) → s.pc i ≡ idle → Step s (record s { pc = update s.pc i spinning })
  -- `while (flag.test_and_set(...));`: the flag is set, and the loop ends if it was not.
  test_and_set :
      (i : ℕ)
      → s.pc i ≡ spinning
      → Step s (record { flag = true; pc = update s.pc i (if s.flag then spinning else holding) })
  unlock : (i : ℕ) → s.pc i ≡ holding → Step s (record { flag = false; pc = update s.pc i idle })

pub data Reach : Lock → Type 0 where
  start : Reach (record { flag = false; pc = λ i. idle })
  later : {s t : Lock} → Reach s → Step s t → Reach t

record Inv (s : Lock) : Type 0 where
  held : (i : ℕ) → s.pc i ≡ holding → s.flag ≡ true
  alone : (i j : ℕ) → s.pc i ≡ holding → s.pc j ≡ holding → i ≡ j

Step-Inv : {s t : Lock} → Inv s → Step s t → Inv t
Step-Inv inv (lock i at) = record {
  held = λ j h. ground (arith, inv.held j);
  alone = λ j k h h'. ground (arith, inv.alone j k);
}
Step-Inv {s} inv (test_and_set i at) = elim (Bool-cases s.flag) [
  | inl taken ↦ record { held = λ j h. refl; alone = λ j k h h'. ground (arith, inv.alone j k) }
  | inr free ↦ record {
    held = λ j h. refl;
    alone = λ j k h h'. ground (arith, inv.held j, inv.held k);
  }
]
Step-Inv inv (unlock i at) = record {
  held = λ j h. ground (arith, inv.alone i j);
  alone = λ j k h h'. ground (arith, inv.alone j k);
}

Reach-Inv : {s : Lock} → Reach s → Inv s
Reach-Inv start = record { held = λ i h. absurd (cc); alone = λ i j h h'. absurd (cc) }
Reach-Inv (later r st) = Step-Inv (Reach-Inv r) st

-- Two threads never hold the `SpinLock` at the same time, in any order of their accesses to the flag.
pub holding_unique : {s : Lock} → Reach s → (i j : ℕ) → s.pc i ≡ holding → s.pc j ≡ holding → i ≡ j
holding_unique r = let inv = Reach-Inv r in inv.alone
