-- ===== src/SharedMutex/Tests.antt =====
-- The theorems about Allocators/SharedMutex.h in concrete states.
use allocators.Common.{ℕ, ◌≡◌, refl, ◌⊎◌, Bool, true, false, arith}
use allocators.SharedMutex.{Flag, Register, Call, Pc, Move}
use allocators.SharedMutex.System.{System, Reach, start}
use allocators.SharedMutex.Owner.{spill_lock_unique}
use allocators.SharedMutex.Flags.{shows}
use allocators.SharedMutex.Slots.{flag_of, flags_owned}
use allocators.SharedMutex.Progress.{busy, Advance, no_deadlock}
use allocators.SharedMutex.Race.{step, reader_beside_writer}

-- A mutex with no flags: thread 0 reads under the spill lock, and thread 1 waits to write.
record Reached (tries : Bool) (threads : ℕ) : Type 0 where
  last : System
  reach : Reach tries threads last

abbrev spilled_reader : Reached false 0
spilled_reader =
    let r1 = step false 0 0 start refl (Move.call_first Call.lock_shared refl) in
    let r2 = step false 0 0 r1 refl (Move.slots_full (omega arith)) in
    let r3 = step false 0 1 r2 refl Move.lock in
    record { last = _; reach = step false 0 0 r3 refl (Move.spill_enter refl) }

spill_lock_unique_example : ◌≡◌ {A = ℕ} 0 0
spill_lock_unique_example = spill_lock_unique spilled_reader.reach 0 0 refl refl

reader_beside_writer_example :
    (s : System) × Reach false 4 s
    × (s.thread 0 ≡ record { reg = Register.index 0; pc = Pc.reading })
    × (s.thread 1 ≡ record { reg = Register.missing; pc = Pc.writing })
reader_beside_writer_example = reader_beside_writer false 4 (omega arith)

-- Thread 0 took the spill lock by a `try_lock_shared` that returned false.
abbrev lost_lock : Reached true 0
lost_lock =
    let r1 = step true 0 0 start refl (Move.call_first Call.try_lock_shared refl) in
    let r2 = step true 0 0 r1 refl (Move.slots_full (omega arith)) in
    record { last = _; reach = step true 0 0 r2 refl (Move.try_win refl) }

-- Thread 0 is inside with the first of four flags.
abbrev flag_reader : Reached false 4
flag_reader =
    let r1 = step false 4 0 start refl (Move.call_first Call.lock_shared refl) in
    let r2 = step false 4 0 r1 refl (Move.slot_free (omega arith) refl) in
    let r3 = step false 4 0 r2 refl (Move.read_pass refl) in
    record { last = _; reach = step false 4 0 r3 refl Move.read_enter }

flags_owned_example :
    ((t u i : ℕ)
      → flag_of flag_reader.last t i ≡ true
      → flag_of flag_reader.last u i ≡ true
      → t ≡ u)
    × ((t i : ℕ)
        → flag_of flag_reader.last t i ≡ true
        → flag_reader.last.mem.flags i ≡ shows (flag_reader.last.thread t).pc)
    × ((i : ℕ)
        → (flag_reader.last.mem.flags i ≡ Flag.unregistered)
          ⊎ ((t : ℕ) × (flag_of flag_reader.last t i ≡ true)))
flags_owned_example = flags_owned flag_reader.reach

-- The writer waits, and the reader can leave.
no_deadlock_example :
    (u : ℕ) × (busy (spilled_reader.last.thread u).pc ≡ true)
    × Advance 0 spilled_reader.last.mem
        (spilled_reader.last.thread u).reg
        (spilled_reader.last.thread u).pc
no_deadlock_example = no_deadlock spilled_reader.reach 1 refl
