-- ===== src/SharedMutex.antt =====
-- Allocators/SharedMutex.h: `SharedMutex<threads>`, one atomic access at a time, in a sequentially
-- consistent order, and what one thread keeps of it in `tmap`. `compare_exchange_weak` may fail for
-- no reason. The `id` of a flag, which is written and never read, is left out.
pub mod System
pub mod Flags
pub mod Moves
pub mod Slots
pub mod Owner
pub mod Race
pub mod Progress
mod Tests
use allocators.Common.{ℕ, suc, ◌≤◌, ◌<◌, ◌≡◌, ◌≢◌, Bool, true, false, ◌==◌, if◌then◌else◌}

-- `ContentionFreeFlag::Flags`
pub data Flag : Type 0 where
  unregistered registered prepare_lock shared_lock : Flag

-- What all threads share. An index from `threads` on names no flag.
pub record Mem : Type 0 where
  pub sp_lock : Bool
  pub flags : ℕ → Flag

-- The index that `getOrSetIndex` finds in `tmap`: `missing` is no entry yet, `spilled` an entry with
-- `Status::Unregistered`.
pub data Register : Type 0 where
  missing spilled : Register
  index : (i : ℕ) → Register

pub data Call : Type 0 where
  lock_shared try_lock_shared : Call

-- Where a thread stands, with the local variables that are live there.
pub data Pc : Type 0 where
  idle : Pc
  registering : (c : Call) (i : ℕ) → Pc  -- the loop of `registerThread`
  read_wait : (i : ℕ) → Pc  -- the `while` of `lock_shared`
  read_store : (i : ℕ) → Pc  -- before the store to the flag
  spill_wait : Pc  -- the compare-exchange loop of `lock_shared`
  try_load : (i : ℕ) → Pc  -- the load of `try_lock_shared`
  try_store : (i : ℕ) → Pc
  try_spill : Pc  -- before `compare_exchange_strong`
  reading : Pc  -- after `lock_shared`, or a `try_lock_shared` that returned true
  write_wait : Pc  -- the compare-exchange loop of `lock`
  write_scan : (i : ℕ) → Pc  -- the loop over the flags
  writing : Pc
  leaving : (i : ℕ) → Pc  -- the loop of `~ThreadRegister`
  gone : Pc

abbrev pub set_flag : (i : ℕ) → Flag → Mem → Mem
set_flag i x m = record m { flags = λ j. if j == i then x else m.flags j }

abbrev pub set_lock : Bool → Mem → Mem
set_lock b m = record m { sp_lock = b }

-- Where a call goes on with the index that `registerThread` returns.
abbrev pub after : Call → Register → Pc
after lock_shared (index i) = read_wait i
after lock_shared missing = spill_wait
after lock_shared spilled = spill_wait
after try_lock_shared (index i) = try_load i
after try_lock_shared missing = try_spill
after try_lock_shared spilled = try_spill

-- The calls of a program with `tries`, or without: `try_lock_shared` is called or not.
abbrev pub may : (tries : Bool) → Call → Bool
may tries lock_shared = true
may tries try_lock_shared = tries

-- One step of one thread. A failed exchange of `try_lock_shared` leaves `true` in `locked`, which it
-- returns, and a successful one leaves `false`.
pub data Move (tries : Bool) (threads : ℕ) (m : Mem)
    : Register → Pc → Mem → Register → Pc → Type 0 where
  call_first :
      (c : Call)
      → may tries c ≡ true
      → Move tries threads m missing idle m spilled (registering c 0)
  call_spilled :
      (c : Call)
      → may tries c ≡ true
      → Move tries threads m spilled idle m spilled (after c spilled)
  call_again :
      (c : Call) {i : ℕ}
      → may tries c ≡ true
      → Move tries threads m (index i) idle m (index i) (after c (index i))
  slot_taken :
      {r : Register} {c : Call} {i : ℕ}
      → i < threads
      → m.flags i ≢ unregistered
      → Move tries threads m r (registering c i) m r (registering c (suc i))
  slot_free :
      {r : Register} {c : Call} {i : ℕ}
      → i < threads
      → m.flags i ≡ unregistered
      → Move tries threads m r
          (registering c i)
          (set_flag i registered m)
          (index i)
          (after c (index i))
  slots_full :
      {r : Register} {c : Call} {i : ℕ}
      → threads ≤ i
      → Move tries threads m r (registering c i) m r (after c spilled)
  read_spin :
      {r : Register} {i : ℕ}
      → m.sp_lock ≡ true
      → Move tries threads m r (read_wait i) m r (read_wait i)
  read_pass :
      {r : Register} {i : ℕ}
      → m.sp_lock ≡ false
      → Move tries threads m r (read_wait i) m r (read_store i)
  read_enter :
      {r : Register} {i : ℕ}
      → Move tries threads m r (read_store i) (set_flag i shared_lock m) r reading
  spill_spin : {r : Register} → Move tries threads m r spill_wait m r spill_wait
  spill_enter :
      {r : Register}
      → m.sp_lock ≡ false
      → Move tries threads m r spill_wait (set_lock true m) r reading
  unlock_shared :
      {i : ℕ} → Move tries threads m (index i) reading (set_flag i registered m) (index i) idle
  unlock_spilled : Move tries threads m spilled reading (set_lock false m) spilled idle
  lock : {r : Register} → Move tries threads m r idle m r write_wait
  lock_spin : {r : Register} → Move tries threads m r write_wait m r write_wait
  lock_win :
      {r : Register}
      → m.sp_lock ≡ false
      → Move tries threads m r write_wait (set_lock true m) r (write_scan 0)
  scan_spin :
      {r : Register} {i : ℕ}
      → i < threads
      → m.flags i ≡ shared_lock
      → Move tries threads m r (write_scan i) m r (write_scan i)
  scan_pass :
      {r : Register} {i : ℕ}
      → i < threads
      → m.flags i ≢ shared_lock
      → Move tries threads m r (write_scan i) m r (write_scan (suc i))
  scan_done :
      {r : Register} {i : ℕ} → threads ≤ i → Move tries threads m r (write_scan i) m r writing
  unlock : {r : Register} → Move tries threads m r writing (set_lock false m) r idle
  try_busy :
      {r : Register} {i : ℕ} → m.sp_lock ≡ true → Move tries threads m r (try_load i) m r idle
  try_pass :
      {r : Register} {i : ℕ}
      → m.sp_lock ≡ false
      → Move tries threads m r (try_load i) m r (try_store i)
  try_enter :
      {r : Register} {i : ℕ}
      → Move tries threads m r (try_store i) (set_flag i shared_lock m) r reading
  try_win :
      {r : Register} → m.sp_lock ≡ false → Move tries threads m r try_spill (set_lock true m) r idle
  try_lose : {r : Register} → m.sp_lock ≡ true → Move tries threads m r try_spill m r reading
  leave : {i : ℕ} → Move tries threads m (index i) idle m (index i) (leaving i)
  leave_spilled : Move tries threads m spilled idle m spilled gone
  leave_spin : {r : Register} {i : ℕ} → Move tries threads m r (leaving i) m r (leaving i)
  leave_done :
      {r : Register} {i : ℕ}
      → m.flags i ≡ registered
      → Move tries threads m r (leaving i) (set_flag i unregistered m) r gone
