-- ===== src/SharedMutex/Progress.antt =====
-- No deadlock of a `SharedMutex`, in a program that does not call `try_lock_shared`.
use allocators.Common.{
  ℕ, ◌≡◌, ◌⊎◌, ◌≢◌, refl, inl, inr, Bool, true, false, Bool-cases, arith, sym, ◌∙◌, subst, ltb, ap,
}
use allocators.SharedMutex.{Mem, Flag, Register, Call, Pc, Move}
use allocators.SharedMutex.System.{System, Reach}
use allocators.SharedMutex.Flags.{has_flag, shows, Fits}
use allocators.SharedMutex.Slots
use allocators.SharedMutex.Owner
use allocators.SharedMutex.Slots.{flag_of, flags_owned}
use allocators.SharedMutex.Owner.{Ok, owns, spill_lock_held}

-- The thread is in a call, or in the destructor of its `ThreadRegister`.
abbrev pub busy : Pc → Bool
busy Pc.idle = false
busy Pc.gone = false
busy p = true

-- A step that the thread can take now and that brings it on.
abbrev pub Advance : (threads : ℕ) → Mem → Register → Pc → Type 0
Advance threads m r p =
    (m' : Mem) × (r' : Register) × (p' : Pc) × Move false threads m r p m' r' p' × (p' ≢ p)

Flag-discrete : Discrete Flag
Flag-discrete = hlevel

abbrev position : Pc → ℕ
position (Pc.registering c i) = i
position (Pc.write_scan i) = i
position p = 0

-- What a thread that is busy waits for.
Waits : (threads : ℕ) → Mem → Register → Pc → Type 0
Waits threads m r p =
    Advance threads m r p
    ⊎ ((m.sp_lock ≡ true) × (owns r p ≡ false))
    ⊎ ((i : ℕ) × (m.flags i ≡ Flag.shared_lock))

module _ (threads : ℕ) (m : Mem) where
  registering-Waits :
      (r : Register) (i : ℕ) → Advance threads m r (Pc.registering Call.lock_shared i)
  registering-Waits r i = elim (Bool-cases (ltb i threads)) [
    | inl lt ↦ elim (Flag-discrete (m.flags i) Flag.unregistered) [
      | yes free ↦ (_, _, _, Move.slot_free (ground arith) free, λ e. absurd (cc))
      | no taken ↦ (
        _,
        _,
        _,
        Move.slot_taken (ground arith) taken,
        λ e. let same = ap position e in absurd (omega arith),
      )
    ]
    | inr ge ↦ (_, _, _, Move.slots_full (ground arith), λ e. absurd (cc))
  ]

  scan-Waits :
      (r : Register) (i : ℕ)
      → Advance threads m r (Pc.write_scan i) ⊎ (m.flags i ≡ Flag.shared_lock)
  scan-Waits r i = elim (Bool-cases (ltb i threads)) [
    | inl lt ↦ elim (Flag-discrete (m.flags i) Flag.shared_lock) [
      | yes shared ↦ inr shared
      | no clear ↦ inl (
        _,
        _,
        _,
        Move.scan_pass (ground arith) clear,
        λ e. let same = ap position e in absurd (omega arith),
      )
    ]
    | inr ge ↦ inl (_, _, _, Move.scan_done (ground arith), λ e. absurd (cc))
  ]

  reading-Advance : (r : Register) → r ≢ Register.missing → Advance threads m r Pc.reading
  reading-Advance Register.missing ne = absurd (ne refl)
  reading-Advance Register.spilled ne = (_, _, _, Move.unlock_spilled, λ e. absurd (cc))
  reading-Advance (Register.index i) ne = (_, _, _, Move.unlock_shared, λ e. absurd (cc))

  busy-Waits :
      (r : Register) (p : Pc)
      → busy p ≡ true
      → Fits r p
      → Ok r p
      → ((i : ℕ) → has_flag r p i ≡ true → m.flags i ≡ shows p)
      → Waits threads m r p
  unfolding Waits
  busy-Waits r Pc.idle b fits ok own = absurd (cc)
  busy-Waits r (Pc.registering Call.lock_shared i) b fits ok own = inl (registering-Waits r i)
  busy-Waits r (Pc.registering Call.try_lock_shared i) b fits ok own = absurd (cc ok.1)
  busy-Waits r (Pc.read_wait i) b fits ok own = elim (Bool-cases m.sp_lock) [
    | inl set ↦ inr (inl (set, refl))
    | inr clear ↦ inl (_, _, _, Move.read_pass clear, λ e. absurd (cc))
  ]
  busy-Waits r (Pc.read_store i) b fits ok own = inl (_, _, _, Move.read_enter, λ e. absurd (cc))
  busy-Waits r Pc.spill_wait b fits ok own = elim (Bool-cases m.sp_lock) [
    | inl set ↦ inr (inl (set, refl))
    | inr clear ↦ inl (_, _, _, Move.spill_enter clear, λ e. absurd (cc))
  ]
  busy-Waits r (Pc.try_load i) b fits ok own = absurd ok
  busy-Waits r (Pc.try_store i) b fits ok own = absurd ok
  busy-Waits r Pc.try_spill b fits ok own = absurd ok
  busy-Waits r Pc.reading b fits ok own = inl (reading-Advance r fits)
  busy-Waits r Pc.write_wait b fits ok own = elim (Bool-cases m.sp_lock) [
    | inl set ↦ inr (inl (set, refl))
    | inr clear ↦ inl (_, _, _, Move.lock_win clear, λ e. absurd (cc))
  ]
  busy-Waits r (Pc.write_scan i) b fits ok own = elim (scan-Waits r i) [
    | inl on ↦ inl on
    | inr shared ↦ inr (inr (i, shared))
  ]
  busy-Waits r Pc.writing b fits ok own = inl (_, _, _, Move.unlock, λ e. absurd (cc))
  busy-Waits r (Pc.leaving i) b fits ok own =
      let mine : has_flag r (Pc.leaving i) i ≡ true = rw fits (ground arith) in
      inl (_, _, _, Move.leave_done (own i mine), λ e. absurd (cc))
  busy-Waits r Pc.gone b fits ok own = absurd (cc)

shows_reading : (p : Pc) → shows p ≡ Flag.shared_lock → p ≡ Pc.reading
shows_reading Pc.idle e = absurd (cc)
shows_reading (Pc.registering c i) e = absurd (cc)
shows_reading (Pc.read_wait i) e = absurd (cc)
shows_reading (Pc.read_store i) e = absurd (cc)
shows_reading Pc.spill_wait e = absurd (cc)
shows_reading (Pc.try_load i) e = absurd (cc)
shows_reading (Pc.try_store i) e = absurd (cc)
shows_reading Pc.try_spill e = absurd (cc)
shows_reading Pc.reading e = refl
shows_reading Pc.write_wait e = absurd (cc)
shows_reading (Pc.write_scan i) e = absurd (cc)
shows_reading Pc.writing e = absurd (cc)
shows_reading (Pc.leaving i) e = absurd (cc)
shows_reading Pc.gone e = absurd (cc)

owns-busy : (r : Register) (p : Pc) → owns r p ≡ true → busy p ≡ true
owns-busy r Pc.idle e = absurd (cc)
owns-busy r (Pc.registering c i) e = refl
owns-busy r (Pc.read_wait i) e = refl
owns-busy r (Pc.read_store i) e = refl
owns-busy r Pc.spill_wait e = refl
owns-busy r (Pc.try_load i) e = refl
owns-busy r (Pc.try_store i) e = refl
owns-busy r Pc.try_spill e = refl
owns-busy r Pc.reading e = refl
owns-busy r Pc.write_wait e = refl
owns-busy r (Pc.write_scan i) e = refl
owns-busy r Pc.writing e = refl
owns-busy r (Pc.leaving i) e = refl
owns-busy r Pc.gone e = absurd (cc)

module _ {threads : ℕ} {s : System} (r : Reach false threads s) where
  waits :
      (t : ℕ) → busy (s.thread t).pc ≡ true → Waits threads s.mem (s.thread t).reg (s.thread t).pc
  waits t b =
      busy-Waits threads s.mem (s.thread t).reg (s.thread t).pc b ((Slots.Reach-Inv r).fits t)
        ((Owner.Reach-Inv r).ok t) (λ i. (flags_owned r).1 t i)

  -- The reader with the flag leaves.
  reader_leaves :
      (i : ℕ)
      → s.mem.flags i ≡ Flag.shared_lock
      → (u : ℕ) × (busy (s.thread u).pc ≡ true)
        × Advance threads s.mem (s.thread u).reg (s.thread u).pc
  reader_leaves i shared = elim ((flags_owned r).2 i) [
    | inl free ↦ absurd (cc)
    | inr (u, own) ↦
        let at = shows_reading (s.thread u).pc (sym ((flags_owned r).1 u i own) ∙ shared) in
        let there = subst (Fits (s.thread u).reg) at ((Slots.Reach-Inv r).fits u) in
        (
          u,
          ap busy at,
          subst (Advance threads s.mem (s.thread u).reg) (sym at)
              (reading-Advance threads s.mem (s.thread u).reg there),
        )
  ]

  -- There is no deadlock: while a thread is in a call, inside, or in the destructor of its register,
  -- one of the threads that are in this way busy can take a step that brings it on, so that no turn of
  -- a waiting loop and no new call counts. The state is one that a program reaches that does not call
  -- `try_lock_shared`.
  pub no_deadlock :
      (t : ℕ)
      → busy (s.thread t).pc ≡ true
      → (u : ℕ) × (busy (s.thread u).pc ≡ true)
        × Advance threads s.mem (s.thread u).reg (s.thread u).pc
  unfolding Waits
  no_deadlock t b = elim (waits t b) [
    | inl on ↦ (t, b, on)
    | inr (inr (i, shared)) ↦ reader_leaves i shared
    | inr (inl (set, _)) ↦
        let (h, holds) = (spill_lock_held r).0 set in
        elim (waits h (owns-busy (s.thread h).reg (s.thread h).pc holds)) [
          | inl on ↦ (h, owns-busy (s.thread h).reg (s.thread h).pc holds, on)
          | inr (inl (_, free)) ↦ absurd (cc)
          | inr (inr (i, shared)) ↦ reader_leaves i shared
        ]
  ]
