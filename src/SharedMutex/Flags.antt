-- ===== src/SharedMutex/Flags.antt =====
-- Which thread has which flag of a `SharedMutex`, and what the flag shows, for any program.
use allocators.Common.{
  ℕ, ◌≡◌, ◌⊎◌, ◌≢◌, refl, inl, inr, Bool, true, false, ◌&&◌, ◌==◌, if◌then◌else◌, Bool-cases, arith,
  sym, ◌∙◌, ap,
}
use allocators.SharedMutex.{Mem, Flag, Register, Call, Pc, after}

abbrev active : Pc → Bool
active Pc.gone = false
active p = true

-- Whether the thread has the flag `i`: from the exchange in `registerThread` to the destructor of its
-- `ThreadRegister`.
abbrev pub has_flag : Register → Pc → ℕ → Bool
has_flag (Register.index k) p i = active p && (k == i)
has_flag r p i = false

-- What the flag of a thread shows.
abbrev pub shows : Pc → Flag
shows Pc.reading = Flag.shared_lock
shows p = Flag.registered

-- The register that a thread has where it stands.
abbrev pub Fits : Register → Pc → Type 0
Fits r (Pc.registering c i) = r ≡ Register.spilled
Fits r (Pc.read_wait i) = r ≡ Register.index i
Fits r (Pc.read_store i) = r ≡ Register.index i
Fits r (Pc.try_load i) = r ≡ Register.index i
Fits r (Pc.try_store i) = r ≡ Register.index i
Fits r (Pc.leaving i) = r ≡ Register.index i
Fits r Pc.spill_wait = r ≡ Register.spilled
Fits r Pc.try_spill = r ≡ Register.spilled
Fits r Pc.reading = r ≢ Register.missing
Fits r p = Unit

-- How a step changes the flag `i` and whether its thread has it: the thread keeps what it has, it
-- takes the flag, or it gives it back.
abbrev pub Change : (i : ℕ) → Mem → Register → Pc → Mem → Register → Pc → Type 0
Change i m r p m' r' p' =
    ((has_flag r' p' i ≡ has_flag r p i)
      × (has_flag r' p' i ≡ true → m'.flags i ≡ shows p')
      × (has_flag r' p' i ≡ false → m'.flags i ≡ m.flags i))
    ⊎ ((m.flags i ≡ Flag.unregistered)
        × (has_flag r p i ≡ false)
        × (has_flag r' p' i ≡ true)
        × (m'.flags i ≡ shows p'))
    ⊎ ((has_flag r p i ≡ true) × (has_flag r' p' i ≡ false) × (m'.flags i ≡ Flag.unregistered))

pub Fits-after : (c : Call) (r : Register) → r ≢ Register.missing → Fits r (after c r)
Fits-after Call.lock_shared Register.missing ne = absurd (ne refl)
Fits-after Call.lock_shared Register.spilled ne = refl
Fits-after Call.lock_shared (Register.index i) ne = refl
Fits-after Call.try_lock_shared Register.missing ne = absurd (ne refl)
Fits-after Call.try_lock_shared Register.spilled ne = refl
Fits-after Call.try_lock_shared (Register.index i) ne = refl

pub after-Registered : (c : Call) (r : Register) → shows (after c r) ≡ Flag.registered
after-Registered Call.lock_shared Register.missing = refl
after-Registered Call.lock_shared Register.spilled = refl
after-Registered Call.lock_shared (Register.index i) = refl
after-Registered Call.try_lock_shared Register.missing = refl
after-Registered Call.try_lock_shared Register.spilled = refl
after-Registered Call.try_lock_shared (Register.index i) = refl

pub active_after : (c : Call) (r : Register) → active (after c r) ≡ true
active_after Call.lock_shared Register.missing = refl
active_after Call.lock_shared Register.spilled = refl
active_after Call.lock_shared (Register.index i) = refl
active_after Call.try_lock_shared Register.missing = refl
active_after Call.try_lock_shared Register.spilled = refl
active_after Call.try_lock_shared (Register.index i) = refl

-- A step that writes no flag and goes on where the flag of the thread shows the same.
pub unwritten :
    (m : Mem) (lock : Bool) (r : Register) (p p' : Pc) (i : ℕ)
    → active p ≡ true
    → active p' ≡ true
    → shows p' ≡ shows p
    → (has_flag r p i ≡ true → m.flags i ≡ shows p)
    → Change i m r p (record m { sp_lock = lock }) r p'
unwritten m lock Register.missing p p' i live live' same own =
    inl (refl, λ e. absurd (cc), λ e. refl)
unwritten m lock Register.spilled p p' i live live' same own =
    inl (refl, λ e. absurd (cc), λ e. refl)
unwritten m lock (Register.index k) p p' i live live' same own =
    inl (rw (live, live') refl, λ e. own (rw live (sym (rw live' refl) ∙ e)) ∙ sym same, λ e. refl)

-- A thread writes to the flag that it has, and has it afterwards.
pub written :
    (m : Mem) (k : ℕ) (p p' : Pc) (i : ℕ)
    → active p ≡ true
    → active p' ≡ true
    → Change i m
        (Register.index k)
        p
        (record m { flags = λ j. if j == k then shows p' else m.flags j })
        (Register.index k)
        p'
written m k p p' i live live' =
    inl (rw (live, live') refl, λ e. ground (arith, e, live'), λ e. ground (arith, e, live'))

-- A thread with no flag of its own writes none.
pub flagless :
    (m : Mem) (lock : Bool) (r : Register) (p p' : Pc) (i : ℕ)
    → r ≡ Register.spilled
    → Change i m r p (record m { sp_lock = lock }) r p'
flagless m lock Register.missing p p' i e = inl (refl, λ e. absurd (cc), λ e. refl)
flagless m lock Register.spilled p p' i e = inl (refl, λ e. absurd (cc), λ e. refl)
flagless m lock (Register.index k) p p' i e = absurd (cc)

-- The exchange of `registerThread`.
pub taken :
    (m : Mem) (k : ℕ) (r : Register) (p p' : Pc) (i : ℕ)
    → r ≡ Register.spilled
    → m.flags k ≡ Flag.unregistered
    → active p' ≡ true
    → shows p' ≡ Flag.registered
    → Change i m r p
        (record m { flags = λ j. if j == k then Flag.registered else m.flags j })
        (Register.index k)
        p'
taken m k Register.missing p p' i e free live same = absurd (cc)
taken m k (Register.index j) p p' i e free live same = absurd (cc)
taken m k Register.spilled p p' i e free live same = elim (Bool-cases (i == k)) [
  | inl here ↦
      let at : i ≡ k = ground arith in
      inr (inl (ap m.flags at ∙ free, refl, ground (arith, live), rw here (sym same)))
  | inr there ↦
      let no_flag : has_flag (Register.index k) p' i ≡ false = ground (arith, live) in
      inl (no_flag, λ e. absurd (cc (sym no_flag ∙ e)), λ e. rw there refl)
]

-- The store of `~ThreadRegister`.
pub returned :
    (m : Mem) (k : ℕ) (p : Pc) (i : ℕ)
    → active p ≡ true
    → Change i m
        (Register.index k)
        p
        (record m { flags = λ j. if j == k then Flag.unregistered else m.flags j })
        (Register.index k)
        Pc.gone
returned m k p i live = elim (Bool-cases (i == k)) [
  | inl here ↦ inr (inr (ground (arith, live), refl, rw here refl))
  | inr there ↦ inl (ground (arith, live), λ e. absurd (cc), λ e. rw there refl)
]
