-- ===== src/SharedMutex/Owner.antt =====
-- Who holds the spill lock of a `SharedMutex`, in a program that does not call `try_lock_shared`.
use allocators.Common.{
  ℕ, ◌≡◌, ◌⊎◌, refl, inl, inr, Bool, true, false, ◌==◌, Bool-cases, arith, ◌≢◌, sym, ◌∙◌, subst,
}
use allocators.SharedMutex.{Mem, Register, Call, Pc, Move}
use allocators.SharedMutex.System.{System, pick, Reach, start, later, update, init}

-- From the exchange that takes the spill lock to the store that gives it back: a writer, or a reader
-- with no flag of its own.
abbrev pub owns : Register → Pc → Bool
owns r (Pc.write_scan i) = true
owns r Pc.writing = true
owns Register.spilled Pc.reading = true
owns Register.missing Pc.reading = true
owns r p = false

-- The register that a thread has where it stands, when it does not call `try_lock_shared`.
abbrev pub Ok : Register → Pc → Type 0
Ok r (Pc.registering c i) = (r ≡ Register.spilled) × (c ≡ Call.lock_shared)
Ok r (Pc.read_wait i) = r ≡ Register.index i
Ok r (Pc.read_store i) = r ≡ Register.index i
Ok r Pc.spill_wait = r ≡ Register.spilled
Ok r (Pc.try_load i) = ⊥
Ok r (Pc.try_store i) = ⊥
Ok r Pc.try_spill = ⊥
Ok r p = Unit

-- How a step changes the lock and whether its thread holds it: not at all, it takes the lock, or it
-- gives it back.
abbrev Change : (lock own lock' own' : Bool) → Type 0
Change lock own lock' own' =
    ((lock' ≡ lock) × (own' ≡ own))
    ⊎ ((lock ≡ false) × (lock' ≡ true) × (own' ≡ true))
    ⊎ ((own ≡ true) × (lock' ≡ false) × (own' ≡ false))

abbrev Effect : Mem → Register → Pc → Mem → Register → Pc → Type 0
Effect m r p m' r' p' = Ok r' p' × Change m.sp_lock (owns r p) m'.sp_lock (owns r' p')

Move-Effect :
    {threads : ℕ} {m m' : Mem} {r r' : Register} {p p' : Pc}
    → Move false threads m r p m' r' p'
    → Ok r p
    → Effect m r p m' r' p'
Move-Effect (Move.call_first Call.lock_shared e) ok = ((refl, refl), inl (refl, refl))
Move-Effect (Move.call_first Call.try_lock_shared e) ok = absurd (cc)
Move-Effect (Move.call_spilled Call.lock_shared e) ok = (refl, inl (refl, refl))
Move-Effect (Move.call_spilled Call.try_lock_shared e) ok = absurd (cc)
Move-Effect (Move.call_again Call.lock_shared e) ok = (refl, inl (refl, refl))
Move-Effect (Move.call_again Call.try_lock_shared e) ok = absurd (cc)
Move-Effect (Move.slot_taken lt ne) ok = (ok, inl (refl, refl))
Move-Effect (Move.slot_free {c = Call.lock_shared} lt e) ok = (refl, inl (refl, refl))
Move-Effect (Move.slot_free {c = Call.try_lock_shared} lt e) ok = absurd (cc ok.1)
Move-Effect (Move.slots_full {c = Call.lock_shared} le) ok = (ok.0, inl (refl, refl))
Move-Effect (Move.slots_full {c = Call.try_lock_shared} le) ok = absurd (cc ok.1)
Move-Effect (Move.read_spin e) ok = (ok, inl (refl, refl))
Move-Effect (Move.read_pass e) ok = (ok, inl (refl, refl))
Move-Effect (Move.read_enter {i}) ok = (tt, inl (refl, rw ok refl))
Move-Effect Move.spill_spin ok = (ok, inl (refl, refl))
Move-Effect (Move.spill_enter e) ok = (tt, inr (inl (e, refl, rw ok refl)))
Move-Effect Move.unlock_shared ok = (tt, inl (refl, refl))
Move-Effect Move.unlock_spilled ok = (tt, inr (inr (refl, refl, refl)))
Move-Effect Move.lock ok = (tt, inl (refl, refl))
Move-Effect Move.lock_spin ok = (tt, inl (refl, refl))
Move-Effect (Move.lock_win e) ok = (tt, inr (inl (e, refl, refl)))
Move-Effect (Move.scan_spin lt e) ok = (tt, inl (refl, refl))
Move-Effect (Move.scan_pass lt e) ok = (tt, inl (refl, refl))
Move-Effect (Move.scan_done le) ok = (tt, inl (refl, refl))
Move-Effect Move.unlock ok = (tt, inr (inr (refl, refl, refl)))
Move-Effect (Move.try_busy e) ok = absurd ok
Move-Effect (Move.try_pass e) ok = absurd ok
Move-Effect Move.try_enter ok = absurd ok
Move-Effect (Move.try_win e) ok = absurd ok
Move-Effect (Move.try_lose e) ok = absurd ok
Move-Effect Move.leave ok = (tt, inl (refl, refl))
Move-Effect Move.leave_spilled ok = (tt, inl (refl, refl))
Move-Effect Move.leave_spin ok = (tt, inl (refl, refl))
Move-Effect (Move.leave_done e) ok = (tt, inl (refl, refl))

abbrev pub holder : System → ℕ → Bool
holder s i = owns (s.thread i).reg (s.thread i).pc

-- The lock is set exactly while a thread holds it, and one thread holds it at most.
pub record Inv (s : System) : Type 0 where
  pub ok : (i : ℕ) → Ok (s.thread i).reg (s.thread i).pc
  pub locked : (i : ℕ) → owns (s.thread i).reg (s.thread i).pc ≡ true → s.mem.sp_lock ≡ true
  pub unique :
      (i j : ℕ)
      → owns (s.thread i).reg (s.thread i).pc ≡ true
      → owns (s.thread j).reg (s.thread j).pc ≡ true
      → i ≡ j
  pub held : s.mem.sp_lock ≡ true → (i : ℕ) × (owns (s.thread i).reg (s.thread i).pc ≡ true)

init-Inv : Inv init
init-Inv = record {
  ok = λ i. tt;
  locked = λ i e. absurd (cc);
  unique = λ i j e f. absurd (cc);
  held = λ e. absurd (cc);
}

module _ (s : System) (inv : Inv s) (k : ℕ) (m : Mem) (r : Register) (p : Pc)
    (effect : Effect s.mem (s.thread k).reg (s.thread k).pc m r p) where
  abbrev next : System
  next = record { mem = m; thread = update s.thread k (record { reg = r; pc = p }) }

  self : (i : ℕ) → (i == k) ≡ true → holder next i ≡ owns r p
  self i e = rw e refl

  other : (i : ℕ) → (i == k) ≡ false → holder next i ≡ holder s i
  other i e = rw e refl

  next-Ok : (i : ℕ) → Ok (next.thread i).reg (next.thread i).pc
  next-Ok i = elim (Bool-cases (i == k)) [ inl e ↦ rw e (effect.0) | inr e ↦ rw e (inv.ok i) ]

  next_locked : (i : ℕ) → holder next i ≡ true → m.sp_lock ≡ true
  next_locked i h = elim (Bool-cases (i == k)) [
    | inl e ↦ elim (effect.1) [
      | inl (l, o) ↦ l ∙ inv.locked k (sym o ∙ sym (self i e) ∙ h)
      | inr (inl (_, l, _)) ↦ l
      | inr (inr (_, _, o)) ↦ absurd (cc (o, self i e))
    ]
    | inr e ↦
        let held : holder s i ≡ true = sym (other i e) ∙ h in
        elim (effect.1) [
          | inl (l, o) ↦ l ∙ inv.locked i held
          | inr (inl (_, l, _)) ↦ l
          | inr (inr (o, _, _)) ↦ absurd (ground (arith, inv.unique i k held o))
        ]
  ]

  -- No thread but `k` holds the lock after a step of `k`, if `k` holds it then.
  alone : (i : ℕ) → owns r p ≡ true → (i == k) ≡ false → holder s i ≢ true
  alone i own e held = elim (effect.1) [
    | inl (_, o) ↦ absurd (ground (arith, inv.unique i k held (sym o ∙ own)))
    | inr (inl (l, _, _)) ↦ absurd (cc (inv.locked i held))
    | inr (inr (_, _, o)) ↦ absurd (cc)
  ]

  next_unique : (i j : ℕ) → holder next i ≡ true → holder next j ≡ true → i ≡ j
  next_unique i j h h' = elim (Bool-cases (i == k)) [
    | inl e ↦ elim (Bool-cases (j == k)) [
      | inl e' ↦ ground arith
      | inr e' ↦ absurd (alone j (sym (self i e) ∙ h) e' (sym (other j e') ∙ h'))
    ]
    | inr e ↦ elim (Bool-cases (j == k)) [
      | inl e' ↦ absurd (alone i (sym (self j e') ∙ h') e (sym (other i e) ∙ h))
      | inr e' ↦ inv.unique i j (sym (other i e) ∙ h) (sym (other j e') ∙ h')
    ]
  ]

  at_k : holder next k ≡ owns r p
  at_k = self k (ground arith)

  next_held : m.sp_lock ≡ true → (i : ℕ) × (holder next i ≡ true)
  next_held set = elim (effect.1) [
    | inl (l, o) ↦
        let (i, h) = inv.held (sym l ∙ set) in
        elim (Bool-cases (i == k)) [
          | inl e ↦
              let same : i ≡ k = ground arith in
              (k, at_k ∙ o ∙ subst (λ (j : ℕ). holder s j ≡ true) same h)
          | inr e ↦ (i, other i e ∙ h)
        ]
    | inr (inl (_, _, o)) ↦ (k, at_k ∙ o)
    | inr (inr (_, l, _)) ↦ absurd (cc)
  ]

  next-Inv : Inv next
  next-Inv = record { ok = next-Ok; locked = next_locked; unique = next_unique; held = next_held }

pub Reach-Inv : {threads : ℕ} {s : System} → Reach false threads s → Inv s
Reach-Inv start = init-Inv
Reach-Inv (later {s} r (pick i {m} {r = reg} {p} mv)) =
    let inv = Reach-Inv r in next-Inv s inv i m reg p (Move-Effect mv (inv.ok i))

-- The spill lock is held by one thread at most, for a program that does not call `try_lock_shared`:
-- no two writers are inside together, and no writer with a reader that has no flag of its own.
pub spill_lock_unique :
    {threads : ℕ} {s : System}
    → Reach false threads s
    → (i j : ℕ) → holder s i ≡ true
    → holder s j ≡ true
    → i ≡ j
spill_lock_unique r = (Reach-Inv r).unique

-- The spill lock is never left set: while it is set a thread holds it, and while a thread holds it
-- it is set, for a program that does not call `try_lock_shared`.
pub spill_lock_held :
    {threads : ℕ} {s : System}
    → Reach false threads s
    → (s.mem.sp_lock ≡ true → (i : ℕ) × (holder s i ≡ true))
      × ((i : ℕ) → holder s i ≡ true → s.mem.sp_lock ≡ true)
spill_lock_held r = let inv = Reach-Inv r in (inv.held, inv.locked)
