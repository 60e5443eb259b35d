-- ===== src/SharedMutex/Slots.antt =====
-- The flags of a `SharedMutex` belong to one thread each, for any program.
use allocators.Common.{
  ℕ, ◌≡◌, ◌⊎◌, ◌≢◌, refl, inl, inr, Bool, true, false, ◌==◌, Bool-cases, arith, sym, ◌∙◌, subst,
}
use allocators.SharedMutex.{Mem, Flag, Register, Pc}
use allocators.SharedMutex.System.{System, pick, Reach, start, later, update, init}
use allocators.SharedMutex.Flags.{has_flag, shows, Fits, Change}
use allocators.SharedMutex.Moves.{Move-Fits, Move-Change}

abbrev pub flag_of : System → (t i : ℕ) → Bool
flag_of s t i = has_flag (s.thread t).reg (s.thread t).pc i

pub record Inv (s : System) : Type 0 where
  pub fits : (t : ℕ) → Fits (s.thread t).reg (s.thread t).pc
  pub shown : (t i : ℕ) → flag_of s t i ≡ true → s.mem.flags i ≡ shows (s.thread t).pc
  pub alone : (t u i : ℕ) → flag_of s t i ≡ true → flag_of s u i ≡ true → t ≡ u
  pub used : (i : ℕ) → (s.mem.flags i ≡ Flag.unregistered) ⊎ ((t : ℕ) × (flag_of s t i ≡ true))

init-Inv : Inv init
init-Inv = record {
  fits = λ t. tt;
  shown = λ t i e. absurd (cc);
  alone = λ t u i e f. absurd (cc);
  used = λ i. inl refl;
}

shows_used : (p : Pc) → shows p ≢ Flag.unregistered
shows_used Pc.idle e = absurd (cc)
shows_used (Pc.registering c i) e = absurd (cc)
shows_used (Pc.read_wait i) e = absurd (cc)
shows_used (Pc.read_store i) e = absurd (cc)
shows_used Pc.spill_wait e = absurd (cc)
shows_used (Pc.try_load i) e = absurd (cc)
shows_used (Pc.try_store i) e = absurd (cc)
shows_used Pc.try_spill e = absurd (cc)
shows_used Pc.reading e = absurd (cc)
shows_used Pc.write_wait e = absurd (cc)
shows_used (Pc.write_scan i) e = absurd (cc)
shows_used Pc.writing e = absurd (cc)
shows_used (Pc.leaving i) e = absurd (cc)
shows_used Pc.gone e = absurd (cc)

module _ (s : System) (inv : Inv s) (k : ℕ) (m : Mem) (r : Register) (p : Pc) (fits : Fits r p)
    (change : (i : ℕ) → Change i s.mem (s.thread k).reg (s.thread k).pc m r p) where
  abbrev next : System
  next = record { mem = m; thread = update s.thread k (record { reg = r; pc = p }) }

  self : (t i : ℕ) → (t == k) ≡ true → flag_of next t i ≡ has_flag r p i
  self t i e = rw e refl

  other : (t i : ℕ) → (t == k) ≡ false → flag_of next t i ≡ flag_of s t i
  other t i e = rw e refl

  next-Fits : (t : ℕ) → Fits (next.thread t).reg (next.thread t).pc
  next-Fits t = elim (Bool-cases (t == k)) [ inl e ↦ rw e fits | inr e ↦ rw e (inv.fits t) ]

  -- A flag that another thread has is not written.
  untouched :
      (t i : ℕ)
      → (t == k) ≡ false
      → flag_of s t i ≡ true
      → (m.flags i ≡ s.mem.flags i) × (has_flag r p i ≡ false)
  untouched t i e own = elim (change i) [
    | inl (same, mine, theirs) ↦ elim (Bool-cases (has_flag r p i)) [
      | inl has ↦ absurd (ground (arith, inv.alone t k i own (sym same ∙ has)))
      | inr out ↦ (theirs out, out)
    ]
    | inr (inl (free, _, _, _)) ↦
        absurd (shows_used (s.thread t).pc (sym (inv.shown t i own) ∙ free))
    | inr (inr (has, _, _)) ↦ absurd (ground (arith, inv.alone t k i own has))
  ]

  next_shown : (t i : ℕ) → flag_of next t i ≡ true → m.flags i ≡ shows (next.thread t).pc
  next_shown t i own = elim (Bool-cases (t == k)) [
    | inl e ↦
        let own' : has_flag r p i ≡ true = sym (self t i e) ∙ own in
        elim (change i) [
          | inl (same, mine, theirs) ↦ rw e (mine own')
          | inr (inl (_, _, _, shown)) ↦ rw e shown
          | inr (inr (_, out, _)) ↦ absurd (cc)
        ]
    | inr e ↦
        let own' : flag_of s t i ≡ true = sym (other t i e) ∙ own in
        rw e ((untouched t i e own').0 ∙ inv.shown t i own')
  ]

  next_alone : (t u i : ℕ) → flag_of next t i ≡ true → flag_of next u i ≡ true → t ≡ u
  next_alone t u i own own' = elim (Bool-cases (t == k)) [
    | inl e ↦ elim (Bool-cases (u == k)) [
      | inl e' ↦ ground arith
      | inr e' ↦
          absurd
            (cc (sym (untouched u i e' (sym (other u i e') ∙ own')).1 ∙ sym (self t i e) ∙ own))
    ]
    | inr e ↦ elim (Bool-cases (u == k)) [
      | inl e' ↦
          absurd (cc (sym (untouched t i e (sym (other t i e) ∙ own)).1 ∙ sym (self u i e') ∙ own'))
      | inr e' ↦ inv.alone t u i (sym (other t i e) ∙ own) (sym (other u i e') ∙ own')
    ]
  ]

  at_k : (i : ℕ) → flag_of next k i ≡ has_flag r p i
  at_k i = self k i (ground arith)

  next_used : (i : ℕ) → (m.flags i ≡ Flag.unregistered) ⊎ ((t : ℕ) × (flag_of next t i ≡ true))
  next_used i = elim (change i) [
    | inr (inl (_, _, has, _)) ↦ inr (k, at_k i ∙ has)
    | inr (inr (_, _, free)) ↦ inl free
    | inl (same, mine, theirs) ↦ elim (Bool-cases (has_flag r p i)) [
      | inl has ↦ inr (k, at_k i ∙ has)
      | inr out ↦ elim (inv.used i) [
        | inl free ↦ inl (theirs out ∙ free)
        | inr (t, own) ↦ elim (Bool-cases (t == k)) [
          | inl e ↦
              let at : t ≡ k = ground arith in
              absurd (cc (sym out ∙ same ∙ subst (λ (u : ℕ). flag_of s u i ≡ true) at own))
          | inr e ↦ inr (t, other t i e ∙ own)
        ]
      ]
    ]
  ]

  next-Inv : Inv next
  next-Inv = record { fits = next-Fits; shown = next_shown; alone = next_alone; used = next_used }

pub Reach-Inv : {tries : Bool} {threads : ℕ} {s : System} → Reach tries threads s → Inv s
Reach-Inv start = init-Inv
Reach-Inv (later {s} r (pick k {m} {r = reg} {p} mv)) =
    let inv = Reach-Inv r in
    next-Inv s inv k m reg p (Move-Fits mv (inv.fits k))
      (λ i. Move-Change mv (inv.fits k) i (inv.shown k i))

-- Whatever the program calls, and however its threads interleave: no two threads have the same flag;
-- the flag of a thread shows that it reads exactly while it is inside as a reader; and a flag that is
-- not free belongs to a thread, so that none is lost when threads come and go.
pub flags_owned :
    {tries : Bool} {threads : ℕ} {s : System}
    → Reach tries threads s
    → ((t u i : ℕ) → flag_of s t i ≡ true → flag_of s u i ≡ true → t ≡ u)
      × ((t i : ℕ) → flag_of s t i ≡ true → s.mem.flags i ≡ shows (s.thread t).pc)
      × ((i : ℕ) → (s.mem.flags i ≡ Flag.unregistered) ⊎ ((t : ℕ) × (flag_of s t i ≡ true)))
flags_owned r = let inv = Reach-Inv r in (inv.alone, inv.shown, inv.used)
