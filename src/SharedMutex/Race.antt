-- ===== src/SharedMutex/Race.antt =====
-- What the order of the accesses in `lock_shared` and the result of `try_lock_shared` allow.
use allocators.Common.{
  ℕ, zero, suc, ◌+◌, ◌<◌, ◌≡◌, ◌≢◌, refl, Bool, true, false, ◌==◌, if◌then◌else◌, arith, sym, inl,
  inr, Bool-cases, subst,
}
use allocators.SharedMutex.{Flag, Mem, Register, Call, Pc, Move}
use allocators.SharedMutex.System.{Thread, System, pick, Reach, start, later, update}

self : (f : ℕ → Thread) (i : ℕ) (x : Thread) → update f i x i ≡ x
self f i x = ground arith

not_shared : (j : ℕ) → (if j == 0 then Flag.registered else Flag.unregistered) ≢ Flag.shared_lock
not_shared j = ground arith

module _ (tries : Bool) (threads : ℕ) where
  -- A step of thread `i` from where it stands.
  pub step :
      {s : System} (i : ℕ) {r r' : Register} {p p' : Pc} {m : Mem}
      → Reach tries threads s
      → s.thread i ≡ record { reg = r; pc = p }
      → Move tries threads s.mem r p m r' p'
      → Reach tries threads
          (record { mem = m; thread = update s.thread i (record { reg = r'; pc = p' }) })
  step {s} i {r' = r'} {p' = p'} {m = m} reach e mv =
      later reach
        (pick i (subst (λ (t : Thread). Move tries threads s.mem t.reg t.pc m r' p') (sym e) mv))

  record Scanned (s : System) (r : Register) : Type 0 where
    last : System
    reach : Reach tries threads last
    mem : last.mem ≡ s.mem
    reader : last.thread 0 ≡ s.thread 0
    writer : last.thread 1 ≡ record { reg = r; pc = Pc.writing }

  -- The scan of thread 1 over flags of which none says `SharedLock`.
  scan :
      (d i : ℕ) (s : System) {r : Register}
      → i + d ≡ threads
      → Reach tries threads s
      → s.thread 1 ≡ record { reg = r; pc = Pc.write_scan i }
      → ((j : ℕ) → s.mem.flags j ≢ Flag.shared_lock)
      → Scanned s r
  scan zero i s {r} e reach at clear = record {
    last = _;
    reach = step 1 reach at (Move.scan_done (omega arith));
    mem = refl;
    reader = refl;
    writer = refl;
  }
  scan (suc d) i s {r} e reach at clear =
      let next =
        scan d (suc i) _ (omega arith) (step 1 reach at (Move.scan_pass (omega arith) (clear i)))
          refl clear in
      record {
        last = next.last;
        reach = next.reach;
        mem = next.mem;
        reader = next.reader;
        writer = next.writer;
      }

  -- `lock_shared` tests the spill lock before it sets its flag, and not again: with any number of
  -- flags but 0, a reader and a writer can be inside together.
  pub reader_beside_writer :
      0 < threads
      → (s : System) × Reach tries threads s
        × (s.thread 0 ≡ record { reg = Register.index 0; pc = Pc.reading })
        × (s.thread 1 ≡ record { reg = Register.missing; pc = Pc.writing })
  reader_beside_writer some_flag =
      let r1 = step 0 start refl (Move.call_first Call.lock_shared refl) in
      let r2 = step 0 r1 refl (Move.slot_free some_flag refl) in
      let r3 = step 0 r2 refl (Move.read_pass refl) in
      let r4 = step 1 r3 refl Move.lock in
      let r5 = step 1 r4 refl (Move.lock_win refl) in
      let done = scan threads 0 _ (omega arith) r5 refl not_shared in
      (_, step 0 done.reach done.reader Move.read_enter, refl, done.writer)

-- `try_lock_shared` of a thread with no flag of its own says the opposite of what it did: while the
-- spill lock is set the thread goes on as a reader, though it changed nothing, and while it is not
-- set the thread takes it and goes on as if it had failed.
pub try_lock_shared_inverted :
    {threads : ℕ} {s : System} (i : ℕ)
    → Reach true threads s
    → s.thread i ≡ record { reg = Register.spilled; pc = Pc.idle }
    → (s' : System) × Reach true threads s'
      × (s.mem.sp_lock ≡ true
          → (s'.mem ≡ s.mem) × (s'.thread i ≡ record { reg = Register.spilled; pc = Pc.reading }))
      × (s.mem.sp_lock ≡ false
          → (s'.mem.sp_lock ≡ true)
            × (s'.thread i ≡ record { reg = Register.spilled; pc = Pc.idle }))
try_lock_shared_inverted {threads} {s} i reach at =
    let t : Thread = record { reg = Register.spilled; pc = Pc.try_spill } in
    let r1 = step true threads i reach at (Move.call_spilled Call.try_lock_shared refl) in
    elim (Bool-cases s.mem.sp_lock) [
      | inl set ↦ (
        _,
        step true threads i r1 (self s.thread i t) (Move.try_lose set),
        (λ _. (refl, self (update s.thread i t) i _)),
        (λ unset. absurd (cc)),
      )
      | inr unset ↦ (
        _,
        step true threads i r1 (self s.thread i t) (Move.try_win unset),
        (λ set. absurd (cc)),
        (λ _. (refl, self (update s.thread i t) i _)),
      )
    ]
