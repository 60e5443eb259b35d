-- ===== src/SharedMutex/Moves.antt =====
-- What each step of a thread does to its flag.
use allocators.Common.{ℕ, ◌≡◌, refl, inl, true, false, Bool, sym, subst}
use allocators.SharedMutex.{Mem, Flag, Register, Pc, Move, after, set_flag}
use allocators.SharedMutex.Flags.{
  has_flag, shows, Fits, Change, Fits-after, after-Registered, active_after, unwritten, written,
  flagless, taken, returned,
}

module _ {tries : Bool} {threads : ℕ} where
  pub Move-Fits :
      {m m' : Mem} {r r' : Register} {p p' : Pc}
      → Move tries threads m r p m' r' p'
      → Fits r p
      → Fits r' p'
  Move-Fits (Move.call_first c e) fits = refl
  Move-Fits (Move.call_spilled c e) fits = Fits-after c Register.spilled (λ e. absurd (cc))
  Move-Fits (Move.call_again c {i} e) fits = Fits-after c (Register.index i) (λ e. absurd (cc))
  Move-Fits (Move.slot_taken lt ne) fits = fits
  Move-Fits (Move.slot_free {c} {i} lt e) fits = Fits-after c (Register.index i) (λ e. absurd (cc))
  Move-Fits (Move.slots_full {c} le) fits =
      subst (λ r. Fits r (after c Register.spilled)) (sym fits)
        (Fits-after c Register.spilled (λ e. absurd (cc)))
  Move-Fits (Move.read_spin e) fits = fits
  Move-Fits (Move.read_pass e) fits = fits
  Move-Fits (Move.read_enter {i}) fits = λ e. absurd (cc)
  Move-Fits Move.spill_spin fits = fits
  Move-Fits (Move.spill_enter e) fits = λ e. absurd (cc)
  Move-Fits Move.unlock_shared fits = tt
  Move-Fits Move.unlock_spilled fits = tt
  Move-Fits Move.lock fits = tt
  Move-Fits Move.lock_spin fits = tt
  Move-Fits (Move.lock_win e) fits = tt
  Move-Fits (Move.scan_spin lt e) fits = tt
  Move-Fits (Move.scan_pass lt e) fits = tt
  Move-Fits (Move.scan_done le) fits = tt
  Move-Fits Move.unlock fits = tt
  Move-Fits (Move.try_busy e) fits = tt
  Move-Fits (Move.try_pass e) fits = fits
  Move-Fits Move.try_enter fits = λ e. absurd (cc)
  Move-Fits (Move.try_win e) fits = tt
  Move-Fits (Move.try_lose e) fits = λ e. absurd (cc)
  Move-Fits Move.leave fits = refl
  Move-Fits Move.leave_spilled fits = tt
  Move-Fits Move.leave_spin fits = fits
  Move-Fits (Move.leave_done e) fits = tt

  pub Move-Change :
      {m m' : Mem} {r r' : Register} {p p' : Pc}
      → Move tries threads m r p m' r' p'
      → Fits r p
      → (i : ℕ) → (has_flag r p i ≡ true → m.flags i ≡ shows p)
      → Change i m r p m' r' p'
  Move-Change (Move.call_first c e) fits i own = inl (refl, λ e. absurd (cc), λ e. refl)
  Move-Change {m} (Move.call_spilled c e) fits i own = inl (refl, λ e. absurd (cc), λ e. refl)
  Move-Change {m} (Move.call_again c {i = k} e) fits i own =
      unwritten m m.sp_lock (Register.index k) Pc.idle (after c (Register.index k)) i refl
        (active_after c (Register.index k)) (after-Registered c (Register.index k)) own
  Move-Change {m} {r} (Move.slot_taken {c} {i = k} lt ne) fits i own =
      unwritten m m.sp_lock r (Pc.registering c k) (Pc.registering c (ℕ.suc k)) i refl refl refl own
  Move-Change {m} {r} (Move.slot_free {c} {i = k} lt e) fits i own =
      taken m k r (Pc.registering c k) (after c (Register.index k)) i fits e
        (active_after c (Register.index k)) (after-Registered c (Register.index k))
  Move-Change {m} {r} (Move.slots_full {c} {i = k} le) fits i own =
      flagless m m.sp_lock r (Pc.registering c k) (after c Register.spilled) i fits
  Move-Change {m} {r} (Move.read_spin {i = k} e) fits i own =
      unwritten m m.sp_lock r (Pc.read_wait k) (Pc.read_wait k) i refl refl refl own
  Move-Change {m} {r} (Move.read_pass {i = k} e) fits i own =
      unwritten m m.sp_lock r (Pc.read_wait k) (Pc.read_store k) i refl refl refl own
  Move-Change {m} {r} (Move.read_enter {i = k}) fits i own =
      subst (λ t. Change i m t (Pc.read_store k) (set_flag k Flag.shared_lock m) t Pc.reading)
        (sym fits) (written m k (Pc.read_store k) Pc.reading i refl refl)
  Move-Change {m} {r} Move.spill_spin fits i own =
      unwritten m m.sp_lock r Pc.spill_wait Pc.spill_wait i refl refl refl own
  Move-Change {m} {r} (Move.spill_enter e) fits i own =
      flagless m true r Pc.spill_wait Pc.reading i fits
  Move-Change {m} (Move.unlock_shared {i = k}) fits i own =
      written m k Pc.reading Pc.idle i refl refl
  Move-Change {m} Move.unlock_spilled fits i own =
      flagless m false Register.spilled Pc.reading Pc.idle i refl
  Move-Change {m} {r} Move.lock fits i own =
      unwritten m m.sp_lock r Pc.idle Pc.write_wait i refl refl refl own
  Move-Change {m} {r} Move.lock_spin fits i own =
      unwritten m m.sp_lock r Pc.write_wait Pc.write_wait i refl refl refl own
  Move-Change {m} {r} (Move.lock_win e) fits i own =
      unwritten m true r Pc.write_wait (Pc.write_scan 0) i refl refl refl own
  Move-Change {m} {r} (Move.scan_spin {i = k} lt e) fits i own =
      unwritten m m.sp_lock r (Pc.write_scan k) (Pc.write_scan k) i refl refl refl own
  Move-Change {m} {r} (Move.scan_pass {i = k} lt e) fits i own =
      unwritten m m.sp_lock r (Pc.write_scan k) (Pc.write_scan (ℕ.suc k)) i refl refl refl own
  Move-Change {m} {r} (Move.scan_done {i = k} le) fits i own =
      unwritten m m.sp_lock r (Pc.write_scan k) Pc.writing i refl refl refl own
  Move-Change {m} {r} Move.unlock fits i own =
      unwritten m false r Pc.writing Pc.idle i refl refl refl own
  Move-Change {m} {r} (Move.try_busy {i = k} e) fits i own =
      unwritten m m.sp_lock r (Pc.try_load k) Pc.idle i refl refl refl own
  Move-Change {m} {r} (Move.try_pass {i = k} e) fits i own =
      unwritten m m.sp_lock r (Pc.try_load k) (Pc.try_store k) i refl refl refl own
  Move-Change {m} {r} (Move.try_enter {i = k}) fits i own =
      subst (λ t. Change i m t (Pc.try_store k) (set_flag k Flag.shared_lock m) t Pc.reading)
        (sym fits) (written m k (Pc.try_store k) Pc.reading i refl refl)
  Move-Change {m} {r} (Move.try_win e) fits i own = flagless m true r Pc.try_spill Pc.idle i fits
  Move-Change {m} {r} (Move.try_lose e) fits i own =
      flagless m m.sp_lock r Pc.try_spill Pc.reading i fits
  Move-Change {m} (Move.leave {i = k}) fits i own =
      unwritten m m.sp_lock (Register.index k) Pc.idle (Pc.leaving k) i refl refl refl own
  Move-Change {m} Move.leave_spilled fits i own =
      flagless m m.sp_lock Register.spilled Pc.idle Pc.gone i refl
  Move-Change {m} {r} (Move.leave_spin {i = k}) fits i own =
      unwritten m m.sp_lock r (Pc.leaving k) (Pc.leaving k) i refl refl refl own
  Move-Change {m} {r} (Move.leave_done {i = k} e) fits i own =
      subst (λ t. Change i m t (Pc.leaving k) (set_flag k Flag.unregistered m) t Pc.gone) (sym fits)
        (returned m k (Pc.leaving k) i refl)
