-- ===== src/Journal/History.antt =====
-- alpha-whales/src/execution.rs: the calls of one process on its journal, and the process after it.
use alpha_whales.Common.{
  ℕ, ◌≤◌, ◌≡◌, refl, none, true, false, Bool, List, [], ◌∷◌, KeyEq, All, ◌==◌, text_key, number_key,
  arith, ◌∙◌, ap, sym, inl, inr,
}
use alpha_whales.Common.Checked.{Checked-cases}
use alpha_whales.Journal.{
  Result, ok, err, Codec, Disk, ExecutionJournal, accepted, read_record, read_acceptance,
  read_lines, append, append_line, acquire_writer_lock, synced, load, max_execution_journal_bytes,
}
use alpha_whales.Journal.Reserve.{
  Purchase, BundleSubmission, acceptance, reserve, record_acceptance, check_capital,
  write_reservation, commit,
}
use alpha_whales.Journal.Load.{read_lines-snoc}
use alpha_whales.Journal.Replay.{IsReservable, Consistent, reserve-Consistent}
use alpha_whales.Journal.Restart.{load-Consistent}

-- A call with a disk that works; `written` is of the lock file.
pub data JournalCall (K : Type 0) : Type 0 where
  reserving : Purchase K → Bool → JournalCall K
  accepting : K → BundleSubmission → JournalCall K

-- A journal that has nothing in it, and its file.
abbrev pub new_journal : {K : Type 0} → ℕ → ExecutionJournal K
new_journal max_pending = record {
  writer_lock_acquired = false;
  reserved_mints = [];
  reserved_capital_lamports = 0;
  max_pending_capital_lamports = max_pending;
}

abbrev pub new_disk : {Line : Type 0} → Disk Line
new_disk = record {
  file = record { lines = []; torn = none; byte_length = 0; is_utf8 = true };
  lock_exists = false;
}

module _ {K Line : Type 0} ⦃key : KeyEq K⦄ (codec : Codec K Line) where
  unfoldable pub journal_step :
      ExecutionJournal K → Disk Line → JournalCall K → ExecutionJournal K × Disk Line
  unfolding reserve record_acceptance
  journal_step j disk (reserving p written) =
      let made = reserve codec j disk p written synced in (made.0, made.1)
  journal_step j disk (accepting mint s) = (j, (record_acceptance codec disk mint s synced).0)

  unfoldable pub journal_run :
      ExecutionJournal K → Disk Line → List (JournalCall K) → ExecutionJournal K × Disk Line
  journal_run j disk [] = (j, disk)
  journal_run j disk (call ∷ calls) =
      let next = journal_step j disk call in journal_run next.0 next.1 calls

  -- What the caller has checked: a purchase, and that the texts of a submission are there.
  abbrev pub IsSound : JournalCall K → Type 0
  IsSound (reserving p written) = IsReservable p
  IsSound (accepting mint s) =
      ((s.bundle_id == "") ≡ false) × ((s.transaction_signature == "") ≡ false)

  -- The journal is consistent with a file of UTF-8, under the limit.
  pub record IsKept (max_pending : ℕ) (j : ExecutionJournal K) (disk : Disk Line) : Type 0 where
    pub consistent : Consistent codec j disk
    pub is_utf8 : disk.file.is_utf8 ≡ true
    pub limit : j.max_pending_capital_lamports ≡ max_pending

  accept-Consistent :
      (j : ExecutionJournal K) (disk : Disk Line) (mint : K) (s : BundleSubmission)
      → IsSound (accepting mint s)
      → Consistent codec j disk
      → Consistent codec j (record_acceptance codec disk mint s synced).0
  unfolding record_acceptance append append_line
  accept-Consistent j disk mint s sound c = record {
    replays = rw c.is_ended (
        read_lines-snoc codec disk.file.lines (accepted (acceptance codec mint s)) ([], 0)
          (j.reserved_mints, j.reserved_capital_lamports) c.replays
        ∙ (unfold read_record read_acceptance acceptance in
            ground (arith, codec.from_str-to_string mint, sound.0, sound.1)));
    is_ended = refl;
    fits = c.fits;
    within = c.within;
  }

  lock_keeps :
      (j : ExecutionJournal K) (disk : Disk Line) (written : Bool)
      → let locked = acquire_writer_lock codec j disk written in
        (locked.1.file.is_utf8 ≡ disk.file.is_utf8)
        × (locked.0.max_pending_capital_lamports ≡ j.max_pending_capital_lamports)
  unfolding acquire_writer_lock
  lock_keeps j disk written = ground arith

  write_keeps :
      (p : Purchase K) (amounts : ℕ × ℕ)
      (locked : ExecutionJournal K × Disk Line × Result (Unit {0}))
      → let made = write_reservation codec p amounts synced locked in
        (made.1.file.is_utf8 ≡ locked.1.file.is_utf8)
        × (made.0.max_pending_capital_lamports ≡ locked.0.max_pending_capital_lamports)
  unfolding write_reservation commit append append_line
  write_keeps p amounts (j, disk, ok done) = (refl, refl)
  write_keeps p amounts (j, disk, err e) = (refl, refl)

  reserve_keeps :
      (j : ExecutionJournal K) (disk : Disk Line) (p : Purchase K) (written : Bool)
      → let made = reserve codec j disk p written synced in
        (made.1.file.is_utf8 ≡ disk.file.is_utf8)
        × (made.0.max_pending_capital_lamports ≡ j.max_pending_capital_lamports)
  unfolding reserve
  reserve_keeps j disk p written = elim (Checked-cases (check_capital codec j p)) [
    | inr (e, refused) ↦ rw (refused, reserve) (refl, refl)
    | inl (amounts, passed) ↦
        let (u, m) = write_keeps p amounts (acquire_writer_lock codec j disk written) in
        let (u', m') = lock_keeps j disk written in rw (passed, reserve) (u ∙ u', m ∙ m')
  ]

  step-IsKept :
      (max_pending : ℕ) (j : ExecutionJournal K) (disk : Disk Line) (call : JournalCall K)
      → IsSound call
      → IsKept max_pending j disk
      → IsKept max_pending (journal_step j disk call).0 (journal_step j disk call).1
  unfolding journal_step
  step-IsKept max_pending j disk (reserving p written) sound h =
      let (u, m) = reserve_keeps j disk p written in
      record {
        consistent = reserve-Consistent codec j disk p written sound h.consistent;
        is_utf8 = u ∙ h.is_utf8;
        limit = m ∙ h.limit;
      }
  step-IsKept max_pending j disk (accepting mint s) sound h = record {
    consistent = accept-Consistent j disk mint s sound h.consistent;
    is_utf8 = unfold record_acceptance append append_line in h.is_utf8;
    limit = h.limit;
  }

  run-IsKept :
      (max_pending : ℕ) (j : ExecutionJournal K) (disk : Disk Line) (calls : List (JournalCall K))
      → All IsSound calls
      → IsKept max_pending j disk
      → IsKept max_pending (journal_run j disk calls).0 (journal_run j disk calls).1
  unfolding journal_run
  run-IsKept max_pending j disk [] sound h = h
  run-IsKept max_pending j disk (call ∷ calls) sound h =
      run-IsKept max_pending (journal_step j disk call).0 (journal_step j disk call).1 calls sound.1
        (step-IsKept max_pending j disk call sound.0 h)

  new-IsKept : (max_pending : ℕ) → IsKept max_pending (new_journal max_pending) new_disk
  new-IsKept max_pending = record {
    consistent = record {
      replays = (unfold read_lines in refl);
      is_ended = refl;
      fits = omega arith;
      within = omega arith;
    };
    is_utf8 = refl;
    limit = refl;
  }

  -- However many purchases a process reserves, made or refused, and bundles it records as accepted,
  -- from a new journal on and with a disk that works: the process after it loads its mints and its
  -- capital back, where the file is at most a mebibyte. The purchases and the submissions have their
  -- texts, and an amount and a time above zero.
  pub load-journal_run :
      (max_pending : ℕ) (calls : List (JournalCall K))
      → All IsSound calls
      → let (j, disk) = journal_run (new_journal max_pending) new_disk calls in
        disk.file.byte_length ≤ max_execution_journal_bytes
        → load codec max_pending disk true true ≡ ok (record j { writer_lock_acquired = false })
  load-journal_run max_pending calls sound small =
      let kept =
        run-IsKept max_pending (new_journal max_pending) new_disk calls sound
          (new-IsKept max_pending) in
      ap
        (λ (m : ℕ). load codec m (journal_run (new_journal max_pending) new_disk calls).1 true true)
        (sym kept.limit)
      ∙ load-Consistent codec (journal_run (new_journal max_pending) new_disk calls).0
          (journal_run (new_journal max_pending) new_disk calls).1 kept.consistent small
          kept.is_utf8
