-- ===== src/Journal/Restart.antt =====
-- A crash and a restart: what `load` gives back, and that a bought mint is never bought again.
use alpha_whales.Common.Checked.{Checked-cases}
use alpha_whales.Common.{
  ℕ, none, ◌+◌, ◌≤◌, ◌<◌, ◌≡◌, refl, Bool, true, false, List, [], ◌∷◌, ◌++◌, KeyEq, arith, inl, inr,
  ◌∙◌, sym, ap, text_key, u64_mod,
}
use mathlib.Core.List.{append_assoc}
use alpha_whales.Journal.{
  Result, ok, err, Codec, Disk, JournalFile, text_lines, ExecutionJournal, reserved, contains,
  read_lines, append, append_line, acquire_writer_lock, AppendOutcome, synced, failed, load,
  max_execution_journal_bytes, duplicate_execution_attempt, ExecutionJournalRecord,
}
use alpha_whales.Journal.Reserve.{
  Purchase, check_capital, reservation, commit, write_reservation, reserve, cost, check_capital_ok,
}
use alpha_whales.Journal.Load.{reserved_is_read}
use alpha_whales.Journal.Replay.{Consistent}

module _ {K Line : Type 0} ⦃key : KeyEq K⦄ (codec : Codec K Line) where
  -- A process that loads a journal consistent with some memory gets that memory's mints and capital
  -- back, under the same limit, where the file is read as UTF-8 of at most a mebibyte.
  pub load-Consistent :
      (j : ExecutionJournal K) (disk : Disk Line)
      → Consistent codec j disk
      → disk.file.byte_length ≤ max_execution_journal_bytes
      → disk.file.is_utf8 ≡ true
      → load codec j.max_pending_capital_lamports disk true true
        ≡ ok (record j { writer_lock_acquired = false })
  unfolding load
  load-Consistent j disk c small utf8 = rw c.is_ended (ground (arith, c.replays, c.within))

  written_line :
      (j : ExecutionJournal K) (disk : Disk Line) (p : Purchase K) (capital total : ℕ)
      (r : Result (Unit {0})) (outcome : AppendOutcome Line)
      → let (j', disk', r') = write_reservation codec p (capital, total) outcome (j, disk, r) in
        r' ≡ ok tt
        → (j' ≡ record j {
          reserved_mints = p.target_mint ∷ j.reserved_mints;
          reserved_capital_lamports = total;
        })
          × (disk'.file ≡ append_line codec disk.file (reserved (reservation codec p capital)))
  unfolding write_reservation commit append
  written_line j disk p capital total (ok done) synced = λ h. (refl, refl)
  written_line j disk p capital total (ok done) (failed file) = λ h. cc
  written_line j disk p capital total (err e) outcome = λ h. cc

  lock_keeps_file :
      (j : ExecutionJournal K) (disk : Disk Line) (written : Bool)
      → let (j', disk', r) = acquire_writer_lock codec j disk written in
        (disk'.file ≡ disk.file)
        × (j'.reserved_mints ≡ j.reserved_mints)
        × (j'.reserved_capital_lamports ≡ j.reserved_capital_lamports)
        × (j'.max_pending_capital_lamports ≡ j.max_pending_capital_lamports)
  unfolding acquire_writer_lock
  lock_keeps_file j disk written = ground arith

  -- The append, from what the lock left.
  made :
      (j : ExecutionJournal K) (disk : Disk Line) (p : Purchase K) (capital total : ℕ)
      (locked : ExecutionJournal K × Disk Line × Result (Unit {0}))
      → (contains p.target_mint j.reserved_mints ≡ false)
        × (capital ≡ cost p)
        × (total ≡ j.reserved_capital_lamports + cost p)
        × (total < u64_mod)
        × (total ≤ j.max_pending_capital_lamports)
      → (locked.1.file ≡ disk.file)
        × (locked.0.reserved_mints ≡ j.reserved_mints)
        × (locked.0.reserved_capital_lamports ≡ j.reserved_capital_lamports)
        × (locked.0.max_pending_capital_lamports ≡ j.max_pending_capital_lamports)
      → (outcome : AppendOutcome Line)
      → let (j', disk', r) = write_reservation codec p (capital, total) outcome locked in
        r ≡ ok tt
        → (contains p.target_mint j.reserved_mints ≡ false)
          × (j'.reserved_mints ≡ p.target_mint ∷ j.reserved_mints)
          × (j'.reserved_capital_lamports ≡ j.reserved_capital_lamports + cost p)
          × (j'.reserved_capital_lamports ≤ j.max_pending_capital_lamports)
          × (disk'.file ≡ append_line codec disk.file (reserved (reservation codec p (cost p))))
  made j disk p capital total (j1, d1, r1) checks kept outcome h =
      let (ej, ed) = written_line j1 d1 p capital total r1 outcome h in
      let total_path = ap (λ (x : ExecutionJournal K). x.reserved_capital_lamports) ej ∙ checks.2 in
      (
        checks.0,
        ap (λ (x : ExecutionJournal K). x.reserved_mints) ej
            ∙ ap (λ (mints : List K). p.target_mint ∷ mints) kept.1,
        total_path,
        omega (arith, total_path, checks.2, checks.4),
        cc (ed, kept.0, checks.1),
      )

  own_line :
      (file file' : JournalFile Line) (r : ExecutionJournalRecord)
      → file' ≡ append_line codec file r
      → file.torn ≡ none
      → file'.lines ≡ file.lines ++ codec.encode r ∷ []
  unfolding append_line
  own_line file file' r e ended = ap (λ (f : JournalFile Line). f.lines) e ∙ rw ended refl

  -- However the disk behaves, a reservation that is made has passed the checks, has its record at the
  -- end of the file, on a line of its own if the file ended with a line break, and has its mint and its
  -- cost in memory, within the limit.
  pub reserve_made :
      (j : ExecutionJournal K) (disk : Disk Line) (p : Purchase K) (written : Bool)
      (outcome : AppendOutcome Line)
      → let (j', disk', r) = reserve codec j disk p written outcome in
        r ≡ ok tt
        → (contains p.target_mint j.reserved_mints ≡ false)
          × (j'.reserved_mints ≡ p.target_mint ∷ j.reserved_mints)
          × (j'.reserved_capital_lamports ≡ j.reserved_capital_lamports + cost p)
          × (j'.reserved_capital_lamports ≤ j.max_pending_capital_lamports)
          × (disk'.file ≡ append_line codec disk.file (reserved (reservation codec p (cost p))))
          × (disk.file.torn ≡ none
              → disk'.file.lines
                ≡ disk.file.lines ++ codec.encode (reserved (reservation codec p (cost p))) ∷ [])
  unfolding reserve
  reserve_made j disk p written outcome = elim (Checked-cases (check_capital codec j p)) [
    | inr (e, refused) ↦ rw (refused, reserve) (λ h. cc)
    | inl ((capital, total), passed) ↦
        rw (passed, reserve)
          (λ h.
            let facts =
              made j disk p capital total (acquire_writer_lock codec j disk written)
                (check_capital_ok codec j p capital total passed) (lock_keeps_file j disk written)
                outcome h in
            (
              facts.0,
              facts.1,
              facts.2,
              facts.3,
              facts.4,
              own_line disk.file _ (reserved (reservation codec p (cost p))) facts.4,
            ))
  ]

  loaded :
      (disk : Disk Line) (j : ExecutionJournal K) (max : ℕ) (ensured read : Bool)
      → load codec max disk ensured read ≡ ok j
      → (capital : ℕ) × (read_lines codec ([], 0) (text_lines disk.file)
          ≡ ok (j.reserved_mints, capital))
  loaded disk j max ensured read h =
      elim (Checked-cases (read_lines codec ([], 0) (text_lines disk.file))) [
        | inl ((mints, capital), e) ↦ (capital, (unfold load in ground (arith, e, h)))
        | inr (e, bad) ↦ absurd (unfold load in ground (arith, bad, h))
      ]

  refuses :
      (j : ExecutionJournal K) (disk : Disk Line) (p : Purchase K) (written : Bool)
      (outcome : AppendOutcome Line)
      → contains p.target_mint j.reserved_mints ≡ true
      → reserve codec j disk p written outcome ≡ (j, disk, err duplicate_execution_attempt)
  unfolding reserve check_capital
  refuses j disk p written outcome h = ground (arith, h)

  appended_later :
      (file : JournalFile Line) (r : ExecutionJournalRecord) (later : List Line)
      → file.torn ≡ none
      → (append_line codec file r).lines ++ later ≡ file.lines ++ codec.encode r ∷ later
  unfolding append_line
  appended_later file r later ended = rw ended (append_assoc file.lines (codec.encode r ∷ []) later)

  -- Once a reservation of a mint is made in a file that ended with a line break, every later process
  -- that loads the journal, to which any lines may have been added, refuses a purchase of that mint
  -- and writes nothing.
  pub rebuy_refused :
      (j : ExecutionJournal K) (disk : Disk Line) (p : Purchase K) (written : Bool)
      (outcome : AppendOutcome Line)
      → (reserve codec j disk p written outcome).2 ≡ ok tt
      → disk.file.torn ≡ none
      → (later : List Line) (disk2 : Disk Line)
      → text_lines disk2.file ≡ (reserve codec j disk p written outcome).1.file.lines ++ later
      → (max : ℕ) (ensured read : Bool) (j2 : ExecutionJournal K)
      → load codec max disk2 ensured read ≡ ok j2
      → (q : Purchase K) (disk3 : Disk Line) (written2 : Bool) (outcome2 : AppendOutcome Line)
      → q.target_mint ≡ p.target_mint
      → reserve codec j2 disk3 q written2 outcome2 ≡ (j2, disk3, err duplicate_execution_attempt)
  rebuy_refused j disk p written outcome made_it ended later disk2 grown max ensured read j2 h q
        disk3 written2 outcome2 same =
      let facts = reserve_made j disk p written outcome made_it in
      let lines =
        grown
        ∙ ap (λ (f : JournalFile Line). f.lines ++ later) facts.4
        ∙ appended_later disk.file (reserved (reservation codec p (cost p))) later ended in
      let (capital, replay) = loaded disk2 j2 max ensured read h in
      refuses j2 disk3 q written2 outcome2 (
        ap (λ (k : K). contains k j2.reserved_mints) same
        ∙ reserved_is_read codec disk.file.lines later (reservation codec p (cost p)) p.target_mint
            ([], 0) (j2.reserved_mints, capital)
            (unfold reservation in codec.from_str-to_string p.target_mint)
            (ap (λ (all : List Line). read_lines codec ([], 0) all) (sym lines) ∙ replay))
