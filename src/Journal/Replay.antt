-- ===== src/Journal/Replay.antt =====
-- The journal in memory is what a reading of the file gives, and stays so.
use alpha_whales.Common.Checked.{Checked-cases}
use alpha_whales.Common.{
  ℕ, ◌≤◌, ◌<◌, ◌≡◌, refl, none, Bool, false, [], ◌∷◌, KeyEq, ◌==◌, arith, inl, inr, ◌∙◌, text_key,
  u64_mod,
}
use alpha_whales.Journal.{
  Result, ok, err, Codec, Disk, ExecutionJournal, reserved, read_reservation, read_record,
  read_lines, append, append_line, acquire_writer_lock, synced,
}
use alpha_whales.Journal.Reserve.{
  Purchase, check_capital, reservation, commit, write_reservation, reserve, check_capital_ok,
}
use alpha_whales.Journal.Load.{read_lines-snoc}

-- What the caller has checked of a purchase before it is reserved.
pub record IsReservable {K : Type 0} (p : Purchase K) : Type 0 where
  pub has_amount : 0 < p.amount_in
  pub has_time : 0 < p.timestamp_ms
  pub has_signature : (p.transaction_signature == "") ≡ false
  pub has_blockhash : (p.recent_blockhash == "") ≡ false

module _ {K Line : Type 0} ⦃key : KeyEq K⦄ (codec : Codec K Line) where
  pub record Consistent (j : ExecutionJournal K) (disk : Disk Line) : Type 0 where
    pub replays :
        read_lines codec ([], 0) disk.file.lines
        ≡ ok (j.reserved_mints, j.reserved_capital_lamports)
    pub is_ended : disk.file.torn ≡ none
    pub fits : j.reserved_capital_lamports < u64_mod
    pub within : j.reserved_capital_lamports ≤ j.max_pending_capital_lamports

  reads_reservation :
      (j : ExecutionJournal K) (p : Purchase K) (capital total : ℕ)
      → IsReservable p
      → check_capital codec j p ≡ ok (capital, total)
      → read_record codec
          (j.reserved_mints, j.reserved_capital_lamports)
          (reserved (reservation codec p capital))
        ≡ ok (p.target_mint ∷ j.reserved_mints, total)
  unfolding read_record read_reservation reservation
  reads_reservation j p capital total v h = ground (
    arith,
    check_capital_ok codec j p capital total h,
    codec.from_str-to_string p.target_mint,
    v.has_amount,
    v.has_time,
    v.has_signature,
    v.has_blockhash,
  )

  commit-Consistent :
      (j : ExecutionJournal K) (disk : Disk Line) (p : Purchase K) (capital total : ℕ)
      → IsReservable p
      → check_capital codec j p ≡ ok (capital, total)
      → Consistent j disk
      → let (j', disk', r) =
          commit codec j p total
            (append codec disk (reserved (reservation codec p capital)) synced) in
        Consistent j' disk'
  unfolding commit append append_line
  commit-Consistent j disk p capital total v h c =
      let facts = check_capital_ok codec j p capital total h in
      record {
        replays = rw c.is_ended (
            read_lines-snoc codec disk.file.lines (reserved (reservation codec p capital)) ([], 0)
              (j.reserved_mints, j.reserved_capital_lamports) c.replays
            ∙ reads_reservation j p capital total v h);
        is_ended = refl;
        fits = facts.3;
        within = facts.4;
      }

  -- The lock changes neither the file nor the reservations.
  lock-Consistent :
      (j : ExecutionJournal K) (disk : Disk Line) (written : Bool)
      → Consistent j disk
      → let (j', disk', r) = acquire_writer_lock codec j disk written in Consistent j' disk'
  unfolding acquire_writer_lock
  lock-Consistent j disk written c = ground (arith, c.replays, c.is_ended)

  lock-check :
      (j : ExecutionJournal K) (disk : Disk Line) (p : Purchase K) (written : Bool)
      → check_capital codec (acquire_writer_lock codec j disk written).0 p ≡ check_capital codec j p
  unfolding acquire_writer_lock check_capital
  lock-check j disk p written = ground arith

  write-Consistent :
      (j : ExecutionJournal K) (disk : Disk Line) (p : Purchase K) (capital total : ℕ)
      (r : Result (Unit {0}))
      → IsReservable p
      → check_capital codec j p ≡ ok (capital, total)
      → Consistent j disk
      → let (j', disk', r') = write_reservation codec p (capital, total) synced (j, disk, r) in
        Consistent j' disk'
  unfolding write_reservation
  write-Consistent j disk p capital total (ok done) v h c =
      commit-Consistent j disk p capital total v h c
  write-Consistent j disk p capital total (err e) v h c = c

  pub reserve-Consistent :
      (j : ExecutionJournal K) (disk : Disk Line) (p : Purchase K) (written : Bool)
      → IsReservable p
      → Consistent j disk
      → let (j', disk', r) = reserve codec j disk p written synced in Consistent j' disk'
  unfolding reserve
  reserve-Consistent j disk p written v c = elim (Checked-cases (check_capital codec j p)) [
    | inr (e, refused) ↦ rw (refused, reserve) c
    | inl ((capital, total), passed) ↦
        rw (passed, reserve)
          (write-Consistent _ _ p capital total _ v (lock-check j disk p written ∙ passed)
            (lock-Consistent j disk written c))
  ]
