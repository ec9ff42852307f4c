-- ===== src/Journal/Reserve.antt =====
-- alpha-whales/src/execution.rs: `reserve` and `record_acceptance`, the calls that write the journal.
use alpha_whales.Common.{
  ℕ, ◌+◌, ◌≤◌, ◌<◌, ◌≡◌, Bool, false, ◌∷◌, String, KeyEq, ltb, checked_add_u64, u64_mod, arith,
}
use alpha_whales.Journal.{
  duplicate_execution_attempt, capital_arithmetic_overflow, pending_capital_limit, Result, ok, err,
  ◌>>=◌, ◌>>◌, fail_if, ok_or, Codec, Disk, ExecutionJournal, Reservation, Acceptance, reserved,
  accepted, execution_journal_version, capital_at_risk_lamports, AppendOutcome, contains, append,
  acquire_writer_lock,
}

-- What `reserve` takes from the signal, the configuration and the signed bundle. `amount_in` is
-- `(signal.trade_size_sol * 1_000_000_000.0) as u64`.
pub record Purchase (K : Type 0) : Type 0 where
  pub target_mint : K
  pub amount_in : ℕ
  pub tip_lamports : ℕ
  pub transaction_fee_lamports : ℕ
  pub destination_ata_rent_lamports : ℕ
  pub timestamp_ms : ℕ
  pub transaction_signature : String
  pub recent_blockhash : String

pub record BundleSubmission : Type 0 where
  pub bundle_id : String
  pub transaction_signature : String

-- The sum of a purchase, where it fits.
abbrev pub cost : {K : Type 0} → Purchase K → ℕ
cost p = p.amount_in + p.tip_lamports + p.transaction_fee_lamports + p.destination_ata_rent_lamports

module _ {K Line : Type 0} ⦃key : KeyEq K⦄ (codec : Codec K Line) where
  -- The checks before anything is written: the capital of the purchase, and the new total.
  unfoldable pub check_capital : ExecutionJournal K → Purchase K → Result (ℕ × ℕ)
  unfolding contains capital_at_risk_lamports
  check_capital j p = do
    fail_if (contains p.target_mint j.reserved_mints) duplicate_execution_attempt
    capital ←
        capital_at_risk_lamports p.amount_in p.tip_lamports p.transaction_fee_lamports
          p.destination_ata_rent_lamports
    next_total ←
        ok_or (checked_add_u64 j.reserved_capital_lamports capital) capital_arithmetic_overflow
    fail_if (ltb j.max_pending_capital_lamports next_total) pending_capital_limit
    ok (capital, next_total)

  unfoldable pub reservation : Purchase K → ℕ → Reservation
  reservation p capital = record {
    version = execution_journal_version;
    target_mint = codec.to_string p.target_mint;
    amount_in = p.amount_in;
    capital_at_risk_lamports = capital;
    timestamp_ms = p.timestamp_ms;
    transaction_signature = p.transaction_signature;
    recent_blockhash = p.recent_blockhash;
  }

  abbrev pub Outcome : Type 0
  Outcome = ExecutionJournal K × Disk Line × Result (Unit {0})

  -- After the append: the memory is updated only if the record is on disk.
  unfoldable pub commit :
      ExecutionJournal K → Purchase K → ℕ → Disk Line × Result (Unit {0}) → Outcome
  commit j p total (disk, err e) = (j, disk, err e)
  commit j p total (disk, ok done) = (
    record j {
      reserved_mints = p.target_mint ∷ j.reserved_mints;
      reserved_capital_lamports = total;
    },
    disk,
    ok tt,
  )

  unfoldable pub write_reservation : Purchase K → ℕ × ℕ → AppendOutcome Line → Outcome → Outcome
  unfolding commit reservation append
  write_reservation p (capital, total) outcome (j, disk, err e) = (j, disk, err e)
  write_reservation p (capital, total) outcome (j, disk, ok done) =
      commit j p total (append codec disk (reserved (reservation p capital)) outcome)

  unfoldable pub reserve :
      ExecutionJournal K → Disk Line → Purchase K → Bool → AppendOutcome Line → Outcome
  unfolding check_capital write_reservation acquire_writer_lock
  reserve j disk p written outcome = elim (check_capital j p) [
    | err e ↦ (j, disk, err e)
    | ok amounts ↦ write_reservation p amounts outcome (acquire_writer_lock codec j disk written)
  ]

  unfoldable pub acceptance : K → BundleSubmission → Acceptance
  acceptance target_mint s = record {
    version = execution_journal_version;
    target_mint = codec.to_string target_mint;
    bundle_id = s.bundle_id;
    transaction_signature = s.transaction_signature;
  }

  unfoldable pub record_acceptance :
      Disk Line → K → BundleSubmission → AppendOutcome Line → Disk Line × Result (Unit {0})
  unfolding acceptance append
  record_acceptance disk target_mint s outcome =
      append codec disk (accepted (acceptance target_mint s)) outcome

  -- `check_capital` lets a purchase pass exactly when its mint is new and the new total, in plain
  -- arithmetic, fits a u64 and the limit; it then gives the cost and the new total.
  pub check_capital_ok :
      (j : ExecutionJournal K) (p : Purchase K) (capital total : ℕ)
      → check_capital j p ≡ ok (capital, total)
      → (contains p.target_mint j.reserved_mints ≡ false)
        × (capital ≡ cost p)
        × (total ≡ j.reserved_capital_lamports + cost p)
        × (total < u64_mod)
        × (total ≤ j.max_pending_capital_lamports)
  unfolding check_capital
  check_capital_ok j p capital total h = ground arith

  pub check_capital_passes :
      (j : ExecutionJournal K) (p : Purchase K)
      → contains p.target_mint j.reserved_mints ≡ false
      → j.reserved_capital_lamports + cost p < u64_mod
      → j.reserved_capital_lamports + cost p ≤ j.max_pending_capital_lamports
      → check_capital j p ≡ ok (cost p, j.reserved_capital_lamports + cost p)
  unfolding check_capital
  check_capital_passes j p new fits within = ground arith
