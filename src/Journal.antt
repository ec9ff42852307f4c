-- ===== src/Journal.antt =====
-- alpha-whales/src/execution.rs: the execution journal, the durable record of what has been bought.
-- `Codec` stands for the public keys of solana_sdk and for serde_json, with what their
-- documentation promises. A file is its list of lines, each with its line break, and what may stand
-- after the last one, with its length in bytes; what an I/O call gives back is an argument. A failed write may leave any file.
pub mod Load
pub mod Reserve
pub mod Replay
pub mod Restart
pub mod History
pub mod Plain
mod Tests
pub use alpha_whales.Common.Checked.{Checked, ok, err, ◌>>=◌, ◌>>◌, fail_if, ok_or}
use alpha_whales.Common.{
  ℕ, ◌+◌, ◌*◌, ◌≡◌, Option, none, some, Bool, true, false, not, ◌&&◌, ◌||◌, List, [], ◌∷◌, ◌++◌,
  String, text_key, number_key, ◌==◌, KeyEq, ltb, if◌then◌else◌, checked_add_u64, and_then, any,
  is_some,
}

pub data JournalError : Type 0 where
  execution_journal : JournalError
  capital_arithmetic_overflow : JournalError
  pending_capital_limit : JournalError
  duplicate_execution_attempt : JournalError

abbrev pub Result {ℓ} : Type ℓ → Type ℓ
Result A = Checked JournalError A

abbrev pub execution_journal_version : ℕ
execution_journal_version = 1

abbrev pub max_execution_journal_bytes : ℕ
max_execution_journal_bytes = 1024 * 1024

pub record Reservation : Type 0 where
  pub version : ℕ
  pub target_mint : String
  pub amount_in : ℕ
  pub capital_at_risk_lamports : ℕ
  pub timestamp_ms : ℕ
  pub transaction_signature : String
  pub recent_blockhash : String

pub record Acceptance : Type 0 where
  pub version : ℕ
  pub target_mint : String
  pub bundle_id : String
  pub transaction_signature : String

pub data ExecutionJournalRecord : Type 0 where
  reserved : Reservation → ExecutionJournalRecord
  accepted : Acceptance → ExecutionJournalRecord

-- `Pubkey::from_str` and `to_string`; `serde_json::to_vec` with its newline and `from_str`; whether
-- a line is blank; its length in bytes; and the text of a line behind another text.
pub record Codec (K Line : Type 0) : Type 0 where
  pub from_str : String → Option K
  pub to_string : K → String
  pub encode : ExecutionJournalRecord → Line
  pub decode : Line → Option ExecutionJournalRecord
  pub is_blank : Line → Bool
  pub line_length : Line → ℕ
  pub glue : Line → Line → Line
  pub from_str-to_string : (k : K) → from_str (to_string k) ≡ some k
  pub decode-encode : (r : ExecutionJournalRecord) → decode (encode r) ≡ some r
  pub is_blank-encode : (r : ExecutionJournalRecord) → is_blank (encode r) ≡ false

pub record JournalFile (Line : Type 0) : Type 0 where
  pub lines : List Line
  -- the text without a line break at the end, if there is one
  pub torn : Option Line
  pub byte_length : ℕ
  pub is_utf8 : Bool

abbrev pub with_torn : {Line : Type 0} → List Line → Option Line → List Line
with_torn lines none = lines
with_torn lines (some text) = lines ++ text ∷ []

-- `str::lines`, to which a last line is one with or without its line break.
abbrev pub text_lines : {Line : Type 0} → JournalFile Line → List Line
text_lines file = with_torn file.lines file.torn

pub record Disk (Line : Type 0) : Type 0 where
  pub file : JournalFile Line
  pub lock_exists : Bool

pub record ExecutionJournal (K : Type 0) : Type 0 where
  pub writer_lock_acquired : Bool
  pub reserved_mints : List K
  pub reserved_capital_lamports : ℕ
  pub max_pending_capital_lamports : ℕ

unfoldable pub capital_at_risk_lamports : ℕ → ℕ → ℕ → ℕ → Result ℕ
capital_at_risk_lamports amount_in tip_lamports transaction_fee_lamports rent =
    ok_or
      (and_then
        (and_then (checked_add_u64 amount_in tip_lamports)
          (λ value. checked_add_u64 value transaction_fee_lamports))
        (λ value. checked_add_u64 value rent))
      capital_arithmetic_overflow

-- What a write to the journal comes to: synced to disk, or failed with whatever is then there.
pub data AppendOutcome (Line : Type 0) : Type 0 where
  synced : AppendOutcome Line
  failed : JournalFile Line → AppendOutcome Line

unfoldable pub contains : {K : Type 0} ⦃key : KeyEq K⦄ → K → List K → Bool
contains k mints = any (λ j. j == k) mints

module _ {K Line : Type 0} ⦃key : KeyEq K⦄ (codec : Codec K Line) where
  open codec use {from_str, to_string, encode, decode, is_blank, line_length, glue}

  -- The mints and the capital so far, and one record of the file.
  unfoldable pub read_reservation : List K × ℕ → Reservation → Result (List K × ℕ)
  unfolding contains
  read_reservation (mints, capital) r = do
    fail_if
        (not (r.version == execution_journal_version)
          || r.amount_in == 0
          || r.capital_at_risk_lamports == 0
          || r.timestamp_ms == 0
          || r.transaction_signature == ""
          || r.recent_blockhash == "")
        execution_journal
    mint ← ok_or (from_str r.target_mint) execution_journal
    fail_if (contains mint mints) execution_journal
    total ← ok_or (checked_add_u64 capital r.capital_at_risk_lamports) capital_arithmetic_overflow
    ok (mint ∷ mints, total)

  unfoldable pub read_acceptance : List K × ℕ → Acceptance → Result (List K × ℕ)
  read_acceptance seen a = do
    fail_if
        (not (a.version == execution_journal_version)
          || not (is_some (from_str a.target_mint))
          || a.bundle_id == ""
          || a.transaction_signature == "")
        execution_journal
    ok seen

  unfoldable pub read_record : List K × ℕ → ExecutionJournalRecord → Result (List K × ℕ)
  unfolding read_reservation read_acceptance
  read_record seen (reserved r) = read_reservation seen r
  read_record seen (accepted a) = read_acceptance seen a

  unfoldable pub read_line : List K × ℕ → Line → Result (List K × ℕ)
  unfolding read_record
  read_line seen line =
      if is_blank line
      then ok seen
      else (ok_or (decode line) execution_journal >>= read_record seen)

  unfoldable pub read_lines : List K × ℕ → List Line → Result (List K × ℕ)
  read_lines seen [] = ok seen
  read_lines seen (line ∷ lines) = read_line seen line >>= λ next. read_lines next lines

  -- `load`: a lock file is removed if it can be; `ensured` and `read` say whether those calls work.
  unfoldable pub load : ℕ → Disk Line → Bool → Bool → Result (ExecutionJournal K)
  load max_pending disk ensured read = do
    fail_if (not ensured) execution_journal
    fail_if (not read) execution_journal
    fail_if (ltb max_execution_journal_bytes disk.file.byte_length) execution_journal
    fail_if (not disk.file.is_utf8) execution_journal
    seen ← read_lines ([], 0) (text_lines disk.file)
    fail_if (ltb max_pending seen.1) pending_capital_limit
    ok (record {
      writer_lock_acquired = false;
      reserved_mints = seen.0;
      reserved_capital_lamports = seen.1;
      max_pending_capital_lamports = max_pending;
    })

  -- What `load` does to the disk first: any lock file that is there is removed.
  unfoldable pub remove_stale_lock : Disk Line → Bool → Disk Line
  remove_stale_lock disk removed = record disk { lock_exists = disk.lock_exists && not removed }

  abbrev pub behind : Option Line → Line → Line
  behind none line = line
  behind (some text) line = glue text line

  -- The bytes go to the end of the file: behind a text without a line break they are no line of
  -- their own.
  unfoldable pub append_line : JournalFile Line → ExecutionJournalRecord → JournalFile Line
  append_line file r = record file {
    lines = file.lines ++ behind file.torn (encode r) ∷ [];
    torn = none;
    byte_length = file.byte_length + line_length (encode r);
  }

  unfoldable pub append :
      Disk Line → ExecutionJournalRecord → AppendOutcome Line → Disk Line × Result (Unit {0})
  unfolding append_line
  append disk r synced = (record disk { file = append_line disk.file r }, ok tt)
  append disk r (failed file) = (record disk { file = file }, err execution_journal)

  -- `create_new` fails if the lock file is there; `written` says whether the writes after it work.
  unfoldable pub acquire_writer_lock :
      ExecutionJournal K → Disk Line → Bool → ExecutionJournal K × Disk Line × Result (Unit {0})
  acquire_writer_lock j disk written =
      if j.writer_lock_acquired
      then (j, disk, ok tt)
      else if disk.lock_exists
      then (j, disk, err execution_journal)
      else if written
      then (record j { writer_lock_acquired = true }, record disk { lock_exists = true }, ok tt)
      else (j, record disk { lock_exists = true }, err execution_journal)
