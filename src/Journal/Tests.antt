-- ===== src/Journal/Tests.antt =====
-- Runs of the journal, and the theorems at concrete inputs.
use alpha_whales.Common.{
  ◌+◌, ◌≤◌, ◌≡◌, arith, refl, none, some, true, false, [], ◌∷◌, ◌++◌, String, text_key,
}
use alpha_whales.Journal.{
  ok, err, Disk, ExecutionJournal, reserved, contains, read_lines, read_line, read_record,
  read_reservation, append, append_line, acquire_writer_lock, synced, load,
  duplicate_execution_attempt, pending_capital_limit, capital_at_risk_lamports, remove_stale_lock,
  execution_journal,
}
use alpha_whales.Journal.Reserve.{
  Purchase, check_capital, reservation, commit, write_reservation, reserve, cost,
}
use alpha_whales.Journal.Plain.{Line, line_of, codec}
use alpha_whales.Journal.Replay.{Consistent, IsReservable}
use alpha_whales.Journal.Restart.{reserve_made, rebuy_refused}
use alpha_whales.Journal.History.{
  JournalCall, reserving, accepting, new_journal, new_disk, journal_step, journal_run,
  load-journal_run,
}
use alpha_whales.Common.{List}
use alpha_whales.Journal.{accepted, max_execution_journal_bytes}
use alpha_whales.Journal.Reserve.{record_acceptance, acceptance}

abbrev empty_disk : Disk Line
empty_disk = record {
  file = record { lines = []; torn = none; byte_length = 0; is_utf8 = true };
  lock_exists = false;
}

abbrev fresh : ExecutionJournal String
fresh = record {
  writer_lock_acquired = false;
  reserved_mints = [];
  reserved_capital_lamports = 0;
  max_pending_capital_lamports = 1000;
}

abbrev purchase : Purchase String
purchase = record {
  target_mint = "mintA";
  amount_in = 500;
  tip_lamports = 10;
  transaction_fee_lamports = 5;
  destination_ata_rent_lamports = 2;
  timestamp_ms = 77;
  transaction_signature = "sig";
  recent_blockhash = "hash";
}

abbrev after : ExecutionJournal String
after = record {
  writer_lock_acquired = true;
  reserved_mints = "mintA" ∷ [];
  reserved_capital_lamports = 517;
  max_pending_capital_lamports = 1000;
}

abbrev line : Line
line = line_of (
    reserved (record {
      version = 1;
      target_mint = "mintA";
      amount_in = 500;
      capital_at_risk_lamports = 517;
      timestamp_ms = 77;
      transaction_signature = "sig";
      recent_blockhash = "hash";
    }))

abbrev disk_after : Disk Line
disk_after = record {
  file = record { lines = line ∷ []; torn = none; byte_length = 200; is_utf8 = true };
  lock_exists = true;
}

purchase_made : reserve codec fresh empty_disk purchase true synced ≡ (after, disk_after, ok tt)
unfolding reserve check_capital contains capital_at_risk_lamports acquire_writer_lock
    write_reservation reservation append append_line commit
purchase_made = refl

abbrev too_large : Purchase String
too_large = record purchase { target_mint = "mintB" }

over_the_limit :
    reserve codec after disk_after too_large true synced
    ≡ (after, disk_after, err pending_capital_limit)
unfolding reserve check_capital contains capital_at_risk_lamports
over_the_limit = refl

loaded_again :
    load codec 1000 disk_after true true ≡ ok (record after { writer_lock_acquired = false })
unfolding load read_lines read_line read_record read_reservation contains
loaded_again = refl

limit_lowered : load codec 500 disk_after true true ≡ err pending_capital_limit
unfolding load read_lines read_line read_record read_reservation contains
limit_lowered = refl

-- A purchase of nothing is reserved, and the journal that holds it no longer loads.
abbrev nothing : Purchase String
nothing = record purchase { amount_in = 0 }

nothing_reserved : (reserve codec fresh empty_disk nothing true synced).2 ≡ ok tt
unfolding reserve check_capital contains capital_at_risk_lamports acquire_writer_lock
    write_reservation reservation append append_line commit
nothing_reserved = refl

nothing_poisons :
    load codec 1000 (reserve codec fresh empty_disk nothing true synced).1 true true
    ≡ err execution_journal
unfolding reserve check_capital contains capital_at_risk_lamports acquire_writer_lock
    write_reservation reservation append append_line commit load read_lines read_line read_record
    read_reservation
nothing_poisons = refl

-- A file whose last line has lost its line break loads; a reservation goes behind that line, and the
-- file no longer loads.
abbrev torn_disk : Disk Line
torn_disk = record {
  file = record { lines = []; torn = some line; byte_length = 199; is_utf8 = true };
  lock_exists = false;
}

torn_loads :
    load codec 1000 torn_disk true true ≡ ok (record after { writer_lock_acquired = false })
unfolding load read_lines read_line read_record read_reservation contains
torn_loads = refl

abbrev another : Purchase String
another = record purchase { target_mint = "mintB"; amount_in = 1 }

torn_reserved :
    (reserve codec (record after { writer_lock_acquired = false }) torn_disk another true synced).2
    ≡ ok tt
unfolding reserve check_capital contains capital_at_risk_lamports acquire_writer_lock
    write_reservation reservation append append_line commit
torn_reserved = refl

torn_poisons :
    load codec 1000
      (reserve codec
        (record after { writer_lock_acquired = false })
        torn_disk
        another
        true
        synced).1
      true
      true
    ≡ err execution_journal
unfolding reserve check_capital contains capital_at_risk_lamports acquire_writer_lock
    write_reservation reservation append append_line commit load read_lines read_line read_record
    read_reservation
torn_poisons = refl

-- A process that holds the lock loses the lock file when another one loads.
lock_stolen : (remove_stale_lock codec disk_after true).lock_exists ≡ false
unfolding remove_stale_lock
lock_stolen = refl

purchase-IsReservable : IsReservable purchase
purchase-IsReservable = record {
  has_amount = omega arith;
  has_time = omega arith;
  has_signature = refl;
  has_blockhash = refl;
}

after-Consistent : Consistent codec after disk_after
unfolding read_lines read_line read_record read_reservation contains
after-Consistent = record {
  replays = refl;
  is_ended = refl;
  fits = omega arith;
  within = omega arith;
}

made_it : (reserve codec fresh empty_disk purchase true synced).2 ≡ ok tt
made_it = rw purchase_made refl

abbrev calls : List (JournalCall String)
calls =
    reserving purchase true
    ∷ accepting "mintA" (record { bundle_id = "b"; transaction_signature = "sig" })
    ∷ reserving too_large true
    ∷ []

calls_run : journal_run codec (new_journal 1000) new_disk calls ≡ (
  after,
  record disk_after {
    file = record disk_after.file {
      lines =
          line
          ∷ line_of (
              accepted (record {
                version = 1;
                target_mint = "mintA";
                bundle_id = "b";
                transaction_signature = "sig";
              }))
          ∷ [];
      byte_length = 400;
    };
  },
)
unfolding journal_run journal_step reserve check_capital contains capital_at_risk_lamports
    acquire_writer_lock write_reservation reservation append append_line commit record_acceptance
    acceptance
calls_run = refl

large-IsReservable : IsReservable too_large
large-IsReservable = record {
  has_amount = omega arith;
  has_time = omega arith;
  has_signature = refl;
  has_blockhash = refl;
}

small :
    (journal_run codec (new_journal 1000) new_disk calls).1.file.byte_length
    ≤ max_execution_journal_bytes
small = rw calls_run (omega arith)

load-journal_run_example :
    load codec 1000 (journal_run codec (new_journal 1000) new_disk calls).1 true true
    ≡ ok (record (journal_run codec (new_journal 1000) new_disk calls).0 {
      writer_lock_acquired = false;
    })
load-journal_run_example =
    load-journal_run codec 1000 calls
      (purchase-IsReservable, ((refl, refl), (large-IsReservable, tt))) small

reserve_made_example :
    let (j', disk', r) = reserve codec fresh empty_disk purchase true synced in
    (contains "mintA" fresh.reserved_mints ≡ false)
    × (j'.reserved_mints ≡ "mintA" ∷ fresh.reserved_mints)
    × (j'.reserved_capital_lamports ≡ fresh.reserved_capital_lamports + cost purchase)
    × (j'.reserved_capital_lamports ≤ fresh.max_pending_capital_lamports)
    × (disk'.file
        ≡ append_line codec empty_disk.file (reserved (reservation codec purchase (cost purchase))))
    × (empty_disk.file.torn ≡ none
        → disk'.file.lines
          ≡ codec.encode (reserved (reservation codec purchase (cost purchase))) ∷ [])
reserve_made_example = reserve_made codec fresh empty_disk purchase true synced made_it

same_lines :
    disk_after.file.lines ≡ (reserve codec fresh empty_disk purchase true synced).1.file.lines ++ []
same_lines = rw purchase_made refl

rebuy_refused_example :
    reserve codec (record after { writer_lock_acquired = false }) disk_after purchase true synced
    ≡ (record after { writer_lock_acquired = false }, disk_after, err duplicate_execution_attempt)
rebuy_refused_example =
    rebuy_refused codec fresh empty_disk purchase true synced made_it refl [] disk_after same_lines
      1000 true true (record after { writer_lock_acquired = false }) loaded_again purchase
      disk_after true synced refl
