-- ===== src/Journal/Plain.antt =====
-- A codec with texts as keys and records as lines, which fits the interface.
use alpha_whales.Common.{refl, Option, none, some, Bool, true, false, String}
use alpha_whales.Journal.{Codec, ExecutionJournalRecord}

pub data Line : Type 0 where
  line_of : ExecutionJournalRecord → Line
  empty_line unreadable : Line

abbrev pub decode_line : Line → Option ExecutionJournalRecord
decode_line (line_of r) = some r
decode_line empty_line = none
decode_line unreadable = none

abbrev pub is_empty : Line → Bool
is_empty (line_of r) = false
is_empty empty_line = true
is_empty unreadable = false

abbrev pub glued : Line → Line → Line
glued empty_line line = line
glued (line_of r) line = unreadable
glued unreadable line = unreadable

abbrev pub codec : Codec String Line
codec = record {
  from_str = λ s. some s;
  to_string = λ s. s;
  encode = λ r. line_of r;
  decode = decode_line;
  is_blank = is_empty;
  line_length = λ line. 200;
  glue = glued;
  from_str-to_string = λ k. refl;
  decode-encode = λ r. refl;
  is_blank-encode = λ r. refl;
}
