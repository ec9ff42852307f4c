-- ===== src/Config/Reload.antt =====
-- core/src/config.rs: the watchlist from the lines of its file (`load_csv_watchlist`) and its reloading
-- (`spawn_hot_reloader`), over f64 and the parsing of numbers as parameters.
use alpha_whales.Common.{
  ℕ, ◌<◌, ◌≡◌, ◌∙◌, refl, ◌⊎◌, inl, inr, Bool, true, false, Bool-cases, Option, none, some, ◌&&◌,
  List, [], ◌∷◌, String, text_key, number_key, ◌==◌, ltb, leb, length, get_elem?, if◌then◌else◌,
  arith,
}
use alpha_whales.Common.Floats.{F64}
use alpha_whales.Common.Maps.{Map, insert}
use alpha_whales.Common.Words.{unwrap_or}

pub data WhaleLane : Type 0 where
  conservative swing degen sniper unknown : WhaleLane

pub record WhaleProfile (F : Type 0) : Type 0 where
  pub total_trades : ℕ
  pub win_rate : F
  pub profit_factor : F
  pub net_profit : F
  pub lane : WhaleLane

-- `str::trim`, `parse::<u32>` and `parse::<f64>`
pub record Parsers (F : Type 0) : Type 0 where
  pub trim : String → String
  pub parse_u32 : String → Option ℕ
  pub parse_f64 : String → Option F

-- A line that is not all white space is its parts at the commas.
pub data Line : Type 0 where
  blank : Line
  parts_of : List String → Line

module _ {F : Type 0} (f64 : F64 F) (parse : Parsers F) where
  open f64 use {decimal, lt, le}
  open parse use {trim, parse_u32, parse_f64}

  abbrev pub part : List String → ℕ → String
  part parts index = unwrap_or (get_elem? parts index) ""

  -- Without a lane of its own, a wallet's numbers give it one.
  unfoldable pub lane_of : String → F → F → WhaleLane
  lane_of lane_str win_rate profit_factor =
      if lane_str == "Conservative"
      then conservative
      else if lane_str == "Swing"
      then swing
      else if lane_str == "Degen"
      then degen
      else if lane_str == "Sniper"
      then sniper
      else if le (decimal 6 1) win_rate && lt (decimal 20 1) profit_factor
      then conservative
      else if lt win_rate (decimal 4 1) && lt (decimal 20 1) profit_factor
      then degen
      else swing

  unfoldable pub profile_of : List String → WhaleProfile F
  unfolding lane_of
  profile_of parts =
      let win_rate = unwrap_or (parse_f64 (part parts 2)) (decimal 0 1) in
      let profit_factor = unwrap_or (parse_f64 (part parts 3)) (decimal 0 1) in
      record {
        total_trades = unwrap_or (parse_u32 (part parts 1)) 0;
        win_rate = win_rate;
        profit_factor = profit_factor;
        net_profit = unwrap_or (parse_f64 (part parts 4)) (decimal 0 1);
        lane =
            lane_of (if ltb 5 (length parts) then trim (part parts 5) else "") win_rate
              profit_factor;
      }

  abbrev pub add_line : Line → Map String (WhaleProfile F) → Map String (WhaleProfile F)
  add_line blank watchlist = watchlist
  add_line (parts_of parts) watchlist =
      if leb 5 (length parts)
      then insert (trim (part parts 0)) (profile_of parts) watchlist
      else watchlist

  unfoldable pub add_lines : List Line → Map String (WhaleProfile F) → Map String (WhaleProfile F)
  unfolding profile_of
  add_lines [] watchlist = watchlist
  add_lines (line ∷ lines) watchlist = add_lines lines (add_line line watchlist)

  -- The first line is the header; a file that cannot be read gives nothing.
  unfoldable pub load_csv_watchlist : Option (List Line) → Map String (WhaleProfile F)
  unfolding add_lines
  load_csv_watchlist none = []
  load_csv_watchlist (some []) = []
  load_csv_watchlist (some (header ∷ lines)) = add_lines lines []

  -- The reloader's variable and the shared map. Zero is the epoch of Unix.
  pub record Reloader : Type 0 where
    pub last_modified : ℕ
    pub watchlist : Map String (WhaleProfile F)

  -- One poll: the time of the last change, if it can be read, and the file's content.
  unfoldable pub poll_file : Reloader → Option ℕ → Option (List Line) → Reloader
  unfolding load_csv_watchlist
  poll_file r none content = r
  poll_file r (some modified) content =
      if ltb r.last_modified modified
      then record {
        last_modified = modified;
        watchlist = if r.last_modified == 0 then r.watchlist else load_csv_watchlist content;
      }
      else r

  -- Polls of a file that stays as it is: each comes with whether the time of its last change can be
  -- read, and with what its content is read as.
  unfoldable pub poll_unchanged : Reloader → ℕ → List (Bool × Option (List Line)) → Reloader
  unfolding poll_file
  poll_unchanged r modified [] = r
  poll_unchanged r modified ((readable, content) ∷ polls) =
      poll_unchanged (poll_file r (if readable then some modified else none) content) modified polls

  poll_settled :
      (r : Reloader) (modified : ℕ) (readable : Bool) (content : Option (List Line))
      → (r.last_modified ≡ 0) ⊎ (r.last_modified ≡ modified)
      → ((poll_file r (if readable then some modified else none) content).watchlist ≡ r.watchlist)
        × (((poll_file r (if readable then some modified else none) content).last_modified ≡ 0)
            ⊎ ((poll_file r (if readable then some modified else none) content).last_modified
                ≡ modified))
  unfolding poll_file
  poll_settled r modified false content h = (refl, h)
  poll_settled r modified true content h = elim (Bool-cases (ltb r.last_modified modified)) [
    | inl newer ↦ rw newer (kept r modified content h newer, inr refl)
    | inr older ↦ rw older (refl, h)
  ]
    where
      kept :
          (r : Reloader) (modified : ℕ) (content : Option (List Line))
          → (r.last_modified ≡ 0) ⊎ (r.last_modified ≡ modified)
          → ltb r.last_modified modified ≡ true
          → (if r.last_modified == 0 then r.watchlist else load_csv_watchlist content) ≡ r.watchlist
      kept r modified content h newer = ground arith

  settled_polls :
      (r : Reloader) (modified : ℕ) (polls : List (Bool × Option (List Line)))
      → (r.last_modified ≡ 0) ⊎ (r.last_modified ≡ modified)
      → (poll_unchanged r modified polls).watchlist ≡ r.watchlist
  unfolding poll_unchanged
  settled_polls r modified [] h = refl
  settled_polls r modified ((readable, content) ∷ polls) h =
      let (kept, next) = poll_settled r modified readable content h in
      settled_polls (poll_file r (if readable then some modified else none) content) modified polls
        next
      ∙ kept

  -- A change of the file before the first poll is never loaded while the file stays as it is: however
  -- often it is polled, and whatever can be read, the watchlist stays that of the start.
  pub early_change_lost :
      (r : Reloader) (modified : ℕ) (polls : List (Bool × Option (List Line)))
      → r.last_modified ≡ 0
      → (poll_unchanged r modified polls).watchlist ≡ r.watchlist
  early_change_lost r modified polls h = settled_polls r modified polls (inl h)

  -- After the first poll, a newer file replaces the whole watchlist, and one that cannot be read
  -- empties it.
  pub newer_file_loaded :
      (r : Reloader) (modified : ℕ) (content : Option (List Line))
      → 0 < r.last_modified
      → r.last_modified < modified
      → (poll_file r (some modified) content).watchlist ≡ load_csv_watchlist content
  unfolding poll_file
  newer_file_loaded r modified content set newer = ground arith
