-- ===== src/Tracker/Counts.antt =====
-- Counting the tracked records that pass a test, and the records that still have their sender.
use alpha_whales.Common.{
  ℕ, ◌+◌, ◌≡◌, none, some, Bool, true, false, not, [], ◌∷◌, String, text_key, if◌then◌else◌, arith,
  is_some,
}
use alpha_whales.Common.Maps.{Map, get, insert}
use alpha_whales.Tracker.{BundleRecord, is_terminal, is_confirmed}

abbrev pub bit : Bool → ℕ
bit true = 1
bit false = 0

-- How many of the tracked records pass a test.
abbrev pub count : (BundleRecord → Bool) → Map String BundleRecord → ℕ
count p [] = 0
count p ((id, r) ∷ m) = bit (p r) + count p m

pub count-insert_old :
    (p : BundleRecord → Bool) (id : String) (r old : BundleRecord) (m : Map String BundleRecord)
    → get id m ≡ some old
    → count p (insert id r m) + bit (p old) ≡ count p m + bit (p r)
unfolding get insert
count-insert_old p id r old [] e = cc
count-insert_old p id r old ((j, q) ∷ m) e = ground (arith, count-insert_old p id r old m)

pub count-insert_new :
    (p : BundleRecord → Bool) (id : String) (r : BundleRecord) (m : Map String BundleRecord)
    → get id m ≡ none
    → count p (insert id r m) ≡ count p m + bit (p r)
unfolding get insert
count-insert_new p id r [] e = omega arith
count-insert_new p id r ((j, q) ∷ m) e = ground (arith, count-insert_new p id r m)

-- A record that is unresolved has its sender, one that is resolved has given it away.
abbrev pub is_wired : BundleRecord → Bool
is_wired r = if is_terminal r.status then not (is_some r.notify_tx) else is_some r.notify_tx

abbrev pub Wired : Map String BundleRecord → Type 0
Wired [] = Unit
Wired ((id, r) ∷ m) = (is_wired r ≡ true) × Wired m

pub get-Wired :
    (id : String) (r : BundleRecord) (m : Map String BundleRecord)
    → Wired m
    → get id m ≡ some r
    → is_wired r ≡ true
unfolding get
get-Wired id r [] w e = cc
get-Wired id r ((j, q) ∷ m) w e = ground (arith, get-Wired id r m w.1)

pub insert-Wired :
    (id : String) (r : BundleRecord) (m : Map String BundleRecord)
    → Wired m
    → is_wired r ≡ true
    → Wired (insert id r m)
unfolding insert
insert-Wired id r [] w h = (h, tt)
insert-Wired id r ((j, q) ∷ m) w h = ground (arith, insert-Wired id r m w.1 h)

abbrev pub is_resolved : BundleRecord → Bool
is_resolved r = is_terminal r.status

abbrev pub is_landed : BundleRecord → Bool
is_landed r = is_confirmed r.status
