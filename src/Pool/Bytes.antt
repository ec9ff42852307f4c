-- ===== src/Pool/Bytes.antt =====
-- The byte readers of core/src/pool_cache.rs on bytes that were written.
use alpha_whales.Common.{ℕ, ◌≡◌, refl, List, ◌++◌, length, IsU64}
use alpha_whales.Common.Bytes.{to_le_bytes, slice_middle, le_round_trip}
use alpha_whales.Common.Checked.{ok}
use alpha_whales.Pool.{Chain}
use alpha_whales.Pool.OnChain.{read_u64, read_pubkey}

-- A word of eight bytes that stands anywhere in an account's data is read back.
pub read_u64-to_le_bytes :
    (before after : List ℕ) (n : ℕ)
    → IsU64 n
    → read_u64 (before ++ (to_le_bytes 8 n ++ after)) (length before) ≡ ok n
unfolding read_u64
read_u64-to_le_bytes before after n h =
    rw (slice_middle before (to_le_bytes 8 n) after, le_round_trip 8 n h) refl

-- The thirty-two bytes that stand anywhere in an account's data are read as their key.
pub read_pubkey_middle :
    {K : Type 0} (chain : Chain K) (before bytes after : List ℕ)
    → length bytes ≡ 32
    → read_pubkey chain (before ++ (bytes ++ after)) (length before)
      ≡ ok (chain.new_from_array bytes)
unfolding read_pubkey
read_pubkey_middle chain before bytes after h = rw (← h, slice_middle before bytes after) refl
