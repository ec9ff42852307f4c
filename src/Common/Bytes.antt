-- ===== src/Common/Bytes.antt =====
-- The bytes of a machine word, and slices of a list of bytes.
use Prim.Native.Nat.{ℕ, zero, suc, ◌+◌, ◌*◌, ◌/◌, ◌%◌, ◌^◌, ◌<◌}
use native.Mathlib.Nat.{pow-suc}
use mathlib.Core.Path.{◌≡◌, refl, ap}
use mathlib.Core.Option.{Option, none, some}
use mathlib.Core.List.{List, [], ◌∷◌, ◌++◌}
use native.Mathlib.Omega.{arith}
use alpha_whales.Common.Tests.{leb, if◌then◌else◌}
use alpha_whales.Common.Lists.{length, length-append}

-- `to_le_bytes` of a word of `width` bytes, and what reads it back.
abbrev pub to_le_bytes : ℕ → ℕ → List ℕ
to_le_bytes zero n = []
to_le_bytes (suc width) n = n % 256 ∷ to_le_bytes width (n / 256)

abbrev pub from_le_bytes : List ℕ → ℕ
from_le_bytes [] = 0
from_le_bytes (b ∷ bytes) = b + 256 * from_le_bytes bytes

abbrev pub take {ℓ} : {A : Type ℓ} → ℕ → List A → List A
take zero xs = []
take (suc n) [] = []
take (suc n) (x ∷ xs) = x ∷ take n xs

abbrev pub drop {ℓ} : {A : Type ℓ} → ℕ → List A → List A
drop zero xs = xs
drop (suc n) [] = []
drop (suc n) (x ∷ xs) = drop n xs

-- `data.get(offset..offset + width)`
unfoldable pub slice {ℓ} : {A : Type ℓ} → ℕ → ℕ → List A → Option (List A)
slice offset width bytes =
    if leb (offset + width) (length bytes) then some (take width (drop offset bytes)) else none

pub le_round_trip : (w n : ℕ) → n < 256 ^ w → from_le_bytes (to_le_bytes w n) ≡ n
le_round_trip zero n h = omega (arith, h)
le_round_trip (suc w) n h =
    omega (arith, le_round_trip w (n / 256) (omega (arith, pow-suc 256 w, h)))

pub length-to_le_bytes : (w n : ℕ) → length (to_le_bytes w n) ≡ w
length-to_le_bytes zero n = refl
length-to_le_bytes (suc w) n = ap (λ (k : ℕ). suc k) (length-to_le_bytes w (n / 256))

take-append {ℓ} : {A : Type ℓ} (xs ys : List A) → take (length xs) (xs ++ ys) ≡ xs
take-append [] ys = refl
take-append (x ∷ xs) ys = ap (λ r. x ∷ r) (take-append xs ys)

drop-append {ℓ} : {A : Type ℓ} (xs ys : List A) → drop (length xs) (xs ++ ys) ≡ ys
drop-append [] ys = refl
drop-append (x ∷ xs) ys = drop-append xs ys

-- The slice that starts behind the first part and is as long as the second is the second.
pub slice_middle {ℓ} :
    {A : Type ℓ} (xs ys zs : List A) → slice (length xs) (length ys) (xs ++ (ys ++ zs)) ≡ some ys
unfolding slice
slice_middle xs ys zs =
    rw (drop-append xs (ys ++ zs), take-append ys zs)
      (ground (arith, length-append xs (ys ++ zs), length-append ys zs))
