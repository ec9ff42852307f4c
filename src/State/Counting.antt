-- ===== src/State/Counting.antt =====
-- A semaphore that is the number of its permits, which fits the interface.
use alpha_whales.Common.{ℕ, zero, suc, ◌+◌, ◌≡◌, refl, Option, none, some, arith}
use alpha_whales.State.{Semaphore}

abbrev pub take_one : ℕ → Option ℕ
take_one zero = none
take_one (suc n) = some n

pub take_one-some : (s t : ℕ) → take_one s ≡ some t → s ≡ t + 1
take_one-some s t h = ground arith

pub take_one-none : (s : ℕ) → take_one s ≡ none → s ≡ 0
take_one-none s h = ground arith

abbrev pub counting : Semaphore ℕ
counting = record {
  new = λ n. n;
  available_permits = λ s. s;
  try_acquire_owned = take_one;
  release = suc;
  available-new = λ n. refl;
  available-acquire = take_one-some;
  acquire_fails = take_one-none;
  available-release = λ s. omega arith;
}
