-- ===== src/Common/Checked.antt =====
-- Rust's `Result` over any type of errors, with what `?` and early returns come to.
use mathlib.Core.Path.{◌≡◌, refl, ap}
use mathlib.Core.Logic.{◌⊎◌, inl, inr}
use mathlib.Core.Bool.{Bool, true, false}
use mathlib.Core.Option.{Option, none, some}
use native.Mathlib.Omega.{arith}
use alpha_whales.Common.Tests.{if◌then◌else◌}

pub data Checked {ℓ κ} (E : Type ℓ) (A : Type κ) : Type (ℓ ⊔ κ) where
  err : E → Checked E A
  ok : A → Checked E A

module _ {ℓ} {E : Type ℓ} where
  infixl 5 ◌>>=◌ ◌>>◌
  abbrev pub ◌>>=◌ {κ μ} : {A : Type κ} {B : Type μ} → Checked E A → (A → Checked E B) → Checked E B
  err why >>= next = err why
  ok value >>= next = next value

  abbrev pub ◌>>◌ {κ} : {B : Type κ} → Checked E (Unit {0}) → Checked E B → Checked E B
  first >> second = first >>= λ _. second

  -- `if wrong { return Err(why); }`
  abbrev pub fail_if : Bool → E → Checked E (Unit {0})
  fail_if wrong why = if wrong then err why else ok tt

  -- `map_err`
  abbrev pub map_err {κ μ} : {F : Type κ} {A : Type μ} → (E → F) → Checked E A → Checked F A
  map_err f (err why) = err (f why)
  map_err f (ok value) = ok value

  -- `ok_or`
  abbrev pub ok_or {κ} : {A : Type κ} → Option A → E → Checked E A
  ok_or none why = err why
  ok_or (some value) why = ok value

  pub Checked-cases {κ} :
      {A : Type κ} (r : Checked E A) → ((a : A) × (r ≡ ok a)) ⊎ ((e : E) × (r ≡ err e))
  Checked-cases (err why) = inr (why, refl)
  Checked-cases (ok value) = inl (value, refl)

  -- What follows from a result follows from the steps that led to it.
  pub bind-elim {κ μ ν} :
      {A : Type κ} {B : Type μ} {P : Type ν} (r : Checked E A) (next : A → Checked E B) {b : B}
      → (r >>= next) ≡ ok b
      → ((a : A) → r ≡ ok a → next a ≡ ok b → P)
      → P
  bind-elim (err why) next h use_steps = absurd (ground arith)
  bind-elim (ok a) next h use_steps = use_steps a refl h

  pub fail_if-elim {κ ν} :
      {B : Type κ} {P : Type ν} (wrong : Bool) (why : E) (r : Checked E B) {b : B}
      → (fail_if wrong why >> r) ≡ ok b
      → (wrong ≡ false → r ≡ ok b → P)
      → P
  fail_if-elim true why r h use_steps = absurd (ground arith)
  fail_if-elim false why r h use_steps = use_steps refl h

  pub ok_or-ok {κ} : {A : Type κ} (o : Option A) (why : E) {a : A} → ok_or o why ≡ ok a → o ≡ some a
  ok_or-ok none why h = absurd (ground arith)
  ok_or-ok (some a) why h = ground arith

  pub err_inj {κ} : {A : Type κ} {a b : E} → Path (Checked E A) (err a) (err b) → a ≡ b
  err_inj h = ground arith

  pub ok_inj {κ} : {A : Type κ} {a b : A} → Path (Checked E A) (ok a) (ok b) → a ≡ b
  ok_inj h = ground arith

pub map_err-ok {ℓ κ μ} :
    {E : Type ℓ} {F : Type κ} {A : Type μ} (f : E → F) (r : Checked E A) {a : A}
    → map_err f r ≡ ok a
    → r ≡ ok a
map_err-ok f (err why) h = absurd (ground arith)
map_err-ok f (ok value) h = ap (λ v. ok v) (ok_inj h)
