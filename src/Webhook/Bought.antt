-- ===== src/Webhook/Bought.antt =====
-- alpha-whales/src/webhook.rs: the mint that a transaction bought, from the outputs of its swap or its
-- transfers.
use alpha_whales.Common.{
  ◌≡◌, ◌≢◌, refl, ◌⊎◌, inl, inr, ap, Option, none, some, true, false, not, ◌&&◌, List, [], ◌∷◌,
  ◌++◌, String, text_key, ◌==◌, if◌then◌else◌, All, arith, Bool-cases,
}
use text.Mathlib.TextEquality.{eq_iff}

pub record HeliusTokenTransfer : Type 0 where
  pub to_user_account : String
  pub mint : String

abbrev pub wrapped_sol : String
wrapped_sol = "So11111111111111111111111111111111111111112"

abbrev pub first_output : Option (List String) → Option String
first_output none = none
first_output (some []) = none
first_output (some (mint ∷ mints)) = some mint

-- The first transfer to the whale that is not of wrapped SOL.
unfoldable pub received_mint : String → List HeliusTokenTransfer → Option String
received_mint fee_payer [] = none
received_mint fee_payer (transfer ∷ transfers) =
    if transfer.to_user_account == fee_payer && not (transfer.mint == wrapped_sol)
    then some transfer.mint
    else received_mint fee_payer transfers

abbrev pub or_received : Option String → String → Option (List HeliusTokenTransfer) → Option String
or_received (some mint) fee_payer transfers = some mint
or_received none fee_payer none = none
or_received none fee_payer (some transfers) = received_mint fee_payer transfers

-- A transfer to the payer of anything but wrapped SOL.
abbrev pub IsReceipt : String → HeliusTokenTransfer → Type 0
IsReceipt payer transfer =
    (transfer.to_user_account ≡ payer)
    × (transfer.mint ≢ "So11111111111111111111111111111111111111112")

-- Where the mint comes from.
pub data IsBought (outputs : Option (List String)) (payer : String)
    (transfers : Option (List HeliusTokenTransfer)) (mint : String) : Type 0 where
  first_put_out :
      (others : List String)
      → outputs ≡ some (mint ∷ others)
      → IsBought outputs payer transfers mint
  first_received :
      (outputs ≡ none) ⊎ (outputs ≡ some [])
      → (front : List HeliusTokenTransfer) (transfer : HeliusTokenTransfer)
        (back : List HeliusTokenTransfer)
      → transfers ≡ some (front ++ transfer ∷ back)
      → All (λ t. ¬ (IsReceipt payer t)) front
      → IsReceipt payer transfer
      → transfer.mint ≡ mint
      → IsBought outputs payer transfers mint

abbrev IsFirst : String → List HeliusTokenTransfer → String → Type 0
IsFirst payer transfers mint =
    (front : List HeliusTokenTransfer) × (transfer : HeliusTokenTransfer) × (back : List
      HeliusTokenTransfer)
    × (transfers ≡ front ++ transfer ∷ back)
    × All (λ t. ¬ (IsReceipt payer t)) front
    × IsReceipt payer transfer
    × (transfer.mint ≡ mint)

is_receipt :
    (payer : String) (t : HeliusTokenTransfer)
    → (t.to_user_account == payer && not (t.mint == wrapped_sol)) ≡ true
    → IsReceipt payer t
is_receipt payer t h = (
  (eq_iff t.to_user_account payer).0 (ground arith),
  λ same. ground (arith, (eq_iff t.mint wrapped_sol).1 same, h),
)

no-IsReceipt :
    (payer : String) (t : HeliusTokenTransfer)
    → (t.to_user_account == payer && not (t.mint == wrapped_sol)) ≡ false
    → ¬ (IsReceipt payer t)
no-IsReceipt payer t h (to, other) =
    other ((eq_iff t.mint wrapped_sol).0 (ground (arith, (eq_iff t.to_user_account payer).1 to, h)))

received_lem :
    (payer : String) (transfers : List HeliusTokenTransfer) (mint : String)
    → received_mint payer transfers ≡ some mint
    → IsFirst payer transfers mint
unfolding received_mint
received_lem payer [] mint h = absurd (ground arith)
received_lem payer (t ∷ transfers) mint h =
    elim (Bool-cases (t.to_user_account == payer && not (t.mint == wrapped_sol))) [
      | inl e ↦ ([], t, transfers, refl, tt, is_receipt payer t e, some_inj (ground (arith, e, h)))
      | inr e ↦
          let (front, found, back, same, none_before, is_found, has_mint) =
            received_lem payer transfers mint (ground (arith, e, h)) in
          (
            t ∷ front,
            found,
            back,
            ap (λ ts. t ∷ ts) same,
            (no-IsReceipt payer t e, none_before),
            is_found,
            has_mint,
          )
    ]
  where
    some_inj : {a b : String} → Path (Option String) (some a) (some b) → a ≡ b
    some_inj e = ground arith

pub or_received_lem :
    (outputs : Option (List String)) (payer : String)
    (transfers : Option (List HeliusTokenTransfer)) (mint : String)
    → or_received (first_output outputs) payer transfers ≡ some mint
    → IsBought outputs payer transfers mint
or_received_lem (some (x ∷ others)) payer transfers mint h =
    first_put_out others (ap (λ o. some o) (ap (λ y. y ∷ others) (some_inj h)))
  where
    some_inj : {a b : String} → Path (Option String) (some a) (some b) → a ≡ b
    some_inj e = ground arith
or_received_lem (some []) payer none mint h = absurd (ground arith)
or_received_lem none payer none mint h = absurd (ground arith)
or_received_lem (some []) payer (some transfers) mint h =
    let (front, t, back, same, before, is, has) = received_lem payer transfers mint h in
    first_received (inr refl) front t back (ap (λ ts. some ts) same) before is has
or_received_lem none payer (some transfers) mint h =
    let (front, t, back, same, before, is, has) = received_lem payer transfers mint h in
    first_received (inl refl) front t back (ap (λ ts. some ts) same) before is has
