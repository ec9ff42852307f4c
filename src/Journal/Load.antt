-- ===== src/Journal/Load.antt =====
-- Reading the journal: in pieces, and what a successful reading keeps.
use alpha_whales.Common.{
  ℕ, ◌+◌, ◌≡◌, refl, some, true, false, List, [], ◌∷◌, ◌++◌, KeyEq, arith, Bool-cases, Option-cases,
  inl, inr, same_refl, ◌∙◌, text_key, ap, sym,
}
use mathlib.Core.Path.{fun_ext}
use alpha_whales.Journal.{
  Result, ok, err, ◌>>=◌, ok_or, Codec, ExecutionJournalRecord, Reservation, reserved, accepted,
  contains, read_reservation, read_acceptance, read_record, read_line, read_lines,
  execution_journal,
}

pub >>=-eq-ok {ℓ κ} :
    {A : Type ℓ} {B : Type κ} (m : Result A) (f : A → Result B) (b : B)
    → (m >>= f) ≡ ok b
    → (a : A) × (m ≡ ok a) × (f a ≡ ok b)
>>=-eq-ok (ok a) f b h = (a, refl, h)
>>=-eq-ok (err e) f b h = cc

bind_ok : {A : Type 0} (m : Result A) → (m >>= λ a. ok a) ≡ m
bind_ok (ok a) = refl
bind_ok (err e) = refl

bind_assoc :
    {A B C : Type 0} (m : Result A) (f : A → Result B) (g : B → Result C)
    → ((m >>= f) >>= g) ≡ (m >>= λ a. f a >>= g)
bind_assoc (ok a) f g = refl
bind_assoc (err e) f g = refl

module _ {K Line : Type 0} ⦃key : KeyEq K⦄ (codec : Codec K Line) where
  pub read_lines-append :
      (seen : List K × ℕ) (xs ys : List Line)
      → read_lines codec seen (xs ++ ys)
        ≡ (read_lines codec seen xs >>= λ next. read_lines codec next ys)
  unfolding read_lines
  read_lines-append seen [] ys = refl
  read_lines-append seen (x ∷ xs) ys =
      ap (λ (f : List K × ℕ → Result (List K × ℕ)). read_line codec seen x >>= f)
        (fun_ext (λ next. read_lines-append next xs ys))
      ∙ sym (bind_assoc (read_line codec seen x) _ _)

  -- A written line reads as its record.
  pub read_line-encode :
      (seen : List K × ℕ) (r : ExecutionJournalRecord)
      → read_line codec seen (codec.encode r) ≡ read_record codec seen r
  unfolding read_line
  read_line-encode seen r = rw (codec.is_blank-encode r, codec.decode-encode r) refl

  read_lines-single :
      (seen : List K × ℕ) (r : ExecutionJournalRecord)
      → read_lines codec seen (codec.encode r ∷ []) ≡ read_record codec seen r
  unfolding read_lines
  read_lines-single seen r = rw read_line-encode (bind_ok (read_record codec seen r))

  pub read_lines-snoc :
      (lines : List Line) (r : ExecutionJournalRecord) (start seen : List K × ℕ)
      → read_lines codec start lines ≡ ok seen
      → read_lines codec start (lines ++ codec.encode r ∷ []) ≡ read_record codec seen r
  read_lines-snoc lines r start seen h =
      read_lines-append start lines (codec.encode r ∷ []) ∙ rw h (read_lines-single seen r)

  -- A reservation that is read has a new mint, and adds its mint and its capital.
  read_reservation_ok :
      (seen next : List K × ℕ) (r : Reservation)
      → read_reservation codec seen r ≡ ok next
      → (k : K) × (codec.from_str r.target_mint ≡ some k)
        × (contains k seen.0 ≡ false)
        × (next ≡ (k ∷ seen.0, seen.1 + r.capital_at_risk_lamports))
  read_reservation_ok (mints, capital) next r h =
      elim (Option-cases (codec.from_str r.target_mint)) [
        | inl e ↦ absurd (unfold read_reservation in ground arith)
        | inr (k, e) ↦ (
          k,
          e,
          (unfold read_reservation in ground arith),
          (unfold read_reservation in ground arith),
        )
      ]

  contains-read_record :
      (seen next : List K × ℕ) (r : ExecutionJournalRecord) (k : K)
      → read_record codec seen r ≡ ok next
      → contains k seen.0 ≡ true
      → contains k next.0 ≡ true
  contains-read_record seen next (reserved r) k h c =
      let (j, e, new, same) = read_reservation_ok seen next r (unfold read_record in h) in
      rw same (unfold contains in ground arith)
  contains-read_record seen next (accepted a) k h c =
      unfold read_record read_acceptance in ground arith

  contains-read_line :
      (seen next : List K × ℕ) (line : Line) (k : K)
      → read_line codec seen line ≡ ok next
      → contains k seen.0 ≡ true
      → contains k next.0 ≡ true
  contains-read_line seen next line k h c = elim (Bool-cases (codec.is_blank line)) [
    | inl blank ↦ unfold read_line in ground arith
    | inr full ↦
        let (r, d, e) =
          >>=-eq-ok (ok_or (codec.decode line) execution_journal) (read_record codec seen) next
            (unfold read_line in rw full at h) in
        contains-read_record seen next r k e c
  ]

  -- Reading on never loses a mint.
  pub contains-read_lines :
      (lines : List Line) (seen next : List K × ℕ) (k : K)
      → read_lines codec seen lines ≡ ok next
      → contains k seen.0 ≡ true
      → contains k next.0 ≡ true
  unfolding read_lines
  contains-read_lines [] seen next k h c = ground arith
  contains-read_lines (line ∷ lines) seen next k h c =
      let (mid, e, rest) =
        >>=-eq-ok (read_line codec seen line) (λ s. read_lines codec s lines) next h in
      contains-read_lines lines mid next k rest (contains-read_line seen mid line k e c)

  reserved_now :
      (seen next : List K × ℕ) (r : Reservation) (k : K)
      → codec.from_str r.target_mint ≡ some k
      → read_record codec seen (reserved r) ≡ ok next
      → contains k next.0 ≡ true
  reserved_now seen next r k known h =
      let (j, e, new, same) = read_reservation_ok seen next r (unfold read_record in h) in
      rw same (unfold contains in ground (arith, same_refl k, key.same_iff j k))

  -- Whatever stands before and after a reservation in a journal that can be read, its mint is
  -- among those that are read.
  pub reserved_is_read :
      (front back : List Line) (r : Reservation) (k : K) (start next : List K × ℕ)
      → codec.from_str r.target_mint ≡ some k
      → read_lines codec start (front ++ codec.encode (reserved r) ∷ back) ≡ ok next
      → contains k next.0 ≡ true
  unfolding read_lines
  reserved_is_read front back r k start next known h =
      let (mid, e, rest) =
        >>=-eq-ok (read_lines codec start front)
          (λ s. read_lines codec s (codec.encode (reserved r) ∷ back)) next
          (sym (read_lines-append start front (codec.encode (reserved r) ∷ back)) ∙ h) in
      let (after, read, rest') =
        >>=-eq-ok (read_line codec mid (codec.encode (reserved r))) (λ s. read_lines codec s back)
          next rest in
      contains-read_lines back after next k rest'
        (reserved_now mid after r k known (sym (read_line-encode mid (reserved r)) ∙ read))
