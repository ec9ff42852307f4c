-- ===== src/Consumer/Gates.antt =====
-- What a rejected signal leaves behind: its permit is given back, and its mint is unlocked, but for
-- the gate of the signal's age.
use alpha_whales.Common.{
  ℕ, ◌+◌, ◌/◌, ◌≡◌, refl, sym, subst, ap, Option, none, some, Bool, true, false, String, KeyEq,
  text_key, number_key, same_refl, if◌then◌else◌, arith, inl, inr, Bool-cases,
}
use alpha_whales.Common.Checked.{ok, err, Checked-cases}
use alpha_whales.Common.Maps.{contains_key, retain, get-remove, get-insert}
use alpha_whales.State.{
  Semaphore, BotState, is_circuit_breaker_active, try_acquire_position, with_semaphore, is_younger,
  try_lock_mint, unlock_mint, has_traded_mint, drop_permit,
}
use alpha_whales.Tipping.{TipTelemetryEngine, TipDecision, bid, skip, calculate_tip}
use alpha_whales.Dispatch.{BundleDispatcher, OpportunityDeduplicator, take_tip_account, try_acquire}
use alpha_whales.Execution.Config.{ensure_signal_fresh}
use alpha_whales.Journal.{Codec, Disk, ExecutionJournal, contains, Result}
use alpha_whales.Journal.Reserve.{reserve}
use alpha_whales.Consumer.{
  WhaleSignal, Signed, Build, Answers, Verdict, Shop, unresolved, swap_without_blockhash,
  swap_not_signed, swap_signed, pump_failed, pump_not_signed, pump_signed, paused, invalid_mint,
  bought, full, locked, tip_skipped, build_failed, no_tip_account, stale, duplicate, not_reserved,
  reserved, panicked, leave, unlock_and_leave, purchase, opportunity, after_reserve, reserve_gate,
  signed_gate, swap_gate, pump_gate, build_gate, tip_gate, lock_gate, position_gate, mint_gate,
  breaker_gate, consider,
}

-- How many permits the turn gives back after it has taken one.
abbrev pub freed : Verdict → ℕ
freed reserved = 0
freed _ = 1

-- Whether the turn keeps a permit, which goes to the watcher.
abbrev pub taken : Verdict → ℕ
taken reserved = 1
taken _ = 0

abbrev pub is_past_lock : Verdict → Bool
is_past_lock paused = false
is_past_lock invalid_mint = false
is_past_lock bought = false
is_past_lock full = false
is_past_lock locked = false
is_past_lock _ = true

-- Whether the mint is still locked, after it has been locked.
abbrev pub stays_locked : Verdict → Bool
stays_locked stale = true
stays_locked reserved = true
stays_locked panicked = true
stays_locked _ = false

module _ {S K Line : Type 0} ⦃key : KeyEq K⦄ (sem : Semaphore S) (codec : Codec K Line)
    (engine : TipTelemetryEngine) (max_signal_age tip_lamports : ℕ) where
  abbrev pub available : Shop S K Line → ℕ
  available w = sem.available_permits w.bot.position_semaphore

  -- The mint is locked and n permits are available.
  abbrev pub IsInside : WhaleSignal → ℕ → Shop S K Line → Type 0
  IsInside s n w = (available w ≡ n) × (has_traded_mint w.bot s.target_mint ≡ true)

  abbrev pub IsSettled : WhaleSignal → ℕ → Shop S K Line × Verdict → Type 0
  IsSettled s n r =
      (available r.0 ≡ n + freed r.1) × (has_traded_mint r.0.bot s.target_mint ≡ stays_locked r.1)

  leave-IsSettled :
      (s : WhaleSignal) (n : ℕ) (w : Shop S K Line) (v : Verdict)
      → IsInside s n w
      → freed v ≡ 1
      → stays_locked v ≡ true
      → IsSettled s n (leave sem codec engine max_signal_age tip_lamports w v)
  unfolding leave drop_permit has_traded_mint
  leave-IsSettled s n w v h f l =
      (omega (arith, sem.available-release w.bot.position_semaphore, h.0, f), cc (h.1, l))

  unlock-IsSettled :
      (s : WhaleSignal) (n : ℕ) (w : Shop S K Line) (v : Verdict)
      → IsInside s n w
      → freed v ≡ 1
      → stays_locked v ≡ false
      → IsSettled s n (unlock_and_leave sem codec engine max_signal_age tip_lamports w s v)
  unfolding unlock_and_leave leave drop_permit unlock_mint has_traded_mint contains_key
  unlock-IsSettled s n w v h f l = (
    omega (arith, sem.available-release w.bot.position_semaphore, h.0, f),
    ground (
      arith,
      get-remove s.target_mint s.target_mint w.bot.traded_mints,
      same_refl s.target_mint,
      l,
    ),
  )

  reserve-IsSettled :
      (s : WhaleSignal) (n : ℕ) (w : Shop S K Line)
      (r : ExecutionJournal K × Disk Line × Result (Unit {0}))
      → IsInside s n w
      → IsSettled s n (after_reserve sem codec engine max_signal_age tip_lamports w s r)
  reserve-IsSettled s n w (j, disk, ok done) h = (omega (arith, h.0), h.1)
  reserve-IsSettled s n w (j, disk, err e) h =
      unlock-IsSettled s n (record w { journal = j; disk = disk }) not_reserved h refl refl

  reserve_gate-IsSettled :
      (s : WhaleSignal) (n : ℕ) (w : Shop S K Line) (a : Answers K Line) (b : Signed K)
      (d : OpportunityDeduplicator × Bool)
      → IsInside s n w
      → IsSettled s n (reserve_gate sem codec engine max_signal_age tip_lamports w s a b d)
  unfolding reserve_gate
  reserve_gate-IsSettled s n w a b (d, false) h = unlock-IsSettled s n w duplicate h refl refl
  reserve_gate-IsSettled s n w a b (d, true) h =
      reserve-IsSettled s n (record w { dispatcher = record w.dispatcher { deduplicator = d } })
        (reserve codec w.journal w.disk (purchase sem codec engine max_signal_age tip_lamports s b)
          a.written a.outcome)
        h

  signed_gate-IsSettled :
      (s : WhaleSignal) (n : ℕ) (w : Shop S K Line) (a : Answers K Line) (b : Signed K)
      → IsInside s n w
      → IsSettled s n (signed_gate sem codec engine max_signal_age tip_lamports w s a b)
  unfolding signed_gate
  signed_gate-IsSettled s n w a b h =
      elim (Checked-cases (ensure_signal_fresh s.timestamp_ms a.wall_now_ms max_signal_age)) [
        | inl (fresh, e) ↦
            rw (e, signed_gate)
              (reserve_gate-IsSettled s n w a b
                (try_acquire w.dispatcher.deduplicator
                  (opportunity sem codec engine max_signal_age tip_lamports s))
                h)
        | inr (old, e) ↦ rw (e, signed_gate) (leave-IsSettled s n w stale h refl refl)
      ]

  swap_gate-IsSettled :
      (s : WhaleSignal) (n : ℕ) (w : Shop S K Line) (a : Answers K Line) (b : Option (Signed K))
      (t : BundleDispatcher K × Option K)
      → IsInside s n w
      → IsSettled s n (swap_gate sem codec engine max_signal_age tip_lamports w s a b t)
  unfolding swap_gate
  swap_gate-IsSettled s n w a b (d, none) h =
      unlock-IsSettled s n (record w { dispatcher = d }) no_tip_account h refl refl
  swap_gate-IsSettled s n w a none (d, some account) h =
      unlock-IsSettled s n (record w { dispatcher = d }) build_failed h refl refl
  swap_gate-IsSettled s n w a (some b) (d, some account) h =
      signed_gate-IsSettled s n (record w { dispatcher = d }) a b h

  pump_gate-IsSettled :
      (s : WhaleSignal) (n : ℕ) (w : Shop S K Line) (a : Answers K Line) (b : Option (Signed K))
      (t : BundleDispatcher K × Option K)
      → IsInside s n w
      → IsSettled s n (pump_gate sem codec engine max_signal_age tip_lamports w s a b t)
  unfolding pump_gate
  pump_gate-IsSettled s n w a b (d, none) h =
      leave-IsSettled s n (record w { dispatcher = d }) panicked h refl refl
  pump_gate-IsSettled s n w a none (d, some account) h =
      unlock-IsSettled s n (record w { dispatcher = d }) build_failed h refl refl
  pump_gate-IsSettled s n w a (some b) (d, some account) h =
      signed_gate-IsSettled s n (record w { dispatcher = d }) a b h

  build_gate-IsSettled :
      (s : WhaleSignal) (n : ℕ) (w : Shop S K Line) (a : Answers K Line) (b : Build K)
      → IsInside s n w
      → IsSettled s n (build_gate sem codec engine max_signal_age tip_lamports w s a b)
  unfolding build_gate
  build_gate-IsSettled s n w a unresolved h = unlock-IsSettled s n w build_failed h refl refl
  build_gate-IsSettled s n w a swap_without_blockhash h =
      swap_gate-IsSettled s n w a none (take_tip_account w.dispatcher) h
  build_gate-IsSettled s n w a swap_not_signed h =
      swap_gate-IsSettled s n w a none (take_tip_account w.dispatcher) h
  build_gate-IsSettled s n w a (swap_signed b) h =
      swap_gate-IsSettled s n w a (some b) (take_tip_account w.dispatcher) h
  build_gate-IsSettled s n w a pump_failed h = unlock-IsSettled s n w build_failed h refl refl
  build_gate-IsSettled s n w a pump_not_signed h =
      pump_gate-IsSettled s n w a none (take_tip_account w.dispatcher) h
  build_gate-IsSettled s n w a (pump_signed b) h =
      pump_gate-IsSettled s n w a (some b) (take_tip_account w.dispatcher) h

  tip_gate-IsSettled :
      (s : WhaleSignal) (n : ℕ) (w : Shop S K Line) (a : Answers K Line) (t : TipDecision)
      → IsInside s n w
      → IsSettled s n (tip_gate sem codec engine max_signal_age tip_lamports w s a t)
  tip_gate-IsSettled s n w a (skip reason) h = unlock-IsSettled s n w tip_skipped h refl refl
  tip_gate-IsSettled s n w a (bid lamports age) h = build_gate-IsSettled s n w a a.build h

  -- The permits are accounted for, and behind the lock the mint is as the verdict says.
  abbrev pub IsDone : WhaleSignal → ℕ → Shop S K Line × Verdict → Type 0
  IsDone s m r =
      (available r.0 + taken r.1 ≡ m)
      × ((if is_past_lock r.1 then has_traded_mint r.0.bot s.target_mint else stays_locked r.1)
          ≡ stays_locked r.1)

  settled-IsDone :
      (s : WhaleSignal) (n : ℕ) (r : Shop S K Line × Verdict) → IsSettled s n r → IsDone s (n + 1) r
  settled-IsDone s n (w, v) h = (ground (arith, h.0), ground (arith, h.1))

  lock_gate-IsDone :
      (s : WhaleSignal) (n : ℕ) (w : Shop S K Line) (a : Answers K Line) (t : BotState S × Bool)
      → sem.available_permits t.0.position_semaphore ≡ n
      → (t.1 ≡ true → has_traded_mint t.0 s.target_mint ≡ true)
      → IsDone s (n + 1) (lock_gate sem codec engine max_signal_age tip_lamports w s a t)
  unfolding leave drop_permit
  lock_gate-IsDone s n w a (b, false) e k =
      (omega (arith, sem.available-release b.position_semaphore, e), refl)
  lock_gate-IsDone s n w a (b, true) e k =
      settled-IsDone s n
        (tip_gate sem codec engine max_signal_age tip_lamports (record w { bot = b }) s a
          (calculate_tip engine (s.amount_in / 100) a.tip_now))
        (tip_gate-IsSettled s n (record w { bot = b }) a
          (calculate_tip engine (s.amount_in / 100) a.tip_now) (e, k refl))

  lock_facts :
      (b : BotState S) (mint : String) (now : ℕ)
      → let t = try_lock_mint b mint now in
        (t.0.position_semaphore ≡ b.position_semaphore)
        × (t.1 ≡ true → has_traded_mint t.0 mint ≡ true)
  unfolding try_lock_mint has_traded_mint contains_key
  lock_facts b mint now = (
    ground arith,
    (λ h. ground (
      arith,
      get-insert mint mint now (retain (is_younger now) b.traded_mints),
      same_refl mint,
      h,
    )),
  )

  after_acquire :
      (s : WhaleSignal) (w : Shop S K Line) (a : Answers K Line) (o : Option S)
      → sem.try_acquire_owned w.bot.position_semaphore ≡ o
      → IsDone s (available w) (
          position_gate sem codec engine max_signal_age tip_lamports w s a
            (with_semaphore sem w.bot o))
  after_acquire s w a none e = (omega arith, refl)
  after_acquire s w a (some t) e =
      let b : BotState S = record w.bot { position_semaphore = t } in
      let facts = lock_facts b s.target_mint a.lock_now in
      subst
        (λ (m : ℕ). IsDone s m (
          lock_gate sem codec engine max_signal_age tip_lamports w s a
            (try_lock_mint b s.target_mint a.lock_now)))
        (sym (sem.available-acquire w.bot.position_semaphore t e))
        (lock_gate-IsDone s (sem.available_permits t) w a (try_lock_mint b s.target_mint a.lock_now)
          (ap (λ (x : S). sem.available_permits x) facts.0) facts.1)

  position_gate-IsDone :
      (s : WhaleSignal) (w : Shop S K Line) (a : Answers K Line)
      → IsDone s (available w) (
          position_gate sem codec engine max_signal_age tip_lamports w s a
            (try_acquire_position sem w.bot))
  unfolding try_acquire_position
  position_gate-IsDone s w a =
      after_acquire s w a (sem.try_acquire_owned w.bot.position_semaphore) refl

  breaker_keeps :
      (b : BotState S) (now : ℕ)
      → (is_circuit_breaker_active b now).0.position_semaphore ≡ b.position_semaphore
  unfolding is_circuit_breaker_active
  breaker_keeps b now = ground arith

  mint_gate-IsDone :
      (s : WhaleSignal) (w : Shop S K Line) (a : Answers K Line) (o : Option K)
      → IsDone s (available w) (mint_gate sem codec engine max_signal_age tip_lamports w s a o)
  mint_gate-IsDone s w a none = (omega arith, refl)
  mint_gate-IsDone s w a (some mint) = elim (Bool-cases (contains mint w.journal.reserved_mints)) [
    | inl held ↦ rw held (omega arith, refl)
    | inr new ↦ rw new (position_gate-IsDone s w a)
  ]

  breaker_gate-IsDone :
      (s : WhaleSignal) (w : Shop S K Line) (a : Answers K Line) (t : BotState S × Bool)
      → t.0.position_semaphore ≡ w.bot.position_semaphore
      → IsDone s (available w) (breaker_gate sem codec engine max_signal_age tip_lamports w s a t)
  breaker_gate-IsDone s w a (b, true) e = (ground (arith, e), refl)
  breaker_gate-IsDone s w a (b, false) e =
      subst
        (λ (m : ℕ).
          IsDone s m (breaker_gate sem codec engine max_signal_age tip_lamports w s a (b, false)))
        (ap (λ (x : S). sem.available_permits x) e)
        (mint_gate-IsDone s (record w { bot = b }) a (codec.from_str s.target_mint))

  -- A signal that is not reserved gives back every permit that it took, and a reservation keeps
  -- exactly one. At each gate behind the lock of the mint a rejected signal unlocks its mint again,
  -- but for the gate of its age after signing and the panic of a missing tip account, where, as
  -- after a reservation, the mint stays locked.
  pub consider-IsDone :
      (s : WhaleSignal) (w : Shop S K Line) (a : Answers K Line)
      → IsDone s (available w) (consider sem codec engine max_signal_age tip_lamports w s a)
  unfolding consider
  consider-IsDone s w a =
      breaker_gate-IsDone s w a (is_circuit_breaker_active w.bot a.breaker_now)
        (breaker_keeps w.bot a.breaker_now)
