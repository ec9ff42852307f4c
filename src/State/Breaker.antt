-- ===== src/State/Breaker.antt =====
-- The circuit breaker: three losses in a row pause trading for thirty minutes from the first poll.
use alpha_whales.Common.{
  ℕ, zero, suc, ◌+◌, ◌-◌, ◌≤◌, ◌<◌, ◌≡◌, ◌↔◌, refl, Option, none, some, List, [], ◌∷◌, String,
  length, arith, true, false, All, u64_mod,
}
use alpha_whales.State.{
  Semaphore, BotState, try_lock_mint, unlock_mint, is_circuit_breaker_active, drop_permit,
  retain_shadow_position, release_shadow_position, prune_expired_shadow_positions,
  try_acquire_position, with_semaphore, circuit_breaker_cooldown, circuit_breaker_threshold,
}
use alpha_whales.State.Trace.{
  World, Call, acquire, drop_held, retain_shadow, release_shadow, prune_shadows, lock, unlock,
  poll_breaker, win, loss, record_win, record_loss, step, run, give, after_acquire,
}

module _ {S : Type 0} where
  poll_pauses :
      (b : BotState S) (now : ℕ) (o : Option ℕ)
      → b.circuit_breaker_tripped_at ≡ o
      → circuit_breaker_threshold ≤ b.consecutive_losses
      → ((t : ℕ) → o ≡ some t → now - t < circuit_breaker_cooldown)
      → (is_circuit_breaker_active b now).1 ≡ true
  unfolding is_circuit_breaker_active
  poll_pauses b now none e h k = ground arith
  poll_pauses b now (some t) e h k = ground (arith, k t refl)

  poll_recent :
      (b : BotState S) (now t : ℕ)
      → (is_circuit_breaker_active b now).1 ≡ true
      → b.circuit_breaker_tripped_at ≡ some t
      → now - t < circuit_breaker_cooldown
  unfolding is_circuit_breaker_active
  poll_recent b now t h e = ground arith

  poll_losses :
      (b : BotState S) (now : ℕ)
      → (is_circuit_breaker_active b now).1 ≡ true
      → circuit_breaker_threshold ≤ b.consecutive_losses
  unfolding is_circuit_breaker_active
  poll_losses b now h = ground arith

  poll_resumes :
      (b : BotState S) (now : ℕ)
      → (is_circuit_breaker_active b now).1 ≡ false
      → ((is_circuit_breaker_active b now).0.consecutive_losses < circuit_breaker_threshold)
        × ((is_circuit_breaker_active b now).0.circuit_breaker_tripped_at ≡ none)
  unfolding is_circuit_breaker_active
  poll_resumes b now h = ground arith

  -- A poll pauses trading exactly when there are three losses or more and no trip that is thirty
  -- minutes old; a poll that lets trading go on leaves fewer than three losses and no trip.
  pub poll_iff :
      (b : BotState S) (now : ℕ)
      → let (b', paused) = is_circuit_breaker_active b now in
        ((paused ≡ true) ↔ (
          (circuit_breaker_threshold ≤ b.consecutive_losses)
          × ((t : ℕ) → b.circuit_breaker_tripped_at ≡ some t → now - t < circuit_breaker_cooldown)))
        × (paused ≡ false
            → (b'.consecutive_losses < circuit_breaker_threshold)
              × (b'.circuit_breaker_tripped_at ≡ none))
  poll_iff b now = (
    (
      (λ h. (poll_losses b now h, λ t. poll_recent b now t h)),
      (λ h. poll_pauses b now b.circuit_breaker_tripped_at refl h.0 h.1),
    ),
    poll_resumes b now,
  )

-- No win, and every poll is within thirty minutes of `t`.
abbrev pub Losing : ℕ → Call → Type 0
Losing t win = ⊥
Losing t (poll_breaker now) = now - t < circuit_breaker_cooldown
Losing t _ = Unit

-- The breaker has tripped at `t`, with room for `n` more losses before the counter wraps.
pub record Tripped {S : Type 0} (b : BotState S) (t n : ℕ) : Type 0 where
  pub tripped : b.circuit_breaker_tripped_at ≡ some t
  pub lost : circuit_breaker_threshold ≤ b.consecutive_losses
  pub room : b.consecutive_losses + n < u64_mod

module _ {S : Type 0} (sem : Semaphore S) where
  poll-Tripped :
      (b : BotState S) (t n now : ℕ)
      → now - t < circuit_breaker_cooldown
      → Tripped b t n
      → Tripped (is_circuit_breaker_active b now).0 t n
  unfolding is_circuit_breaker_active
  poll-Tripped b t n now h i = ground (arith, i.tripped)

  lock-Tripped :
      (b : BotState S) (t n : ℕ) (mint : String) (now : ℕ)
      → Tripped b t n
      → Tripped (try_lock_mint b mint now).0 t n
  unfolding try_lock_mint
  lock-Tripped b t n mint now i = ground arith

  retain_shadow-Tripped :
      (b : BotState S) (t n : ℕ) (mint : String) (ms : ℕ)
      → Tripped b t n
      → Tripped (retain_shadow_position sem b mint ms).0 t n
  unfolding retain_shadow_position
  retain_shadow-Tripped b t n mint ms i = ground arith

  acquire-Tripped :
      (w : World S) (o : Option S) (t n : ℕ)
      → Tripped w.bot t n
      → Tripped (after_acquire sem w (with_semaphore sem w.bot o)).bot t n
  acquire-Tripped w none t n i = i
  acquire-Tripped w (some s) t n i = record { tripped = i.tripped; lost = i.lost; room = i.room }

  give-Tripped :
      (h : ℕ) (w : World S) (f : BotState S → BotState S) (t n : ℕ)
      → Tripped w.bot t n
      → Tripped (f w.bot) t n
      → Tripped (give sem h w f).bot t n
  give-Tripped zero w f t n i j = i
  give-Tripped (suc h) w f t n i j = j

  less_room : {b : BotState S} {t n : ℕ} → Tripped b t (suc n) → Tripped b t n
  less_room i = record { tripped = i.tripped; lost = i.lost; room = omega (arith, i.room) }

  step-Tripped :
      (w : World S) (c : Call) (t n : ℕ)
      → Losing t c
      → Tripped w.bot t (suc n)
      → Tripped (step sem w c).bot t n
  unfolding step unlock_mint release_shadow_position prune_expired_shadow_positions record_win
      record_loss drop_permit try_acquire_position
  step-Tripped w acquire t n q i = acquire-Tripped w _ t n (less_room i)
  step-Tripped w drop_held t n q i =
      give-Tripped w.held w (drop_permit sem) t n (less_room i)
        (record { tripped = i.tripped; lost = i.lost; room = omega (arith, i.room) })
  step-Tripped w (retain_shadow mint ms) t n q i =
      give-Tripped w.held w _ t n (less_room i)
        (retain_shadow-Tripped w.bot t n mint ms (less_room i))
  step-Tripped w (release_shadow mint) t n q i = record {
    tripped = i.tripped;
    lost = i.lost;
    room = omega (arith, i.room);
  }
  step-Tripped w (prune_shadows ms) t n q i = record {
    tripped = i.tripped;
    lost = i.lost;
    room = omega (arith, i.room);
  }
  step-Tripped w (lock mint now) t n q i = lock-Tripped w.bot t n mint now (less_room i)
  step-Tripped w (unlock mint) t n q i = record {
    tripped = i.tripped;
    lost = i.lost;
    room = omega (arith, i.room);
  }
  step-Tripped w (poll_breaker now) t n q i = poll-Tripped w.bot t n now q (less_room i)
  step-Tripped w win t n q i = elim q [ ]
  step-Tripped w loss t n q i = ground (arith, i.tripped, i.lost, i.room)

  run-Tripped :
      (w : World S) (cs : List Call) (t : ℕ)
      → All (Losing t) cs
      → Tripped w.bot t (length cs)
      → Tripped (run sem w cs).bot t 0
  unfolding run
  run-Tripped w [] t q i = i
  run-Tripped w (c ∷ cs) t q i =
      run-Tripped (step sem w c) cs t q.1 (step-Tripped w c t (length cs) q.0 i)

  trips :
      (b : BotState S) (t n : ℕ)
      → circuit_breaker_threshold ≤ b.consecutive_losses
      → b.circuit_breaker_tripped_at ≡ none
      → b.consecutive_losses + n < u64_mod
      → Tripped (is_circuit_breaker_active b t).0 t n
  unfolding is_circuit_breaker_active
  trips b t n h e r = ground arith

  resumes :
      (b : BotState S) (t now : ℕ)
      → Tripped b t 0
      → circuit_breaker_cooldown ≤ now - t
      → ((is_circuit_breaker_active b now).1 ≡ false)
        × ((is_circuit_breaker_active b now).0.consecutive_losses ≡ 0)
        × ((is_circuit_breaker_active b now).0.circuit_breaker_tripped_at ≡ none)
  unfolding is_circuit_breaker_active
  resumes b t now i h = ground (arith, i.tripped, i.lost)

  -- After three losses in a row the first poll, at time `t`, trips the breaker. From then on, with
  -- whatever calls but a win, no poll after thirty minutes, and too few losses to wrap the counter,
  -- a poll before `t` plus thirty minutes pauses trading; the first poll after that lets it go on,
  -- and starts over with no losses.
  pub pause_lasts :
      (w : World S) (t now : ℕ) (cs : List Call)
      → circuit_breaker_threshold ≤ w.bot.consecutive_losses
      → w.bot.circuit_breaker_tripped_at ≡ none
      → w.bot.consecutive_losses + length cs < u64_mod
      → All (Losing t) cs
      → let (b, paused) =
          is_circuit_breaker_active (run sem (step sem w (poll_breaker t)) cs).bot now in
        (now - t < circuit_breaker_cooldown → paused ≡ true)
        × (circuit_breaker_cooldown ≤ now - t
            → (paused ≡ false) × (b.consecutive_losses ≡ 0) × (b.circuit_breaker_tripped_at ≡ none))
  pause_lasts w t now cs lost fresh room q =
      let i =
        run-Tripped (step sem w (poll_breaker t)) cs t q
          (unfold step in trips w.bot t (length cs) lost fresh room) in
      ((λ h. poll_pauses _ now (some t) i.tripped i.lost (λ s e. ground arith)), resumes _ t now i)
