-- ===== src/State/Permits.antt =====
-- The concurrency cap: no permit is lost or made up.
use alpha_whales.Common.{
  ℕ, zero, suc, ◌+◌, ◌-◌, ◌≤◌, ◌≡◌, refl, Option, none, some, List, [], ◌∷◌, String, length, arith,
  ◌∙◌, ◌↔◌, Option-cases, inl, inr, text_key,
}
use alpha_whales.Common.Maps.{Map, length-insert_new, length-remove-le, length-retain-le}
use alpha_whales.State.{
  Semaphore, BotState, ShadowPosition, max_concurrent_positions, new_state, try_lock_mint,
  unlock_mint, is_circuit_breaker_active, try_acquire_position, with_semaphore, drop_permit,
  drop_permits, retain_shadow_position, keep_shadows, release_shadow_position,
  prune_expired_shadow_positions, open_position_count, shadow_position_count, is_live,
}
use alpha_whales.State.Trace.{
  World, Call, acquire, drop_held, retain_shadow, release_shadow, prune_shadows, lock, unlock,
  poll_breaker, win, loss, record_win, record_loss, step, run, start, give, after_acquire,
}

module _ {S : Type 0} (sem : Semaphore S) where
  available-drop_permits :
      (n : ℕ) (s : S) → sem.available_permits (drop_permits sem n s) ≡ sem.available_permits s + n
  unfolding drop_permits
  available-drop_permits zero s = omega arith
  available-drop_permits (suc n) s =
      omega (arith, available-drop_permits n s, sem.available-release (drop_permits sem n s))

  -- Permits available, owned by tasks, and owned by shadow positions.
  abbrev total : World S → ℕ
  total w = sem.available_permits w.bot.position_semaphore + w.held + length w.bot.shadow_positions

  lock-total :
      (b : BotState S) (mint : String) (now : ℕ)
      → ((try_lock_mint b mint now).0.position_semaphore ≡ b.position_semaphore)
        × ((try_lock_mint b mint now).0.shadow_positions ≡ b.shadow_positions)
  unfolding try_lock_mint
  lock-total b mint now = ground arith

  poll-total :
      (b : BotState S) (now : ℕ)
      → ((is_circuit_breaker_active b now).0.position_semaphore ≡ b.position_semaphore)
        × ((is_circuit_breaker_active b now).0.shadow_positions ≡ b.shadow_positions)
  unfolding is_circuit_breaker_active
  poll-total b now = ground arith

  acquire-total :
      (w : World S) (o : Option S)
      → sem.try_acquire_owned w.bot.position_semaphore ≡ o
      → total (after_acquire sem w (with_semaphore sem w.bot o)) ≡ total w
  acquire-total w none h = refl
  acquire-total w (some s) h = omega (arith, sem.available-acquire w.bot.position_semaphore s h)

  retain_shadow-total :
      (b : BotState S) (mint : String) (ms h : ℕ)
      → total (record { bot = (retain_shadow_position sem b mint ms).0; held = h })
        ≡ total (record { bot = b; held = suc h })
  unfolding retain_shadow_position
  retain_shadow-total b mint ms h = ground (
    arith,
    sem.available-release b.position_semaphore,
    length-insert_new mint (record { opened_at_ms = ms }) b.shadow_positions,
  )

  keep_shadows-total :
      (b : BotState S) (kept : Map String ShadowPosition) (h : ℕ)
      → length kept ≤ length b.shadow_positions
      → total (record { bot = keep_shadows sem b kept; held = h })
        ≡ total (record { bot = b; held = h })
  unfolding keep_shadows
  keep_shadows-total b kept h le =
      omega (
        arith,
        available-drop_permits (length b.shadow_positions - length kept) b.position_semaphore,
      )

  give-total :
      (h : ℕ) (w : World S) (f : BotState S → BotState S)
      → w.held ≡ h
      → ((k : ℕ)
          → total (record { bot = f w.bot; held = k })
            ≡ total (record { bot = w.bot; held = suc k }))
      → total (give sem h w f) ≡ total w
  give-total zero w f e k = refl
  give-total (suc h) w f e k = omega (arith, k h)

  step-total : (w : World S) (c : Call) → total (step sem w c) ≡ total w
  unfolding step try_acquire_position drop_permit unlock_mint release_shadow_position record_win
      record_loss prune_expired_shadow_positions
  step-total w acquire = acquire-total w (sem.try_acquire_owned w.bot.position_semaphore) refl
  step-total w drop_held =
      give-total w.held w (drop_permit sem) refl
        (λ k. omega (arith, sem.available-release w.bot.position_semaphore))
  step-total w (retain_shadow mint ms) =
      give-total w.held w _ refl (retain_shadow-total w.bot mint ms)
  step-total w (release_shadow mint) =
      keep_shadows-total w.bot _ w.held (length-remove-le mint w.bot.shadow_positions)
  step-total w (prune_shadows ms) =
      keep_shadows-total w.bot _ w.held (length-retain-le (is_live ms) w.bot.shadow_positions)
  step-total w (lock mint now) = ground (arith, lock-total w.bot mint now)
  step-total w (unlock mint) = refl
  step-total w (poll_breaker now) = ground (arith, poll-total w.bot now)
  step-total w win = refl
  step-total w loss = refl

  run-total : (w : World S) (cs : List Call) → total (run sem w cs) ≡ total w
  unfolding run
  run-total w [] = refl
  run-total w (c ∷ cs) = run-total (step sem w c) cs ∙ step-total w c

  -- After any history of a new state, the permits that are available, those that tasks own and
  -- those of the shadow positions are three together; so `open_position_count` is exactly the
  -- number of positions that tasks and shadow positions hold, and at most three.
  pub run-permits :
      (cs : List Call)
      → let w = run sem (start sem) cs in
        (sem.available_permits w.bot.position_semaphore + w.held + shadow_position_count w.bot
          ≡ max_concurrent_positions)
        × (open_position_count sem w.bot ≡ w.held + shadow_position_count w.bot)
        × (w.held + shadow_position_count w.bot ≤ max_concurrent_positions)
  unfolding start new_state open_position_count shadow_position_count
  run-permits cs =
      omega (arith, run-total (start sem) cs, sem.available-new max_concurrent_positions)

  -- After any history of a new state, a position is refused exactly when three are open.
  pub acquire-refused :
      (cs : List Call)
      → let w = run sem (start sem) cs in
        (try_acquire_position sem w.bot ≡ none)
        ↔ (w.held + shadow_position_count w.bot ≡ max_concurrent_positions)
  unfolding try_acquire_position
  acquire-refused cs =
      let w = run sem (start sem) cs in
      let o = sem.try_acquire_owned w.bot.position_semaphore in
      elim (Option-cases o) [
        | inl e ↦
            rw e (ground (arith, run-permits cs, sem.acquire_fails w.bot.position_semaphore e))
        | inr (s, e) ↦
            rw e
              (ground (arith, run-permits cs, sem.available-acquire w.bot.position_semaphore s e))
      ]
