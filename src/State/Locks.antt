-- ===== src/State/Locks.antt =====
-- The duplicate-mint guard: one entry into a mint in four hours, unless it is unlocked.
use alpha_whales.Common.{
  ℕ, zero, suc, ◌-◌, ◌≤◌, ◌<◌, ◌≡◌, ◌≢◌, ◌↔◌, sym, subst, refl, Option, none, some, List, [], ◌∷◌,
  String, arith, true, false, text_key, not, All, is_some,
}
use alpha_whales.Common.Maps.{
  get, contains_key, remove, retain, get-insert, get-remove, get-retain, get-retain_keep, Unique,
  insert-Unique, remove-Unique, retain-Unique, keep_if,
}
use alpha_whales.State.{
  Semaphore, BotState, new_state, try_lock_mint, unlock_mint, mint_ttl, is_younger,
  is_circuit_breaker_active, drop_permit, retain_shadow_position, release_shadow_position,
  prune_expired_shadow_positions, try_acquire_position, with_semaphore,
}
use alpha_whales.State.Trace.{
  World, Call, acquire, drop_held, retain_shadow, release_shadow, prune_shadows, lock, unlock,
  poll_breaker, win, loss, record_win, record_loss, step, run, start, give, after_acquire,
}
use text.Mathlib.TextEquality.{eq_iff}

expired_iff :
    (now : ℕ) (o : Option ℕ)
    → (not (is_some (keep_if (is_younger now) o)) ≡ true)
      ↔ ((t : ℕ) → o ≡ some t → mint_ttl ≤ now - t)
expired_iff now none = ((λ h t e. cc), λ h. refl)
expired_iff now (some s) = ((λ h t e. ground arith), λ h. ground (arith, h s refl))

module _ {S : Type 0} where
  -- A fresh entry makes the attempt fail and stays; else the attempt succeeds and writes one.
  lock_held :
      (b : BotState S) (mint : String) (t now : ℕ)
      → get mint b.traded_mints ≡ some t
      → now - t < mint_ttl
      → ((try_lock_mint b mint now).1 ≡ false)
        × (get mint (try_lock_mint b mint now).0.traded_mints ≡ some t)
  unfolding try_lock_mint contains_key
  lock_held b mint t now e h =
      ground (arith, get-retain_keep (is_younger now) mint b.traded_mints t e (ground arith))

  lock_keeps :
      (b : BotState S) (mint other : String) (t now : ℕ)
      → get mint b.traded_mints ≡ some t
      → now - t < mint_ttl
      → get mint (try_lock_mint b other now).0.traded_mints ≡ some t
  unfolding try_lock_mint contains_key
  lock_keeps b mint other t now e h = ground (
    arith,
    eq_iff other mint,
    get-retain_keep (is_younger now) mint b.traded_mints t e (ground arith),
    get-insert other mint now (retain (is_younger now) b.traded_mints),
  )

  lock_taken :
      (b : BotState S) (mint : String) (now : ℕ)
      → (try_lock_mint b mint now).1 ≡ true
      → get mint (try_lock_mint b mint now).0.traded_mints ≡ some now
  unfolding try_lock_mint
  lock_taken b mint now h =
      ground
        (arith, eq_iff mint mint, get-insert mint mint now (retain (is_younger now) b.traded_mints))

  lock_result :
      (b : BotState S) (mint : String) (now : ℕ)
      → Unique b.traded_mints
      → (try_lock_mint b mint now).1
        ≡ not (is_some (keep_if (is_younger now) (get mint b.traded_mints)))
  unfolding try_lock_mint contains_key
  lock_result b mint now u = ground (arith, get-retain (is_younger now) mint b.traded_mints u)

  try_lock_mint_iff :
      (b : BotState S) (mint : String) (now : ℕ)
      → Unique b.traded_mints
      → ((try_lock_mint b mint now).1 ≡ true)
        ↔ ((t : ℕ) → get mint b.traded_mints ≡ some t → mint_ttl ≤ now - t)
  try_lock_mint_iff b mint now u = rw (lock_result b mint now u) (expired_iff now _)

  lock-Unique :
      (b : BotState S) (mint : String) (now : ℕ)
      → Unique b.traded_mints
      → Unique (try_lock_mint b mint now).0.traded_mints
  unfolding try_lock_mint
  lock-Unique b mint now u = ground (
    arith,
    retain-Unique (is_younger now) b.traded_mints u,
    insert-Unique mint now (retain (is_younger now) b.traded_mints),
  )

  poll-mints :
      (b : BotState S) (now : ℕ) → (is_circuit_breaker_active b now).0.traded_mints ≡ b.traded_mints
  unfolding is_circuit_breaker_active
  poll-mints b now = ground arith

-- The entry of `mint` from time `t` is not unlocked, and no lock is tried four hours after it.
abbrev pub Quiet : String → ℕ → Call → Type 0
Quiet mint t (lock other now) = now - t < mint_ttl
Quiet mint t (unlock other) = (other ≡ mint) → ⊥
Quiet mint t _ = Unit

module _ {S : Type 0} (sem : Semaphore S) where
  acquire-mints :
      (w : World S) (o : Option S)
      → (after_acquire sem w (with_semaphore sem w.bot o)).bot.traded_mints ≡ w.bot.traded_mints
  acquire-mints w none = refl
  acquire-mints w (some s) = refl

  give-mints :
      (h : ℕ) (w : World S) (f : BotState S → BotState S)
      → (f w.bot).traded_mints ≡ w.bot.traded_mints
      → (give sem h w f).bot.traded_mints ≡ w.bot.traded_mints
  give-mints zero w f e = refl
  give-mints (suc h) w f e = e

  retain_shadow-mints :
      (b : BotState S) (mint : String) (ms : ℕ)
      → (retain_shadow_position sem b mint ms).0.traded_mints ≡ b.traded_mints
  unfolding retain_shadow_position
  retain_shadow-mints b mint ms = ground arith

  -- A property of the traded mints that `lock` and `unlock` keep is kept by every call.
  mints_kept {κ} :
      (P : List (String × ℕ) → Type κ) (w : World S) (c : Call)
      → ((mint : String) (now : ℕ)
          → c ≡ lock mint now
          → P (try_lock_mint w.bot mint now).0.traded_mints)
      → ((mint : String) → c ≡ unlock mint → P (remove mint w.bot.traded_mints))
      → P w.bot.traded_mints
      → P (step sem w c).bot.traded_mints
  unfolding step unlock_mint release_shadow_position prune_expired_shadow_positions record_win
      record_loss drop_permit try_acquire_position
  mints_kept P w acquire l u h = subst P (sym (acquire-mints w _)) h
  mints_kept P w drop_held l u h = subst P (sym (give-mints w.held w _ refl)) h
  mints_kept P w (retain_shadow mint ms) l u h =
      subst P (sym (give-mints w.held w _ (retain_shadow-mints w.bot mint ms))) h
  mints_kept P w (release_shadow mint) l u h = h
  mints_kept P w (prune_shadows ms) l u h = h
  mints_kept P w (lock mint now) l u h = l mint now refl
  mints_kept P w (unlock mint) l u h = u mint refl
  mints_kept P w (poll_breaker now) l u h = subst P (sym (poll-mints w.bot now)) h
  mints_kept P w win l u h = h
  mints_kept P w loss l u h = h

  step-Unique :
      (w : World S) (c : Call) → Unique w.bot.traded_mints → Unique (step sem w c).bot.traded_mints
  step-Unique w c h =
      mints_kept Unique w c (λ mint now e. lock-Unique w.bot mint now h)
        (λ mint e. remove-Unique mint w.bot.traded_mints h) h

  run-Unique :
      (w : World S) (cs : List Call)
      → Unique w.bot.traded_mints
      → Unique (run sem w cs).bot.traded_mints
  unfolding run
  run-Unique w [] h = h
  run-Unique w (c ∷ cs) h = run-Unique (step sem w c) cs (step-Unique w c h)

  -- After any history of a new state, `try_lock_mint` succeeds exactly when the mint has no entry
  -- younger than four hours.
  pub reached_lock_iff :
      (cs : List Call) (mint : String) (now : ℕ)
      → let b = (run sem (start sem) cs).bot in
        ((try_lock_mint b mint now).1 ≡ true)
        ↔ ((t : ℕ) → get mint b.traded_mints ≡ some t → mint_ttl ≤ now - t)
  unfolding start new_state
  reached_lock_iff cs mint now = try_lock_mint_iff _ mint now (run-Unique (start sem) cs tt)

  Quiet-lock :
      {c : Call} (mint other : String) (t now : ℕ)
      → c ≡ lock other now
      → Quiet mint t c
      → now - t < mint_ttl
  Quiet-lock mint other t now e q = subst (Quiet mint t) e q

  Quiet-unlock :
      {c : Call} (mint other : String) (t : ℕ) → c ≡ unlock other → Quiet mint t c → other ≢ mint
  Quiet-unlock mint other t e q = subst (Quiet mint t) e q

  step-held :
      (w : World S) (c : Call) (mint : String) (t : ℕ)
      → Quiet mint t c
      → get mint w.bot.traded_mints ≡ some t
      → get mint (step sem w c).bot.traded_mints ≡ some t
  step-held w c mint t q h =
      mints_kept (λ m. get mint m ≡ some t) w c
        (λ other now e. lock_keeps w.bot mint other t now h (Quiet-lock mint other t now e q))
        (λ other e. ground (
          arith,
          eq_iff other mint,
          get-remove other mint w.bot.traded_mints,
          Quiet-unlock mint other t e q,
        ))
        h

  run-held :
      (w : World S) (cs : List Call) (mint : String) (t : ℕ)
      → All (Quiet mint t) cs
      → get mint w.bot.traded_mints ≡ some t
      → get mint (run sem w cs).bot.traded_mints ≡ some t
  unfolding run
  run-held w [] mint t q h = h
  run-held w (c ∷ cs) mint t q h =
      run-held (step sem w c) cs mint t q.1 (step-held w c mint t q.0 h)

  -- Once a task has locked a mint at time `t`, nobody locks it again before `t` plus four hours,
  -- whatever the tasks do in between, unless the mint is unlocked.
  pub relock_refused :
      (w : World S) (mint : String) (t now : ℕ) (cs : List Call)
      → (try_lock_mint w.bot mint t).1 ≡ true
      → All (Quiet mint t) cs
      → now - t < mint_ttl
      → (try_lock_mint (run sem (step sem w (lock mint t)) cs).bot mint now).1 ≡ false
  unfolding step
  relock_refused w mint t now cs taken q h =
      (lock_held _ mint t now (run-held _ cs mint t q (lock_taken w.bot mint t taken)) h).0
