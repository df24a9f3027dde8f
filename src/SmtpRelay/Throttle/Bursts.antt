-- ===== src/SmtpRelay/Throttle/Bursts.antt =====
-- The burst of a client against the limit of a minute.
use zendou_backend.Common.{
  ℕ, suc, ◌+◌, ◌-◌, ◌<◌, ◌≡◌, refl, min, true, false, some, List, [], ◌∷◌, arith, ltb, lt→ltb,
  if◌then◌else◌, length, All, is_some, ==_refl, Option-cases, inl, inr, ◌≤◌,
}
use zendou_backend.SmtpRelay.Throttle.{
  Throttle, RelayConfig, Window, send_user, same_key, hit, send_limit, minute_window_ms, put_window,
  assert_send_burst_within_limit,
}

-- How many of the bursts at these instants pass.
unfoldable pub bursts_allowed : RelayConfig → ℕ → List ℕ → Throttle → ℕ
bursts_allowed cfg user [] s = 0
bursts_allowed cfg user (now ∷ later) s =
    let (refusal, s') = assert_send_burst_within_limit cfg now user s in
    (if is_some refusal then 0 else 1) + bursts_allowed cfg user later s'

module _ (cfg : RelayConfig) (user : ℕ) where
  abbrev one_more : Window → Window
  one_more window = record window { hits = window.hits + 1 }

  running-hit :
      (now : ℕ) (s : Throttle) (window : Window)
      → s.redis_up ≡ true
      → s.windows (send_user user) ≡ some window
      → now < window.expires_at
      → hit (send_user user) minute_window_ms now s
        ≡ (window.hits + 1, put_window (send_user user) (one_more window) s)
  unfolding hit
  running-hit now s window up at early =
      let runs : ltb now window.expires_at ≡ true = lt→ltb now window.expires_at early in
      rw (up, at, runs) refl

  put_window-at :
      (s : Throttle) (window : Window)
      → (put_window (send_user user) window s).windows (send_user user) ≡ some window
  unfolding same_key
  put_window-at s window = rw (==_refl user) refl

  -- Within a window that runs, what is left of the limit passes and no more.
  running-bursts :
      (times : List ℕ) (s : Throttle) (window : Window)
      → s.redis_up ≡ true
      → s.windows (send_user user) ≡ some window
      → All (λ now. now < window.expires_at) times
      → bursts_allowed cfg user times s ≡ min (length times) (send_limit cfg - window.hits)
  unfolding bursts_allowed assert_send_burst_within_limit
  running-bursts [] s window up at within = omega arith
  running-bursts (now ∷ later) s window up at (early, within) =
      let rest =
        running-bursts later (put_window (send_user user) (one_more window) s) (one_more window) up
          (put_window-at s (one_more window)) within in
      rw (running-hit now s window up at early, rest) (ground arith)

  unfoldable pub IsIdle : ℕ → Throttle → Type 0
  IsIdle now s =
      (window : Window) → s.windows (send_user user) ≡ some window → window.expires_at ≤ now

  first-hit :
      (now : ℕ) (s : Throttle)
      → s.redis_up ≡ true
      → IsIdle now s
      → hit (send_user user) minute_window_ms now s ≡ (
        1,
        put_window (send_user user) (record { hits = 1; expires_at = now + minute_window_ms }) s,
      )
  unfolding hit IsIdle
  first-hit now s up idle = elim (Option-cases (s.windows (send_user user))) [
    | inl none_yet ↦ rw (up, none_yet) refl
    | inr (window, at) ↦
        let over : ltb now window.expires_at ≡ false = ground (arith, idle window at) in
        rw (up, at, over) refl
  ]

  -- While Redis answers, of the messages that a client begins within the minute of the first one,
  -- exactly as many pass as the limit of a minute allows, whatever the instants.
  pub bursts_allowed_exact :
      (now : ℕ) (times : List ℕ) (s : Throttle)
      → s.redis_up ≡ true
      → IsIdle now s
      → All (λ at. at < now + minute_window_ms) times
      → bursts_allowed cfg user (now ∷ times) s ≡ min (suc (length times)) (send_limit cfg)
  unfolding bursts_allowed assert_send_burst_within_limit
  bursts_allowed_exact now times s up idle within =
      let window : Window = record { hits = 1; expires_at = now + minute_window_ms } in
      let rest =
        running-bursts times (put_window (send_user user) window s) window up
          (put_window-at s window) within in
      rw (first-hit now s up idle, rest) (ground arith)
