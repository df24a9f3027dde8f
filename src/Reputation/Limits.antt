-- ===== src/Reputation/Limits.antt =====
-- The tiers of the daily limit, and its recomputation.
use zendou_backend.Common.{ℕ, ◌-◌, ◌≤◌, ◌≡◌, ◌⊎◌, arith}
use zendou_backend.Schema.{User, World}
use zendou_backend.Reputation.{Verdict, healthy, resolve_daily_limit, raise_limit, lifetime_sends}

-- An older account, or one that has sent more, never has a lower tier; the tiers run from 200 to
-- 20,000 emails a day.
pub resolve_daily_limit_mono :
    (age age' sends sends' : ℕ)
    → age ≤ age'
    → sends ≤ sends'
    → (resolve_daily_limit age sends ≤ resolve_daily_limit age' sends')
      × (200 ≤ resolve_daily_limit age sends)
      × (resolve_daily_limit age' sends' ≤ 20000)
unfolding resolve_daily_limit
resolve_daily_limit_mono age age' sends sends' h k = (ground arith, ground arith, ground arith)

-- The limit in force after a recomputation is never below the one before; it changes only under a
-- healthy verdict, to the tier that the account has reached.
pub raise_limit-le :
    (now : ℕ) (user : User) (verdict : Verdict) (w : World)
    → (user.daily_send_limit ≤ (raise_limit now user verdict w).0)
      × (((raise_limit now user verdict w).0 ≡ user.daily_send_limit)
          ⊎ ((verdict ≡ healthy)
              × ((raise_limit now user verdict w).0
                  ≡ resolve_daily_limit (now - user.created_at) (lifetime_sends user.id w))))
unfolding raise_limit
raise_limit-le now user verdict w = (ground arith, ground arith)
