-- ===== src/Emails/Precheck/Recipients.antt =====
-- The early check at `RCPT TO`.
use zendou_backend.Common.{ℕ, ◌+◌, ◌≤◌, ◌≡◌, some, arith}
use zendou_backend.Common.Int.{ℤ, pos, ◌≤ℤ◌}
use zendou_backend.Schema.{User, World, find_user}
use zendou_backend.Ledger.{balance_of}
use zendou_backend.Emails.Refusal.{ok}
use zendou_backend.Emails.Pure.{>>=-eq-ok}
use zendou_backend.Emails.Checks.{
  Env, assert_sufficient_credits, assert_daily_limit_not_reached, sent_today,
}
use zendou_backend.Emails.Precheck.{precheck_smtp_recipients}

covered :
    (user recipients : ℕ) (w : World) (balance : ℤ)
    → assert_sufficient_credits user recipients w ≡ ok balance
    → pos recipients ≤ℤ balance_of w.credit_entries user
unfolding assert_sufficient_credits
covered user recipients w balance h = ground arith

fits :
    (env : Env) (user recipients : ℕ) (u : User) (w : World)
    → find_user w user ≡ some u
    → assert_daily_limit_not_reached env user recipients w ≡ ok tt
    → sent_today env user w + recipients ≤ u.daily_send_limit
unfolding assert_daily_limit_not_reached
fits env user recipients u w found h = ground arith

-- When the relay has let through so many recipients, the balance of the account covers a credit
-- for each of them, and its daily limit all of them besides what was sent today.
pub precheck_smtp_recipients-covers :
    (env : Env) (user recipients : ℕ) (u : User) (w : World)
    → find_user w user ≡ some u
    → precheck_smtp_recipients env user recipients w ≡ ok tt
    → (pos recipients ≤ℤ balance_of w.credit_entries user)
      × (sent_today env user w + recipients ≤ u.daily_send_limit)
unfolding precheck_smtp_recipients
precheck_smtp_recipients-covers env user recipients u w found h =
    let (balance, enough, room) = >>=-eq-ok (assert_sufficient_credits user recipients w) _ h in
    (covered user recipients w balance enough, fits env user recipients u w found room)
