-- ===== src/Emails/Precheck.antt =====
-- The early checks of the SMTP relay, at `MAIL FROM` and `RCPT TO`: `precheckSmtpEnvelope` and
-- `precheckSmtpRecipients`.
pub mod Agreement
pub mod Recipients
use zendou_backend.Common.{ℕ, Option, none, some, if◌then◌else◌}
use zendou_backend.Text.{Text}
use zendou_backend.Schema.{smtp, World}
use zendou_backend.EmailAddress.{ParsedAddress, parse_email_address}
use zendou_backend.Emails.Refusal.{Result, refuse, invalid_from, domain_not_verified}
use zendou_backend.Emails.Pure.{◌>>=◌, ◌>>◌}
use zendou_backend.Emails.Checks.{
  Env, assert_account_may_send, require_verified_domain, CredentialRef, require_credential,
  assert_domain_in_credential_scope, is_test_sender_address, require_verified_test_sender_domain,
  assert_sufficient_credits, assert_daily_limit_not_reached,
}

-- The envelope's sender: the sandbox's configuration, or a verified domain within the scope.
unfoldable pub check_envelope :
    Env → ℕ → CredentialRef → Option ParsedAddress → World → Result (Unit {0})
check_envelope env user credential none w = refuse invalid_from
check_envelope env user credential (some parsed) w =
    if is_test_sender_address env parsed.address
    then require_verified_test_sender_domain parsed.domain w
    else (do
      domain_id ← require_verified_domain domain_not_verified user parsed.domain w
      assert_domain_in_credential_scope credential domain_id w)

unfoldable pub precheck_smtp_recipients : Env → ℕ → ℕ → World → Result (Unit {0})
precheck_smtp_recipients env user recipients w = do
  assert_sufficient_credits user recipients w
  assert_daily_limit_not_reached env user recipients w

unfoldable pub precheck_smtp_envelope : Env → ℕ → Text → ℕ → World → Result (Unit {0})
unfolding check_envelope
precheck_smtp_envelope env user from smtp_credential_id w = do
  credential ← require_credential smtp none (some smtp_credential_id)
  assert_account_may_send user w
  check_envelope env user credential (parse_email_address from) w
  assert_sufficient_credits user 1 w
  assert_daily_limit_not_reached env user 1 w
