-- ===== src/Emails/Checks.antt =====
-- The private methods of `EmailsService` that read the store and may refuse. Each takes the state
-- and returns a value or a refusal: none of them writes.
use zendou_backend.Common.{
  ℕ, ◌+◌, ◌*◌, Bool, true, false, not, ◌&&◌, ◌||◌, Option, none, some, List, [], ◌∷◌, ltb, leb,
  ◌==◌, if◌then◌else◌, find, count, is_some,
}
use zendou_backend.Common.Int.{ℤ, pos, ltb_ℤ}
use zendou_backend.Text.{Text, text_eq, is_blank, trim}
use zendou_backend.Schema.{
  User, Credential, every, selected, CredentialDomainScope, Domain, Email, Suppression,
  EmailChannel, api, smtp, World, find_user, is_verified, is_suspended,
}
use zendou_backend.EmailAddress.{
  ParsedAddress, normalize_email_address, parse_email_address, format_email_address,
  has_oversized_display_name,
}
use zendou_backend.Ledger.{balance_of}
use zendou_backend.Emails.Refusal.{
  account_suspended, email_not_verified, invalid_reply_to, reply_to_not_verified,
  credential_domain_out_of_scope, test_sender_unavailable, test_sender_recipient_restricted,
  insufficient_credits, daily_limit_reached, Refusal, refused, no_credential, Result, ok, err,
  refuse,
}
use zendou_backend.Emails.Pure.{◌>>=◌, ◌>>◌}
use zendou_backend.Emails.Day.{start_of_utc_day, seconds_until_next_utc_day}

-- The environment variables that the service reads, and the instant of the call (the several
-- `new Date()` of one call are one instant here).
pub record Env : Type 0 where
  pub test_email_from : Option Text
  pub system_email_from : Option Text
  pub now : ℕ

abbrev pub credits_per_email : ℕ
credits_per_email = 1

-- What `assertAccountMaySend` returns.
pub record AccountState : Type 0 where
  pub last_activity_at : Option ℕ
  pub low_balance_alert_sent_at : Option ℕ

-- `isEmailConfirmed` (src/auth/email-verified.guard.ts)
abbrev pub is_email_confirmed : Option ℕ → Bool
is_email_confirmed at = is_some at

unfoldable pub check_account : Option User → Result AccountState
check_account none = ok (record { last_activity_at = none; low_balance_alert_sent_at = none })
check_account (some account) =
    if is_suspended account.status
    then refuse account_suspended
    else if not (is_email_confirmed account.email_verified_at)
    then refuse email_not_verified
    else ok (record {
      last_activity_at = account.last_activity_at;
      low_balance_alert_sent_at = account.low_balance_alert_sent_at;
    })

unfoldable pub assert_account_may_send : ℕ → World → Result AccountState
unfolding check_account
assert_account_may_send user w = check_account (find_user w user)

-- `domain.findFirst({ where: { name, userId, status: VERIFIED } })`
abbrev pub is_owned_domain : ℕ → Text → Domain → Bool
is_owned_domain user name d = text_eq d.name name && d.user_id == user && is_verified d.status

abbrev pub id_or_refuse : Refusal → Option Domain → Result ℕ
id_or_refuse reason none = refuse reason
id_or_refuse reason (some d) = ok d.id

unfoldable pub require_verified_domain : Refusal → ℕ → Text → World → Result ℕ
require_verified_domain reason user name w =
    id_or_refuse reason (find (is_owned_domain user name) w.domains)

-- `{ kind, id }`
pub data CredentialRef : Type 0 where
  api_key smtp_credential : ℕ → CredentialRef

unfoldable pub require_credential : EmailChannel → Option ℕ → Option ℕ → Result CredentialRef
require_credential smtp api_key_id (some id) = ok (smtp_credential id)
require_credential smtp api_key_id none = err no_credential
require_credential api (some id) smtp_credential_id = ok (api_key id)
require_credential api none smtp_credential_id = err no_credential

abbrev pub find_credential : World → CredentialRef → Option Credential
find_credential w (api_key id) = find (λ c. c.id == id) w.api_keys
find_credential w (smtp_credential id) = find (λ c. c.id == id) w.smtp_credentials

-- `allowed.some((domain) => domain.id === domainId)`
unfoldable pub has_domain : List ℕ → ℕ → Bool
has_domain [] domain_id = false
has_domain (d ∷ ds) domain_id = d == domain_id || has_domain ds domain_id

unfoldable pub scope_allows : CredentialDomainScope → List ℕ → ℕ → Bool
unfolding has_domain
scope_allows every domains domain_id = true
scope_allows selected domains domain_id = has_domain domains domain_id

abbrev check_scope : Option Credential → ℕ → Result (Unit {0})
check_scope none domain_id = refuse credential_domain_out_of_scope
check_scope (some c) domain_id =
    if scope_allows c.domain_scope c.domains domain_id
    then ok tt
    else refuse credential_domain_out_of_scope

unfoldable pub assert_domain_in_credential_scope : CredentialRef → ℕ → World → Result (Unit {0})
assert_domain_in_credential_scope credential domain_id w =
    check_scope (find_credential w credential) domain_id

-- One address of `requireVerifiedReplyTo`.
unfoldable pub check_reply_to : ℕ → Bool → Option ParsedAddress → World → Result Text
check_reply_to user cap_names none w = refuse invalid_reply_to
check_reply_to user cap_names (some parsed) w =
    if cap_names && has_oversized_display_name parsed then refuse invalid_reply_to else do
      require_verified_domain reply_to_not_verified user parsed.domain w
      ok (format_email_address parsed)

unfoldable pub require_verified_reply_to : ℕ → List Text → Bool → World → Result (List Text)
unfolding check_reply_to
require_verified_reply_to user [] cap_names w = ok []
require_verified_reply_to user (raw ∷ rest) cap_names w = do
  first ← check_reply_to user cap_names (parse_email_address raw) w
  others ← require_verified_reply_to user rest cap_names w
  ok (first ∷ others)

-- `(configService.get(KEY) ?? '').trim()`
abbrev pub configured : Option Text → Text
configured none = []
configured (some raw) = trim raw

abbrev same_address : Option ParsedAddress → Text → Bool
same_address none address = false
same_address (some parsed) address = text_eq parsed.address address

unfoldable pub is_test_sender_address : Env → Text → Bool
is_test_sender_address env address =
    if is_blank (configured env.test_email_from)
    then false
    else same_address (parse_email_address (configured env.test_email_from)) address

-- `domain.findFirst({ where: { name, status: VERIFIED } })`, whoever owns it.
abbrev pub is_verified_domain : Text → Domain → Bool
is_verified_domain name d = text_eq d.name name && is_verified d.status

unfoldable pub require_verified_test_sender_domain : Text → World → Result (Unit {0})
require_verified_test_sender_domain name w =
    if is_some (find (is_verified_domain name) w.domains)
    then ok tt
    else refuse test_sender_unavailable

abbrev pub own_address : Option User → Option Text
own_address none = none
own_address (some user) = normalize_email_address user.email

abbrev is_own : Option Text → Text → Bool
is_own none to_address = false
is_own (some own) to_address = text_eq own to_address

unfoldable pub require_own_address_as_recipient : ℕ → Text → World → Result (Option ℕ)
require_own_address_as_recipient user to_address w =
    if is_own (own_address (find_user w user)) to_address
    then ok none
    else refuse test_sender_recipient_restricted

unfoldable pub assert_sufficient_credits : ℕ → ℕ → World → Result ℤ
assert_sufficient_credits user messages w =
    let balance = balance_of w.credit_entries user in
    if ltb_ℤ balance (pos (credits_per_email * messages))
    then refuse insufficient_credits
    else ok balance

-- The client's own emails since midnight UTC.
abbrev pub counts_today : Env → ℕ → Email → Bool
counts_today env user e =
    e.user_id == user && not e.system && leb (start_of_utc_day env.now) e.queued_at

unfoldable pub sent_today : Env → ℕ → World → ℕ
sent_today env user w = count (counts_today env user) w.emails

abbrev check_limit : Env → Option User → ℕ → Result (Unit {0})
check_limit env none total = ok tt
check_limit env (some user) total =
    if ltb user.daily_send_limit total
    then err (refused daily_limit_reached (some (seconds_until_next_utc_day env.now)))
    else ok tt

unfoldable pub assert_daily_limit_not_reached : Env → ℕ → ℕ → World → Result (Unit {0})
assert_daily_limit_not_reached env user messages w =
    check_limit env (find_user w user) (sent_today env user w + messages)

-- src/emails/suppressions.ts: an entry of the client, or one for the whole platform.
abbrev owned_or_global : Option ℕ → ℕ → Bool
owned_or_global none user = true
owned_or_global (some owner) user = owner == user

abbrev pub blocks : ℕ → Text → Suppression → Bool
blocks user address s = text_eq s.address address && owned_or_global s.user_id user

unfoldable pub is_address_suppressed : World → ℕ → Text → Bool
is_address_suppressed w user address = is_some (find (blocks user address) w.suppressions)
