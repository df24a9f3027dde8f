-- ===== src/Tests.antt =====
-- A small installation, on which the theorems are tried.
mod Accepting
mod Money
mod Sanctions
mod Jobs
mod Logins
mod Relay
mod Accounts
mod Tokens
mod Retained
mod Mail
mod Asleep
mod Secrets
use zendou_backend.Common.{ℕ, ◌+◌, ◌*◌, true, false, Option, none, some, List, [], ◌∷◌}
use zendou_backend.Common.Int.{pos}
use zendou_backend.Text.{Text, text}
use zendou_backend.Schema.{
  User, Email, queued, active, customer, admin, Credential, selected, every, Domain, DomainStatus,
  verified, Suppression, manual, CreditEntry, welcome_bonus, TopUpRequest, TopUpStatus,
  orange_money, World, api, no_world,
}
use zendou_backend.Emails.Checks.{Env}
use zendou_backend.Emails.Accept.{Fresh, AcceptSmtpInput, smtp_input}
use zendou_backend.Emails.Accept.Request.{AcceptInput, SendContent}

-- A day in 2024, at nine o'clock UTC.
abbrev instant : ℕ
instant = 19800 * 86400000 + 32400000

abbrev env : Env
env = record {
  test_email_from = none;
  system_email_from = some (text "no-reply@zendou.gn");
  now = instant;
}

abbrev fresh : Fresh
fresh = record { email_id = 70; public_id = 700; queue_up = true }

abbrev ann : User
ann = record {
  id = 1;
  email = text "ann@shop.gn";
  name = text "Ann";
  company = some (text "Shop");
  declared_usage = none;
  password_hash = some (text "argon2");
  google_sub = none;
  status = active;
  role = customer;
  daily_send_limit = 200;
  reputation_reset_at = none;
  suspended_at = none;
  suspension_reason = none;
  email_verified_at = some 1000;
  email_verification_token_hash = none;
  email_verification_sent_to = none;
  email_verification_expires_at = none;
  anonymized_at = none;
  last_activity_at = none;
  inactivity_warning_sent_at = none;
  low_balance_alert_sent_at = none;
  created_at = 1000;
}

abbrev root : User
root = record ann { id = 2; email = text "root@zendou.gn"; role = admin }

abbrev key : Credential
key = record {
  id = 4;
  user_id = 1;
  name = text "Site";
  username = none;
  prefix = text "zd_live_AAAA";
  secret_hash = text "sha:old";
  last_used_at = none;
  revoked_at = none;
  rotated_at = none;
  created_at = 1500;
  can_read = false;
  domain_scope = selected;
  domains = 10 ∷ [];
}

abbrev relay : Credential
relay = record key {
  id = 5;
  username = some (text "zdu_1");
  prefix = text "zd_smtp_BBBB";
  secret_hash = text "sha:mail";
  domain_scope = every;
  domains = [];
}

abbrev shop : Domain
shop = record { id = 10; user_id = 1; name = text "shop.gn"; status = verified }

abbrev zendou : Domain
zendou = record { id = 11; user_id = 2; name = text "zendou.gn"; status = verified }

abbrev bonus : CreditEntry
bonus = record {
  user_id = 1;
  delta = pos 100;
  reason = welcome_bonus;
  reference = none;
  created_at = 1000;
}

abbrev blocked : Suppression
blocked = record { address = text "old@x.gn"; reason = manual; user_id = some 1 }

abbrev waiting : TopUpRequest
waiting = record {
  id = 30;
  user_id = 1;
  pack_id = text "starter";
  credits = 15000;
  amount_gnf = 50000;
  method = orange_money;
  phone_number = text "620000000";
  transaction_ref = text "OM1";
  status = TopUpStatus.pending;
  reviewed_at = none;
  reviewed_by = none;
  rejection_reason = none;
  created_at = 2000;
}

abbrev office : World
office = record no_world {
  users = ann ∷ root ∷ [];
  api_keys = key ∷ [];
  smtp_credentials = relay ∷ [];
  domains = shop ∷ zendou ∷ [];
  suppressions = blocked ∷ [];
  credit_entries = bonus ∷ [];
  topup_requests = waiting ∷ [];
}

-- A message to Bob by the API, with a reply-to address.
abbrev letter : AcceptInput
letter = record {
  from = text "Shop <hi@shop.gn>";
  to = text "bob@x.gn";
  subject = text "Hi";
  reply_to = text "ann@shop.gn" ∷ [];
  content = SendContent.simple none (some (text "ok")) [];
  channel = api;
  smtp_credential_id = none;
  api_key_id = some 4;
}

-- The same to a blocked address, and one without a body.
abbrev to_blocked : AcceptInput
to_blocked = record letter { to = text "Old@x.gn" }

abbrev blank_letter : AcceptInput
blank_letter = record letter { content = SendContent.simple none (some (text " ")) [] }

abbrev relayed : AcceptSmtpInput
relayed = record {
  from = text "hi@shop.gn";
  to = text "bob@x.gn";
  subject = text "Hi";
  reply_to = [];
  raw = text "raw";
  smtp_credential_id = 5;
}

-- The row of a message that waits.
abbrev outgoing : Email
outgoing = record {
  id = 60;
  public_id = 600;
  user_id = 1;
  domain_id = some 10;
  from_address = text "hi@shop.gn";
  to_address = text "bob@x.gn";
  subject = text "Hi";
  status = queued;
  ses_message_id = none;
  error_message = none;
  queued_at = instant;
  sent_at = none;
  delivered_at = none;
  last_event_at = none;
  channel = api;
  smtp_credential_id = none;
  system = false;
}
