-- ===== src/Tests/Relay.antt =====
-- The relay on the small installation.
use zendou_backend.Common.{
  ◌+◌, ◌≤◌, ◌/◌, ◌≡◌, refl, true, none, some, List, [], ◌∷◌, length, min, count, arith,
}
use zendou_backend.Text.{
  text, trim, trim_start, trim_end, is_space, to_lower_case, split, split_last, text_eq,
}
use zendou_backend.EmailAddress.{
  is_atom, is_atom_mark, matches_local_part, matches_domain_name, normalize_email_address,
  match_named_address, before_closing, parse_email_address, has_oversized_display_name,
}
use zendou_backend.Emails.Refusal.{send_refusal_reason}
use zendou_backend.Emails.Checks.{
  check_account, assert_account_may_send, require_verified_domain, require_credential, has_domain,
  scope_allows, assert_domain_in_credential_scope, check_reply_to, require_verified_reply_to,
  is_test_sender_address, assert_sufficient_credits, sent_today, assert_daily_limit_not_reached,
  is_address_suppressed,
}
use zendou_backend.Emails.Accept.{accept, accept_smtp}
use zendou_backend.Emails.Accept.Request.{
  byte_length, blank_to_undefined, exceeds_max_body, check_address, check_body, check_sender,
  check_request,
}
use zendou_backend.Emails.Precheck.{precheck_smtp_recipients}
use zendou_backend.Ledger.{balance_of, sum_delta}
use zendou_backend.Common.Int.{◌+ℤ◌}
use zendou_backend.SmtpRelay.Replies.{reply_domain_not_verified}
use zendou_backend.SmtpRelay.Reply.{smtp_reply_for_error, http_status, send_refusal_smtp_reply}
use zendou_backend.SmtpRelay.Throttle.{Throttle, RelayConfig, Session}
use zendou_backend.SmtpRelay.Throttle.Bursts.{IsIdle, bursts_allowed, bursts_allowed_exact}
use zendou_backend.SmtpRelay.Conversation.{RelayState, done, replied}
use zendou_backend.SmtpRelay.Envelope.{SmtpSessionUser, recipient_total_with, rcpt_to}
use zendou_backend.SmtpRelay.Envelope.Early.{IsCovered, rcpt_to-IsCovered}
use zendou_backend.SmtpRelay.FanOut.{
  Recipient, Message, queued, suppressed, SmtpRecipientOutcome, deliver, fan_out,
}
use zendou_backend.SmtpRelay.FanOut.Account.{
  IsAccounted, is_taken, answer, after, fan_out-IsAccounted, fan_out-unchanged_of_replied,
}
use zendou_backend.Tests.{instant, ann, env, fresh, office}

-- Two messages a minute.
abbrev pub cfg : RelayConfig
cfg = record {
  ip_limits_enabled = true;
  connection_window_ms = none;
  max_connections_per_ip = none;
  auth_failure_window_ms = none;
  max_auth_failures_per_connection = none;
  emails_per_minute = some 2;
  max_messages_per_connection = none;
  max_refused_recipients_per_connection = none;
  max_message_bytes = none;
  max_recipients = none;
}

abbrev quiet : Throttle
quiet = record {
  windows = λ _. none;
  stuffing = λ _. none;
  connections = λ _. none;
  redis_up = true;
}

quiet-IsIdle : IsIdle cfg 1 instant quiet
unfolding IsIdle
quiet-IsIdle window at = cc

bursts_allowed_exact_example :
    bursts_allowed cfg 1 (instant ∷ (instant + 10) ∷ (instant + 20) ∷ []) quiet ≡ min 3 2
bursts_allowed_exact_example =
    bursts_allowed_exact cfg 1 instant ((instant + 10) ∷ (instant + 20) ∷ []) quiet refl
      quiet-IsIdle (omega arith, (omega arith, tt))

abbrev pub session : Session
session = record {
  id = 9;
  remote_address = text "10.0.0.1";
  mail_from = text "hi@shop.gn";
  rcpt_to = text "bob@x.gn" ∷ [];
}

abbrev pub ann_relay : SmtpSessionUser
ann_relay = record { user_id = 1; credential_id = 5 }

abbrev pub start : RelayState
start = record { world = office; throttle = quiet }

-- Bob and the blocked address.
abbrev pub both : List Recipient
both =
    record { address = text "bob@x.gn"; now = instant; fresh = fresh }
    ∷ record {
      address = text "old@x.gn";
      now = instant;
      fresh = record fresh { email_id = 71; public_id = 701 };
    }
    ∷ []

abbrev message : Message
message = record { from = text "hi@shop.gn"; reply_to = []; subject = text "Hi"; raw = text "raw" }

abbrev foreign : Message
foreign = record message { from = text "hi@other.gn" }

abbrev outcomes : List SmtpRecipientOutcome
outcomes = queued (text "bob@x.gn") 700 ∷ suppressed (text "old@x.gn") 701 ∷ []

relay_answers :
    (answer env ann_relay message session both start ≡ done outcomes)
    × (answer env ann_relay foreign session both start ≡ replied reply_domain_not_verified)
unfolding accept accept_smtp check_request require_credential assert_account_may_send
    parse_email_address check_address normalize_email_address trim match_named_address split_last
    matches_local_part split to_lower_case matches_domain_name has_oversized_display_name check_body
    blank_to_undefined exceeds_max_body check_sender is_test_sender_address require_verified_domain
    text_eq assert_domain_in_credential_scope scope_allows before_closing is_atom is_atom_mark
    byte_length assert_daily_limit_not_reached assert_sufficient_credits check_account
    check_reply_to has_domain is_address_suppressed require_verified_reply_to sent_today is_space
    trim_end trim_start balance_of sum_delta ◌+ℤ◌ fan_out deliver smtp_reply_for_error http_status
    send_refusal_smtp_reply send_refusal_reason
relay_answers = (refl, refl)

fan_out-IsAccounted_example :
    IsAccounted 1 office outcomes (after env ann_relay message session both start)
    × (length outcomes ≡ length both)
    × (1 ≤ count is_taken outcomes)
fan_out-IsAccounted_example =
    fan_out-IsAccounted env ann_relay message session both start outcomes (refl, (refl, tt))
      relay_answers.0

fan_out-unchanged_of_replied_example :
    (after env ann_relay foreign session both start ≡ office)
    × (4 ≤ reply_domain_not_verified.code / 100)
fan_out-unchanged_of_replied_example =
    fan_out-unchanged_of_replied env ann_relay foreign session both start reply_domain_not_verified
      (refl, (refl, tt)) relay_answers.1

one_more : (rcpt_to cfg env (text "carl@x.gn") session ann_relay start).0 ≡ done tt
unfolding accept accept_smtp check_request require_credential assert_account_may_send
    parse_email_address check_address normalize_email_address trim match_named_address split_last
    matches_local_part split to_lower_case matches_domain_name has_oversized_display_name check_body
    blank_to_undefined exceeds_max_body check_sender is_test_sender_address require_verified_domain
    text_eq assert_domain_in_credential_scope scope_allows before_closing is_atom is_atom_mark
    byte_length assert_daily_limit_not_reached assert_sufficient_credits check_account
    check_reply_to has_domain is_address_suppressed require_verified_reply_to sent_today is_space
    trim_end trim_start balance_of sum_delta ◌+ℤ◌ rcpt_to recipient_total_with
    precheck_smtp_recipients
one_more = refl

rcpt_to-IsCovered_example : IsCovered cfg env session ann_relay start (text "carl@x.gn") ann
rcpt_to-IsCovered_example =
    rcpt_to-IsCovered cfg env session ann_relay start (text "carl@x.gn") ann refl one_more
