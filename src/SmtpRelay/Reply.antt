-- ===== src/SmtpRelay/Reply.antt =====
-- src/smtp/smtp-reply.ts and smtp-reply.adapter.ts: what the relay answers to an error.
pub mod Classes
use zendou_backend.Common.{
  ℕ, ◌+◌, Bool, true, false, ◌&&◌, Option, none, some, ◌∷◌, ◌++◌, ltb, leb, if◌then◌else◌,
}
use zendou_backend.Text.{Text, text}
use zendou_backend.Emails.Refusal.{
  account_suspended, email_not_verified, invalid_from, invalid_to, invalid_reply_to,
  reply_to_not_verified, missing_body, body_too_large, domain_not_verified,
  credential_domain_out_of_scope, test_sender_unavailable, test_sender_recipient_restricted,
  insufficient_credits, daily_limit_reached, Refusal, refused, invalid_headers, no_credential,
  queue_down, sender_unavailable, invalid_recipient, Failure, send_refusal_reason,
}
use zendou_backend.SmtpRelay.Replies.{
  SmtpReply, reply_account_suspended, reply_email_not_verified, reply_mail_from_unreadable,
  reply_rcpt_to_unreadable, reply_reply_to_unreadable, reply_reply_to_not_verified,
  reply_missing_body, reply_body_too_large, reply_domain_not_verified,
  reply_credential_domain_out_of_scope, reply_test_sender_unavailable,
  reply_test_sender_recipient_restricted, reply_insufficient_credits, reply_daily_limit_reached,
  reply_unknown_client_refusal, reply_unknown_server_error,
}

-- `SEND_REFUSAL_SMTP_REPLY`
unfoldable pub send_refusal_smtp_reply : Refusal → SmtpReply
send_refusal_smtp_reply account_suspended = reply_account_suspended
send_refusal_smtp_reply email_not_verified = reply_email_not_verified
send_refusal_smtp_reply invalid_from = reply_mail_from_unreadable
send_refusal_smtp_reply invalid_to = reply_rcpt_to_unreadable
send_refusal_smtp_reply invalid_reply_to = reply_reply_to_unreadable
send_refusal_smtp_reply reply_to_not_verified = reply_reply_to_not_verified
send_refusal_smtp_reply missing_body = reply_missing_body
send_refusal_smtp_reply body_too_large = reply_body_too_large
send_refusal_smtp_reply domain_not_verified = reply_domain_not_verified
send_refusal_smtp_reply credential_domain_out_of_scope = reply_credential_domain_out_of_scope
send_refusal_smtp_reply test_sender_unavailable = reply_test_sender_unavailable
send_refusal_smtp_reply test_sender_recipient_restricted = reply_test_sender_recipient_restricted
send_refusal_smtp_reply insufficient_credits = reply_insufficient_credits
send_refusal_smtp_reply daily_limit_reached = reply_daily_limit_reached

-- `getStatus()` of the exception of each refusal (emails.service.ts).
unfoldable pub refusal_status : Refusal → ℕ
refusal_status account_suspended = 403
refusal_status email_not_verified = 403
refusal_status invalid_from = 400
refusal_status invalid_to = 400
refusal_status invalid_reply_to = 400
refusal_status reply_to_not_verified = 403
refusal_status missing_body = 400
refusal_status body_too_large = 400
refusal_status domain_not_verified = 403
refusal_status credential_domain_out_of_scope = 403
refusal_status test_sender_unavailable = 503
refusal_status test_sender_recipient_restricted = 403
refusal_status insufficient_credits = 402
refusal_status daily_limit_reached = 429

-- The status of an error that is an `HttpException`; the queue's and the missing system sender's
-- are not.
unfoldable pub http_status : Failure → Option ℕ
http_status (refused r _) = some (refusal_status r)
http_status invalid_headers = some 400
http_status no_credential = some 500
http_status queue_down = none
http_status sender_unavailable = none
http_status invalid_recipient = some 400

-- The last resort, where the error carries no reason.
abbrev reply_for_status : Option ℕ → SmtpReply
reply_for_status none = reply_unknown_server_error
reply_for_status (some status) =
    if leb 400 status && ltb status 500
    then reply_unknown_client_refusal
    else reply_unknown_server_error

abbrev reply_for_reason : Option Refusal → Option ℕ → SmtpReply
reply_for_reason (some reason) status = send_refusal_smtp_reply reason
reply_for_reason none status = reply_for_status status

unfoldable pub smtp_reply_for_error : Failure → SmtpReply
smtp_reply_for_error error = reply_for_reason (send_refusal_reason error) (http_status error)

-- The text that goes out behind the code.
abbrev pub format_smtp_reply : SmtpReply → Text
format_smtp_reply reply = reply.enhanced_status ++ 32 ∷ reply.message
