-- ===== src/SmtpRelay/Envelope.antt =====
-- src/smtp/smtp-pipeline.service.ts, before the message: `mailFrom` and `rcptTo`.
pub mod Early
use zendou_backend.Common.{
  ℕ, ◌+◌, ◌*◌, Bool, false, ◌||◌, Option, none, some, List, [], ◌∷◌, ltb, if◌then◌else◌, length,
  is_some,
}
use zendou_backend.Text.{Text, text_eq}
use zendou_backend.EmailAddress.{normalize_email_address}
use zendou_backend.Emails.Refusal.{send_refusal_reason}
use zendou_backend.Emails.Checks.{Env}
use zendou_backend.Emails.Precheck.{precheck_smtp_envelope, precheck_smtp_recipients}
use zendou_backend.SmtpRelay.Replies.{
  reply_size_exceeded, reply_rcpt_to_unreadable, reply_too_many_recipients,
}
use zendou_backend.SmtpRelay.Reply.{http_status, smtp_reply_for_error}
use zendou_backend.SmtpRelay.Throttle.{
  Session, RelayConfig, setting, refuse_if, assert_send_burst_within_limit,
  assert_message_count_within_limit, record_refused_recipient,
}
use zendou_backend.SmtpRelay.Conversation.{
  Answer, done, replied, thrown, RelayState, Handler, ◌>>◌, consult, throttle, reply_if,
}

pub record SmtpSessionUser : Type 0 where
  pub user_id : ℕ
  pub credential_id : ℕ

abbrev pub max_message_bytes : RelayConfig → ℕ
max_message_bytes cfg = setting cfg.max_message_bytes (10 * 1024 * 1024)

abbrev pub max_recipients : RelayConfig → ℕ
max_recipients cfg = setting cfg.max_recipients 10

-- `toSmtpRefusal`: a refusal or another `HttpException` becomes a reply; the rest passes.
abbrev pub to_smtp_refusal : {A : Type 0} → Answer A → Answer A
to_smtp_refusal (thrown error) =
    if is_some (send_refusal_reason error) || is_some (http_status error)
    then replied (smtp_reply_for_error error)
    else thrown error
to_smtp_refusal answer = answer

abbrev pub refusing : Handler (Unit {0}) → Handler (Unit {0})
refusing call s = let (answer, s') = call s in (to_smtp_refusal answer, s')

-- `SIZE=`: `none` where the client announces no finite number.
abbrev pub announces_too_much : RelayConfig → Option ℕ → Bool
announces_too_much cfg none = false
announces_too_much cfg (some announced) = ltb (max_message_bytes cfg) announced

unfoldable pub mail_from :
    RelayConfig → Env → Text → Option ℕ → Session → SmtpSessionUser → Handler (Unit {0})
mail_from cfg env address announced session user = do
  refusing (consult (precheck_smtp_envelope env user.user_id address user.credential_id))
  throttle (assert_send_burst_within_limit cfg env.now user.user_id)
  throttle (assert_message_count_within_limit cfg session)
  reply_if (refuse_if (announces_too_much cfg announced) reply_size_exceeded)

abbrev is_same : Option Text → Text → Bool
is_same none recipient = false
is_same (some existing) recipient = text_eq existing recipient

abbrev pub is_duplicate : List Text → Text → Bool
is_duplicate [] recipient = false
is_duplicate (existing ∷ rest) recipient =
    is_same (normalize_email_address existing) recipient || is_duplicate rest recipient

-- `recipientTotalWith`
unfoldable pub recipient_total_with : Session → Text → ℕ
recipient_total_with session recipient =
    if is_duplicate session.rcpt_to recipient
    then length session.rcpt_to
    else length session.rcpt_to + 1

-- `assertRecipientsCovered`: a refusal is one of this recipient.
abbrev pub as_too_many : {A : Type 0} → Answer A → Answer A
as_too_many (thrown error) =
    if is_some (send_refusal_reason error) then replied reply_too_many_recipients else thrown error
as_too_many answer = answer

abbrev pub assert_recipients_covered : Env → ℕ → ℕ → Handler (Unit {0})
assert_recipients_covered env user total s =
    let (answer, s') = consult (precheck_smtp_recipients env user total) s in
    (as_too_many answer, s')

abbrev pub check_recipient :
    RelayConfig → Env → Option Text → Session → SmtpSessionUser → Handler (Unit {0})
check_recipient cfg env none session user = reply_if (some reply_rcpt_to_unreadable)
check_recipient cfg env (some recipient) session user =
    let total = recipient_total_with session recipient in
    do
      reply_if (refuse_if (ltb (max_recipients cfg) total) reply_too_many_recipients)
      assert_recipients_covered env user.user_id total

abbrev pub answer_or : Answer (Unit {0}) → Answer (Unit {0}) → Answer (Unit {0})
answer_or (done _) refusal = refusal
answer_or closing refusal = closing

-- The `catch` of `rcptTo`: the refusal is counted, and the count may replace it.
abbrev pub counted :
    RelayConfig → Session → Answer (Unit {0}) × RelayState → Answer (Unit {0}) × RelayState
counted cfg session (done u, s) = (done u, s)
counted cfg session (refusal, s) =
    let (answer, s') = throttle (record_refused_recipient cfg session) s in
    (answer_or answer refusal, s')

unfoldable pub rcpt_to : RelayConfig → Env → Text → Session → SmtpSessionUser → Handler (Unit {0})
rcpt_to cfg env address session user s =
    counted cfg session (check_recipient cfg env (normalize_email_address address) session user s)
