-- ===== src/SmtpRelay/Reply/Classes.antt =====
-- The classes of the replies: refusals for good and refusals for now.
use zendou_backend.Common.{
  ℕ, ◌+◌, ◌/◌, ◌≡◌, refl, Bool, true, false, if◌then◌else◌, Option, ◌∷◌, [],
}
use zendou_backend.Text.{Text}
use zendou_backend.Emails.Refusal.{
  account_suspended, email_not_verified, invalid_from, invalid_to, invalid_reply_to,
  reply_to_not_verified, missing_body, body_too_large, domain_not_verified,
  credential_domain_out_of_scope, test_sender_unavailable, test_sender_recipient_restricted,
  insufficient_credits, daily_limit_reached, Refusal, refused, invalid_headers, no_credential,
  queue_down, sender_unavailable, invalid_recipient, Failure, send_refusal_reason,
}
use zendou_backend.SmtpRelay.Replies.{SmtpReply}
use zendou_backend.SmtpRelay.Reply.{send_refusal_smtp_reply, http_status, smtp_reply_for_error}

-- What the client can mend by waiting: credits, the day's limit, or a failure of the service.
abbrev pub is_temporary : Failure → Bool
is_temporary (refused insufficient_credits _) = true
is_temporary (refused daily_limit_reached _) = true
is_temporary (refused test_sender_unavailable _) = true
is_temporary (refused _ _) = false
is_temporary no_credential = true
is_temporary queue_down = true
is_temporary sender_unavailable = true
is_temporary invalid_headers = false
is_temporary invalid_recipient = false

abbrev pub first_unit : Text → ℕ
first_unit [] = 0
first_unit (c ∷ _) = c

-- A refusal of the class, 4 or 5, in its code and in its extended status.
abbrev pub IsOfClass : ℕ → SmtpReply → Type 0
IsOfClass class reply = (reply.code / 100 ≡ class) × (first_unit reply.enhanced_status ≡ 48 + class)

abbrev pub class_of : Failure → ℕ
class_of f = if is_temporary f then 4 else 5

refusal-IsOfClass :
    (r : Refusal) (after : Option ℕ)
    → IsOfClass (class_of (refused r after)) (send_refusal_smtp_reply r)
unfolding send_refusal_smtp_reply
refusal-IsOfClass account_suspended after = (refl, refl)
refusal-IsOfClass email_not_verified after = (refl, refl)
refusal-IsOfClass invalid_from after = (refl, refl)
refusal-IsOfClass invalid_to after = (refl, refl)
refusal-IsOfClass invalid_reply_to after = (refl, refl)
refusal-IsOfClass reply_to_not_verified after = (refl, refl)
refusal-IsOfClass missing_body after = (refl, refl)
refusal-IsOfClass body_too_large after = (refl, refl)
refusal-IsOfClass domain_not_verified after = (refl, refl)
refusal-IsOfClass credential_domain_out_of_scope after = (refl, refl)
refusal-IsOfClass test_sender_unavailable after = (refl, refl)
refusal-IsOfClass test_sender_recipient_restricted after = (refl, refl)
refusal-IsOfClass insufficient_credits after = (refl, refl)
refusal-IsOfClass daily_limit_reached after = (refl, refl)

-- Every error gets a refusal, never a code that says the message was taken: of class 4, to be tried
-- again, where credits, the day's limit or the service itself are short, of class 5 otherwise. The
-- extended status says the same as the code.
pub smtp_reply_for_error-IsOfClass :
    (error : Failure) → IsOfClass (class_of error) (smtp_reply_for_error error)
unfolding smtp_reply_for_error send_refusal_reason http_status
smtp_reply_for_error-IsOfClass (refused r after) = refusal-IsOfClass r after
smtp_reply_for_error-IsOfClass invalid_headers = (refl, refl)
smtp_reply_for_error-IsOfClass no_credential = (refl, refl)
smtp_reply_for_error-IsOfClass queue_down = (refl, refl)
smtp_reply_for_error-IsOfClass sender_unavailable = (refl, refl)
smtp_reply_for_error-IsOfClass invalid_recipient = (refl, refl)
