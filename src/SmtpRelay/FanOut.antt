-- ===== src/SmtpRelay/FanOut.antt =====
-- src/smtp/smtp-pipeline.service.ts, the end of the message: `fanOut`, which accepts it once for
-- each recipient and answers with one reply; `storedSubject`; formatSmtpAcceptedReply
-- (smtp-pipeline.constants.ts).
pub mod Account
use zendou_backend.Common.{
  ℕ, ◌+◌, ◌*◌, Bool, true, false, ◌||◌, Option, none, some, List, [], ◌∷◌, ◌++◌, if◌then◌else◌, all,
}
use zendou_backend.Text.{Text, text, trim, is_blank, take}
use zendou_backend.Schema.{World}
use zendou_backend.Emails.Refusal.{Failure, Result, ok, err}
use zendou_backend.Emails.Checks.{Env}
use zendou_backend.Emails.Accept.{
  Fresh, SendEmailResponse, SendStatus, as_queued, as_suppressed, AcceptSmtpInput, accept_smtp,
}
use zendou_backend.SmtpRelay.Replies.{SmtpReply, reply_unknown_server_error}
use zendou_backend.SmtpRelay.Reply.{smtp_reply_for_error}
use zendou_backend.SmtpRelay.Throttle.{Session, record_message}
use zendou_backend.SmtpRelay.Conversation.{Answer, done, replied, RelayState}
use zendou_backend.SmtpRelay.Envelope.{SmtpSessionUser}

-- A recipient of the envelope, with the instant of its turn and what the database then generates.
pub record Recipient : Type 0 where
  pub address : Text
  pub now : ℕ
  pub fresh : Fresh

pub record Message : Type 0 where
  pub from : Text
  pub reply_to : List Text
  pub subject : Text
  pub raw : Text

pub data SmtpRecipientOutcome : Type 0 where
  queued suppressed : (address : Text) (public_id : ℕ) → SmtpRecipientOutcome
  refused : (address reason : Text) → SmtpRecipientOutcome

abbrev pub is_refused : SmtpRecipientOutcome → Bool
is_refused (refused _ _) = true
is_refused _ = false

abbrev outcome_of_status : Text → ℕ → SendStatus → SmtpRecipientOutcome
outcome_of_status address id as_queued = queued address id
outcome_of_status address id as_suppressed = suppressed address id

-- The reason is `describeRefusal`, whose logging is left out.
abbrev pub outcome_of : Text → Result SendEmailResponse → SmtpRecipientOutcome
outcome_of address (ok accepted) = outcome_of_status address accepted.id accepted.status
outcome_of address (err error) = refused address (smtp_reply_for_error error).message

-- `firstRefusal ??= error`, read from the first recipient on.
abbrev pub first_refusal : Result SendEmailResponse → Option Failure → Option Failure
first_refusal (ok _) later = later
first_refusal (err error) later = some error

abbrev pub smtp_accept_input : SmtpSessionUser → Message → Text → AcceptSmtpInput
smtp_accept_input user message address = record {
  from = message.from;
  to = address;
  subject = message.subject;
  reply_to = message.reply_to;
  raw = message.raw;
  smtp_credential_id = user.credential_id;
}

-- What the loop leaves: the outcomes, the first refusal and the state.
pub record Delivery : Type 0 where
  pub outcomes : List SmtpRecipientOutcome
  pub refusal : Option Failure
  pub world : World

abbrev pub add_outcome : Text → Result SendEmailResponse → Delivery → Delivery
add_outcome address result later = record {
  outcomes = outcome_of address result ∷ later.outcomes;
  refusal = first_refusal result later.refusal;
  world = later.world;
}

unfoldable pub deliver : Env → SmtpSessionUser → Message → List Recipient → World → Delivery
deliver env user message [] w = record { outcomes = []; refusal = none; world = w }
deliver env user message (recipient ∷ others) w =
    let (result, w') =
      accept_smtp (record env { now = recipient.now }) recipient.fresh user.user_id
        (smtp_accept_input user message recipient.address) w in
    add_outcome recipient.address result (deliver env user message others w')

abbrev pub reply_of_refusal : Option Failure → SmtpReply
reply_of_refusal none = reply_unknown_server_error
reply_of_refusal (some error) = smtp_reply_for_error error

unfoldable pub fan_out :
    Env
    → Session
    → SmtpSessionUser
    → Message
    → List Recipient
    → RelayState
    → Answer (List SmtpRecipientOutcome) × RelayState
fan_out env session user message recipients s =
    let delivery = deliver env user message recipients s.world in
    (
      if all is_refused delivery.outcomes
          then replied (reply_of_refusal delivery.refusal)
          else done delivery.outcomes,
      record { world = delivery.world; throttle = record_message session s.throttle },
    )

-- One part of the text behind the 250; a public identifier is spelled by `show`.
abbrev pub format_outcome : (ℕ → Text) → SmtpRecipientOutcome → Text
format_outcome show (queued address id) = address ++ text " accepté (" ++ show id ++ text ")"
format_outcome show (suppressed address id) =
    address
    ++ text " accepté sans expédition — adresse sur liste de suppression ("
    ++ show id
    ++ text ")"
format_outcome show (refused address reason) = address ++ text " non accepté — " ++ reason

unfoldable pub join_outcomes : (ℕ → Text) → List SmtpRecipientOutcome → Text
join_outcomes show [] = []
join_outcomes show (outcome ∷ []) = format_outcome show outcome
join_outcomes show (outcome ∷ next ∷ rest) =
    format_outcome show outcome ++ text " ; " ++ join_outcomes show (next ∷ rest)

abbrev pub format_smtp_accepted_reply : (ℕ → Text) → List SmtpRecipientOutcome → Text
format_smtp_accepted_reply show outcomes =
    text "2.0.0 Message pris en charge : " ++ join_outcomes show outcomes

abbrev decoded_subject : Option Text → Text
decoded_subject none = []
decoded_subject (some subject) = trim subject

abbrev pub subject_max_length : ℕ
subject_max_length = 300

-- The subject of the row; the message itself keeps its own.
unfoldable pub stored_subject : Option Text → Text
stored_subject subject =
    if is_blank (decoded_subject subject)
    then text "(sans objet)"
    else take subject_max_length (decoded_subject subject)
