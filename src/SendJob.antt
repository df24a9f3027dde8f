-- ===== src/SendJob.antt =====
-- src/emails/email-send.processor.ts: the worker of the queue.
--
-- The SES driver is an argument: what it answers to a request is decided outside. The run of a job
-- says which request, if any, was handed to it.
pub mod Replay
pub mod Retries
use zendou_backend.Common.{
  ℕ, Bool, true, false, Option, none, some, List, [], ◌∷◌, ltb, ◌==◌, if◌then◌else◌, find,
  update_where,
}
use zendou_backend.Text.{Text, take}
use zendou_backend.Schema.{
  Email, EmailStatus, sent, suppressed, failed, Content, Job, World, is_queued,
}
use zendou_backend.Emails.Checks.{is_address_suppressed}

abbrev pub error_message_max_length : ℕ
error_message_max_length = 1000

-- What is handed to `driver.send`.
pub record SendRequest : Type 0 where
  pub from : Text
  pub to : Text
  pub subject : Text
  pub content : Content

-- A message identifier, an error that `isPermanentSendError` recognises, or another error; an
-- error comes with its description (`describeError`).
pub data Attempt : Type 0 where
  delivered_as : ℕ → Attempt
  permanent : Text → Attempt
  temporary : Text → Attempt

-- How `process` ends: the state, the request handed over, the client whose limit is to be
-- recomputed (a promise that is not awaited), and the error that is thrown again.
pub record Run : Type 0 where
  pub world : World
  pub handed : Option SendRequest
  pub recompute : Option ℕ
  pub thrown : Option Text

abbrev pub find_email : World → ℕ → Option Email
find_email w id = find (λ e. e.id == id) w.emails

-- `email.update({ where: { id }, data })`
abbrev pub update_email : ℕ → (Email → Email) → World → World
update_email id f w = record w { emails = update_where (λ e. e.id == id) f w.emails }

abbrev pub suppress_row : ℕ → Email → Email
suppress_row now e = record e { status = suppressed; last_event_at = some now }

abbrev pub sent_row : ℕ → ℕ → Email → Email
sent_row now message_id e = record e {
  status = sent;
  ses_message_id = some message_id;
  sent_at = some now;
  last_event_at = some now;
}

abbrev pub failed_row : ℕ → Text → Email → Email
failed_row now error e = record e {
  status = failed;
  error_message = some (take error_message_max_length error);
  last_event_at = some now;
}

-- `markFailed`
abbrev pub mark_failed : ℕ → ℕ → Text → World → World
mark_failed now id error w = update_email id (failed_row now error) w

-- The address comes from the row, the bodies from the job.
abbrev pub request_of : Email → Job → SendRequest
request_of e job = record {
  from = e.from_address;
  to = e.to_address;
  subject = e.subject;
  content = job.content;
}

abbrev pub idle : World → Run
idle w = record { world = w; handed = none; recompute = none; thrown = none }

settle_attempt : ℕ → Email → SendRequest → World → Attempt → Run
settle_attempt now e request w (delivered_as message_id) = record {
  world = update_email e.id (sent_row now message_id) w;
  handed = some request;
  recompute = some e.user_id;
  thrown = none;
}
settle_attempt now e request w (permanent error) = record {
  world = mark_failed now e.id error w;
  handed = some request;
  recompute = none;
  thrown = none;
}
settle_attempt now e request w (temporary error) = record {
  world = w;
  handed = some request;
  recompute = none;
  thrown = some error;
}

process_row : ℕ → (SendRequest → Attempt) → Job → World → Email → Run
process_row now driver job w e =
    if is_queued e.status
    then (if is_address_suppressed w e.user_id e.to_address
        then idle (update_email e.id (suppress_row now) w)
        else settle_attempt now e (request_of e job) w (driver (request_of e job)))
    else idle w

unfoldable pub process : ℕ → (SendRequest → Attempt) → Job → World → Run
unfolding process_row settle_attempt
process now driver job w = elim (find_email w job.email_id) [
  | none ↦ idle w
  | some e ↦ process_row now driver job w e
]

-- `onFailed`; `attempts_made` counts the attempt that has just failed.
unfoldable pub on_failed : ℕ → Job → (attempts_made max_attempts : ℕ) → Text → World → World
on_failed now job attempts_made max_attempts error w =
    if ltb attempts_made max_attempts then w else mark_failed now job.email_id error w
