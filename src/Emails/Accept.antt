-- ===== src/Emails/Accept.antt =====
-- `EmailsService.accept`, the single point of acceptance, and its two callers `send` (API) and
-- `acceptSmtp` (relay). The checks that come first and only read are in the child `Request`.
pub mod Request
pub mod Charge
pub mod Authority
pub mod Guarantees
use zendou_backend.Common.{
  ℕ, Bool, true, false, Option, none, some, List, [], ◌∷◌, ◌++◌, if◌then◌else◌,
}
use zendou_backend.Common.Int.{ℤ, pos, negsuc, ◌-ℤ◌}
use zendou_backend.Text.{Text, is_blank}
use zendou_backend.Schema.{
  Email, EmailStatus, queued, suppressed, EmailChannel, api, smtp, CreditEntry, send, Content,
  simple, raw, Job, Task, record_activity, low_balance_alert, World,
}
use zendou_backend.EmailAddress.{format_email_address}
use zendou_backend.EmailHeaders.{HeaderValue, validate_custom_headers}
use zendou_backend.Emails.Refusal.{invalid_headers, queue_down, ok, err}
use zendou_backend.Emails.Stateful.{◌>>=◌, ◌>>◌, Exec, reads, writes, pure}
use zendou_backend.Emails.Checks.{
  Env, credits_per_email, assert_sufficient_credits, assert_daily_limit_not_reached,
  is_address_suppressed,
}
use Request.{AcceptInput, SendContent, Checked, check_request}

-- What the database generates for a row, the random public identifier, and whether the queue
-- can be reached.
pub record Fresh : Type 0 where
  pub email_id : ℕ
  pub public_id : ℕ
  pub queue_up : Bool

pub data SendStatus : Type 0 where
  as_queued as_suppressed : SendStatus

pub record SendEmailResponse : Type 0 where
  pub id : ℕ
  pub status : SendStatus

-- The row to be created; `status` and `last_event_at` differ by branch.
abbrev pub email_row : Env → Fresh → ℕ → AcceptInput → Checked → EmailStatus → Option ℕ → Email
email_row env fresh user input c status last_event_at = record {
  id = fresh.email_id;
  public_id = fresh.public_id;
  user_id = user;
  domain_id = c.domain_id;
  from_address = format_email_address c.from;
  to_address = c.to.address;
  subject = input.subject;
  status = status;
  ses_message_id = none;
  error_message = none;
  queued_at = env.now;
  sent_at = none;
  delivered_at = none;
  last_event_at = last_event_at;
  channel = input.channel;
  smtp_credential_id = input.smtp_credential_id;
  system = false;
}

abbrev pub debit : Env → Fresh → ℕ → CreditEntry
debit env fresh user = record {
  user_id = user;
  delta = negsuc 0;
  reason = send;
  reference = some fresh.public_id;
  created_at = env.now;
}

abbrev pub first : List Text → Option Text
first [] = none
first (t ∷ _) = some t

abbrev display : Checked → Option Text
display c = elim c.to.name [
  | none ↦ none
  | some name ↦ if is_blank name then none else some (format_email_address c.to)
]

abbrev pub job_content : SendContent → Checked → Content
job_content (SendContent.raw bytes) c = raw bytes
job_content (SendContent.simple html body headers) c =
    simple c.html c.body (first c.reply_to) (display c) headers

abbrev pub job_of : Fresh → AcceptInput → Checked → Job
job_of fresh input c = record {
  job_id = fresh.public_id;
  email_id = fresh.email_id;
  content = job_content input.content c;
}

abbrev pub create_email : Email → World → World
create_email e w = record w { emails = w.emails ++ e ∷ [] }

-- The transaction: the row and its debit, together or not at all.
abbrev pub create_and_debit : Email → CreditEntry → World → World
create_and_debit e entry w = record w {
  emails = w.emails ++ e ∷ [];
  credit_entries = w.credit_entries ++ entry ∷ [];
}

-- `queue.add`
abbrev pub enqueue : Bool → Job → Exec (Unit {0})
enqueue true job w = (ok tt, record w { jobs = w.jobs ++ job ∷ [] })
enqueue false job w = (err queue_down, w)

-- `void f(…)`: started, not awaited.
abbrev pub start : Task → Exec (Unit {0})
start task = writes (λ w. record w { tasks = w.tasks ++ task ∷ [] })

-- A blocked address: the row is kept for the client's journal, free of charge and off the queue.
accept_suppressed : Env → Fresh → ℕ → AcceptInput → Checked → Exec SendEmailResponse
accept_suppressed env fresh user input c = do
  writes (create_email (email_row env fresh user input c suppressed (some env.now)))
  start (record_activity user c.account.last_activity_at)
  pure (record { id = fresh.public_id; status = as_suppressed })

accept_queued : Env → Fresh → ℕ → AcceptInput → Checked → Exec SendEmailResponse
accept_queued env fresh user input c = do
  balance_before ← reads (assert_sufficient_credits user 1)
  reads (assert_daily_limit_not_reached env user 1)
  writes (create_and_debit (email_row env fresh user input c queued none) (debit env fresh user))
  enqueue fresh.queue_up (job_of fresh input c)
  start (record_activity user c.account.last_activity_at)
  start (
      low_balance_alert user (balance_before -ℤ pos credits_per_email)
        c.account.low_balance_alert_sent_at)
  pure (record { id = fresh.public_id; status = as_queued })

unfoldable pub accept : Env → Fresh → ℕ → AcceptInput → Exec SendEmailResponse
unfolding accept_suppressed accept_queued
accept env fresh user input = do
  c ← reads (check_request env user input)
  blocked ← reads (λ w. ok (is_address_suppressed w user c.to.address))
  if blocked then accept_suppressed env fresh user input c else accept_queued env fresh user input c

-- `SendEmailDto`; `headers` is any value that the client sends, `reply_to` one address at most.
pub record SendEmailDto : Type 0 where
  pub from : Text
  pub to : Text
  pub subject : Text
  pub reply_to : Option Text
  pub html : Option Text
  pub body : Option Text
  pub headers : Option (Option (List (Text × HeaderValue)))

-- The headers as they travel: `validateCustomHeaders` has let through strings alone.
abbrev strings : List (Text × HeaderValue) → List (Text × Text)
strings [] = []
strings ((name, HeaderValue.string value) ∷ rest) = (name, value) ∷ strings rest
strings ((name, HeaderValue.other) ∷ rest) = strings rest

abbrev given_headers : Option (Option (List (Text × HeaderValue))) → List (Text × Text)
given_headers (some (some entries)) = strings entries
given_headers _ = []

abbrev to_list : Option Text → List Text
to_list none = []
to_list (some t) = t ∷ []

abbrev pub api_input : SendEmailDto → Option ℕ → AcceptInput
api_input dto api_key_id = record {
  from = dto.from;
  to = dto.to;
  subject = dto.subject;
  reply_to = to_list dto.reply_to;
  content = SendContent.simple dto.html dto.body (given_headers dto.headers);
  channel = api;
  smtp_credential_id = none;
  api_key_id = api_key_id;
}

abbrev headers_refused : Option (Option (List (Text × HeaderValue))) → Bool
headers_refused none = false
headers_refused (some headers) = elim (validate_custom_headers headers) [
  | none ↦ false
  | some _ ↦ true
]

unfoldable pub send_email : Env → Fresh → ℕ → SendEmailDto → Option ℕ → Exec SendEmailResponse
send_email env fresh user dto api_key_id =
    if headers_refused dto.headers
    then reads (λ _. err invalid_headers)
    else accept env fresh user (api_input dto api_key_id)

pub record AcceptSmtpInput : Type 0 where
  pub from : Text
  pub to : Text
  pub subject : Text
  pub reply_to : List Text
  pub raw : Text
  pub smtp_credential_id : ℕ

abbrev pub smtp_input : AcceptSmtpInput → AcceptInput
smtp_input input = record {
  from = input.from;
  to = input.to;
  subject = input.subject;
  reply_to = input.reply_to;
  content = SendContent.raw input.raw;
  channel = smtp;
  smtp_credential_id = some input.smtp_credential_id;
  api_key_id = none;
}

unfoldable pub accept_smtp : Env → Fresh → ℕ → AcceptSmtpInput → Exec SendEmailResponse
accept_smtp env fresh user input = accept env fresh user (smtp_input input)
