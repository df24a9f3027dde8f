-- ===== src/Emails/System.antt =====
-- What `EmailsService` does besides client sends: `sendSystem`, and the two promises that an
-- acceptance starts (`recordActivity`, `alertIfLowBalance`).
pub mod Exemption
pub mod Marks
pub mod Alert
use zendou_backend.Common.{
  ℕ, ◌+◌, ◌*◌, ◌-◌, ◌≡◌, Bool, true, false, not, ◌&&◌, ◌||◌, Option, none, some, List, [], ◌∷◌,
  ◌++◌, ltb, leb, ◌==◌, if◌then◌else◌, find, count, update_where, is_some, max,
}
use zendou_backend.Common.Int.{ℤ, pos, negsuc, ◌+ℤ◌, ltb_ℤ, pos_part}
use zendou_backend.Text.{Text, is_blank, trim}
use zendou_backend.Schema.{
  User, Domain, Email, queued, api, CreditEntry, simple, Job, Task, record_activity,
  low_balance_alert, World, find_user,
}
use zendou_backend.EmailAddress.{
  ParsedAddress, parse_email_address, normalize_email_address, format_email_address,
}
use zendou_backend.Ledger.{sum_delta, is_of, balance_of}
use zendou_backend.Emails.Refusal.{
  Failure, sender_unavailable, invalid_recipient, queue_down, Result, ok, err,
}
use zendou_backend.Emails.Stateful.{◌>>=◌, ◌>>◌, Exec, reads, writes, pure}
use zendou_backend.Emails.Checks.{Env, configured, is_verified_domain, is_address_suppressed}
use zendou_backend.Emails.Accept.{Fresh, create_email, enqueue}

pub record SystemEmailPayload : Type 0 where
  pub user_id : ℕ
  pub to : Text
  pub subject : Text
  pub html : Option Text
  pub body : Option Text

pub data SystemSendResult : Type 0 where
  queued_as : ℕ → SystemSendResult
  suppressed : SystemSendResult

-- The sender, the recipient and the sender's domain row.
pub record SystemChecked : Type 0 where
  pub from : ParsedAddress
  pub to_address : Text
  pub domain : Domain

abbrev check_system_domain : ParsedAddress → Text → Option Domain → Result SystemChecked
check_system_domain from to_address none = err sender_unavailable
check_system_domain from to_address (some d) =
    ok (record { from = from; to_address = to_address; domain = d })

abbrev check_system_recipient : ParsedAddress → Option Text → World → Result SystemChecked
check_system_recipient from none w = err invalid_recipient
check_system_recipient from (some to_address) w =
    check_system_domain from to_address (find (is_verified_domain from.domain) w.domains)

abbrev check_system_sender : Option ParsedAddress → Option Text → World → Result SystemChecked
check_system_sender none to_address w = err sender_unavailable
check_system_sender (some from) to_address w = check_system_recipient from to_address w

unfoldable pub check_system : Env → SystemEmailPayload → World → Result SystemChecked
check_system env payload w =
    if is_blank (configured env.system_email_from)
    then err sender_unavailable
    else check_system_sender (parse_email_address (configured env.system_email_from))
        (normalize_email_address payload.to) w

abbrev pub system_row : Env → Fresh → SystemEmailPayload → SystemChecked → Email
system_row env fresh payload c = record {
  id = fresh.email_id;
  public_id = fresh.public_id;
  user_id = payload.user_id;
  domain_id = some c.domain.id;
  from_address = format_email_address c.from;
  to_address = c.to_address;
  subject = payload.subject;
  status = queued;
  ses_message_id = none;
  error_message = none;
  queued_at = env.now;
  sent_at = none;
  delivered_at = none;
  last_event_at = none;
  channel = api;
  smtp_credential_id = none;
  system = true;
}

abbrev pub system_job : Fresh → SystemEmailPayload → Job
system_job fresh payload = record {
  job_id = fresh.public_id;
  email_id = fresh.email_id;
  content = simple payload.html payload.body none none [];
}

queue_system : Env → Fresh → SystemEmailPayload → SystemChecked → Exec SystemSendResult
queue_system env fresh payload c = do
  writes (create_email (system_row env fresh payload c))
  enqueue fresh.queue_up (system_job fresh payload)
  pure (queued_as fresh.public_id)

unfoldable pub send_system : Env → Fresh → SystemEmailPayload → Exec SystemSendResult
unfolding queue_system
send_system env fresh payload = do
  c ← reads (check_system env payload)
  blocked ← reads (λ w. ok (is_address_suppressed w payload.user_id c.to_address))
  if blocked then pure suppressed else queue_system env fresh payload c

-- src/account-lifecycle/account-activity.ts
abbrev pub activity_write_interval_ms : ℕ
activity_write_interval_ms = 60 * 60 * 1000

-- Known to be less than an hour old: `known > now - interval`.
abbrev pub known_recent : ℕ → Option ℕ → Bool
known_recent now none = false
known_recent now (some known) = ltb now (known + activity_write_interval_ms)

-- `OR: [{ lastActivityAt: null }, { lastActivityAt: { lte: threshold } }]`
abbrev stale : ℕ → Option ℕ → Bool
stale now none = true
stale now (some at) = leb (at + activity_write_interval_ms) now

abbrev pub is_activity_due : ℕ → ℕ → User → Bool
is_activity_due now user u =
    u.id == user && not (is_some u.anonymized_at) && stale now u.last_activity_at

abbrev pub touch : ℕ → User → User
touch now u = record u { last_activity_at = some now; inactivity_warning_sent_at = none }

unfoldable pub record_account_activity : ℕ → Option ℕ → ℕ → World → World
record_account_activity user known now w =
    if known_recent now known
    then w
    else record w { users = update_where (is_activity_due now user) (touch now) w.users }

-- Low balance.
abbrev pub low_balance_floor : ℕ
low_balance_floor = 50

-- The client's credit of the latest date; of two with one date, the first in the table.
later_of : CreditEntry → Option CreditEntry → Option CreditEntry
later_of e none = some e
later_of e (some f) = if ltb e.created_at f.created_at then some f else some e

unfoldable pub last_credit : ℕ → List CreditEntry → Option CreditEntry
unfolding later_of
last_credit user [] = none
last_credit user (e ∷ es) =
    let rest = last_credit user es in
    if is_of user e && ltb_ℤ (pos 0) e.delta then later_of e rest else rest

abbrev pub is_until : ℕ → ℕ → CreditEntry → Bool
is_until user at e = is_of user e && leb e.created_at at

-- `balance >= max(50, afterCredit * 0.1)`, ten times over: the product with `LOW_BALANCE_RATIO` is
-- exact enough to compare with a whole number of credits.
unfoldable pub is_above_threshold : ℤ → ℤ → Bool
is_above_threshold balance after_credit =
    leb low_balance_floor (pos_part balance) && leb (pos_part after_credit) (10 * pos_part balance)

-- `alertSentAt >= lastCredit.createdAt`
abbrev pub alerted_since : Option ℕ → ℕ → Bool
alerted_since none at = false
alerted_since (some sent) at = leb at sent

-- The `where` of the claim: the marker is absent or older than the last credit.
abbrev pub may_claim : ℕ → ℕ → User → Bool
may_claim user at u = u.id == user && not (alerted_since u.low_balance_alert_sent_at at)

abbrev pub mark : Option ℕ → User → User
mark at u = record u { low_balance_alert_sent_at = at }

-- What the alert decides before the claim: the date of the last credit, if an alert is due.
unfoldable pub alert_due : ℕ → ℤ → Option ℕ → World → Option ℕ
alert_due user estimated alert_sent_at w = elim (last_credit user w.credit_entries) [
  | none ↦ none
  | some credit ↦
      let after_credit = sum_delta (is_until user credit.created_at) w.credit_entries in
      if alerted_since alert_sent_at credit.created_at
      then none
      else if is_above_threshold estimated after_credit
          || is_above_threshold (balance_of w.credit_entries user) after_credit
      then none
      else some credit.created_at
]

-- The text of the message is composed elsewhere (low-balance-alert.template.ts).
pub record AlertText : Type 0 where
  pub subject : Text
  pub html : Text
  pub body : Text

abbrev pub alert_payload : ℕ → User → AlertText → SystemEmailPayload
alert_payload user account message = record {
  user_id = user;
  to = account.email;
  subject = message.subject;
  html = some message.html;
  body = some message.body;
}

-- The marker goes back where the message could not be sent.
abbrev pub settle : ℕ → Option ℕ → Result SystemSendResult × World → World
settle user alert_sent_at (ok _, w) = w
settle user alert_sent_at (err _, w) = record w {
  users = update_where (λ u. u.id == user) (mark alert_sent_at) w.users;
}

abbrev pub claim : Env → ℕ → ℕ → World → World
claim env user at w = record w {
  users = update_where (may_claim user at) (mark (some env.now)) w.users;
}

abbrev pub send_alert : Env → Fresh → ℕ → Option ℕ → AlertText → World → World
send_alert env fresh user alert_sent_at message w = elim (find_user w user) [
  | none ↦ w
  | some account ↦
      settle user alert_sent_at (send_system env fresh (alert_payload user account message) w)
]

unfoldable pub send_low_balance_alert : Env → Fresh → ℕ → ℤ → Option ℕ → AlertText → World → World
send_low_balance_alert env fresh user estimated alert_sent_at message w =
    elim (alert_due user estimated alert_sent_at w) [
      | none ↦ w
      | some at ↦
          if count (may_claim user at) w.users == 0
          then w
          else send_alert env fresh user alert_sent_at message (claim env user at w)
    ]

-- One of the started promises runs; its errors are logged and go no further.
unfoldable pub run_task : Env → Fresh → AlertText → Task → World → World
run_task env fresh message (record_activity user known) w =
    record_account_activity user known env.now w
run_task env fresh message (low_balance_alert user estimated alert_sent_at) w =
    send_low_balance_alert env fresh user estimated alert_sent_at message w
