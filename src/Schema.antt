-- ===== src/Schema.antt =====
-- prisma/schema.prisma: the tables, with the columns that the modelled code reads or writes.
--
-- A row's opaque `cuid()` key is a number; the generated keys and random public identifiers are
-- arguments of the operations that create rows. A `DateTime` is a number of milliseconds. The
-- queue `EMAIL_SEND_QUEUE` and the promises that the code starts without awaiting them (`void f()`)
-- are lists of the state, consumed by the worker and by `run_task`.
use zendou_backend.Common.{ℕ, Bool, true, false, Option, none, List, [], ◌==◌, find}
use zendou_backend.Common.Int.{ℤ}
use zendou_backend.Text.{Text}

pub data UserStatus : Type 0 where
  active suspended : UserStatus

pub data UserRole : Type 0 where
  customer admin : UserRole

pub data DomainStatus : Type 0 where
  pending verified failed temporary_failure : DomainStatus

pub data EmailStatus : Type 0 where
  queued sent delivered bounced complained rejected failed suppressed : EmailStatus

pub data SuppressionReason : Type 0 where
  hard_bounce complaint manual : SuppressionReason

pub data CredentialDomainScope : Type 0 where
  every selected : CredentialDomainScope

pub data EmailChannel : Type 0 where
  api smtp : EmailChannel

pub data TopUpStatus : Type 0 where
  pending approved rejected : TopUpStatus

pub data TopUpMethod : Type 0 where
  orange_money mtn_momo : TopUpMethod

pub data AdminActionType : Type 0 where
  suspend_user reactivate_user adjust_quota grant_credits : AdminActionType
  promote_admin demote_admin approve_topup reject_topup : AdminActionType
  delete_user anonymize_user : AdminActionType

pub record User : Type 0 where
  pub id : ℕ
  pub email : Text
  pub name : Text
  pub company : Option Text
  pub declared_usage : Option Text
  pub password_hash : Option Text
  pub google_sub : Option Text
  pub status : UserStatus
  pub role : UserRole
  pub daily_send_limit : ℕ
  pub reputation_reset_at : Option ℕ
  pub suspended_at : Option ℕ
  pub suspension_reason : Option Text
  pub email_verified_at : Option ℕ
  pub email_verification_token_hash : Option Text
  pub email_verification_sent_to : Option Text
  pub email_verification_expires_at : Option ℕ
  pub anonymized_at : Option ℕ
  pub last_activity_at : Option ℕ
  pub inactivity_warning_sent_at : Option ℕ
  pub low_balance_alert_sent_at : Option ℕ
  pub created_at : ℕ

-- `ApiKey` and `SmtpCredential`, with the linked rows of `ApiKeyDomain`, `SmtpCredentialDomain`. An
-- API key has no `username`, and an SMTP identifier no `can_read`: `none` and `false` stand there.
-- `secret_hash` is `keyHash` and `secretHash`.
pub record Credential : Type 0 where
  pub id : ℕ
  pub user_id : ℕ
  pub name : Text
  pub username : Option Text
  pub prefix : Text
  pub secret_hash : Text
  pub last_used_at : Option ℕ
  pub revoked_at : Option ℕ
  pub rotated_at : Option ℕ
  pub created_at : ℕ
  pub can_read : Bool
  pub domain_scope : CredentialDomainScope
  pub domains : List ℕ

pub record Domain : Type 0 where
  pub id : ℕ
  pub user_id : ℕ
  pub name : Text
  pub status : DomainStatus

pub record Email : Type 0 where
  pub id : ℕ
  pub public_id : ℕ
  pub user_id : ℕ
  pub domain_id : Option ℕ
  pub from_address : Text
  pub to_address : Text
  pub subject : Text
  pub status : EmailStatus
  pub ses_message_id : Option ℕ
  pub error_message : Option Text
  pub queued_at : ℕ
  pub sent_at : Option ℕ
  pub delivered_at : Option ℕ
  pub last_event_at : Option ℕ
  pub channel : EmailChannel
  pub smtp_credential_id : Option ℕ
  pub system : Bool

pub record Suppression : Type 0 where
  pub address : Text
  pub reason : SuppressionReason
  pub user_id : Option ℕ

pub data CreditReason : Type 0 where
  send topup welcome_bonus admin_grant : CreditReason

pub record CreditEntry : Type 0 where
  pub user_id : ℕ
  pub delta : ℤ
  pub reason : CreditReason
  pub reference : Option ℕ
  pub created_at : ℕ

pub record TopUpRequest : Type 0 where
  pub id : ℕ
  pub user_id : ℕ
  pub pack_id : Text
  pub credits : ℕ
  pub amount_gnf : ℕ
  pub method : TopUpMethod
  pub phone_number : Text
  pub transaction_ref : Text
  pub status : TopUpStatus
  pub reviewed_at : Option ℕ
  pub reviewed_by : Option ℕ
  pub rejection_reason : Option Text
  pub created_at : ℕ

-- `AdminAction.details`, by the type of the action.
pub data ActionDetails : Type 0 where
  no_details : ActionDetails
  reactivated : (reputation_reset_at : ℕ) (previous_reason : Option Text) → ActionDetails
  quota : (previous limit : ℕ) → ActionDetails
  granted : (delta : ℤ) → ActionDetails
  reviewed : (topup_request_id credits amount_gnf : ℕ) → ActionDetails
  deleted : (email name : Text) → ActionDetails
  anonymized : (user_id anonymized_at : ℕ) → ActionDetails

pub record AdminAction : Type 0 where
  pub id : ℕ
  pub admin_id : ℕ
  pub target_user_id : Option ℕ
  pub action : AdminActionType
  pub reason : Option Text
  pub details : ActionDetails
  pub created_at : ℕ

-- What Redis keeps of the sessions: under a token its client, under a client its tokens.
pub record Session : Type 0 where
  pub user_id : ℕ
  pub expires_at : ℕ

pub record SessionSet : Type 0 where
  pub tokens : List ℕ
  pub expires_at : ℕ

-- What a job carries besides the row that it names (`EmailSendJobData`).
pub data Content : Type 0 where
  simple :
      (html body : Option Text) (reply_to to_display : Option Text) (headers : List (Text × Text))
      → Content
  raw : Text → Content

pub record Job : Type 0 where
  pub job_id : ℕ
  pub email_id : ℕ
  pub content : Content

-- A promise that the code starts and does not await.
pub data Task : Type 0 where
  record_activity : (user_id : ℕ) (known : Option ℕ) → Task
  low_balance_alert : (user_id : ℕ) (estimated : ℤ) (alert_sent_at : Option ℕ) → Task

pub record World : Type 0 where
  pub users : List User
  pub api_keys : List Credential
  pub smtp_credentials : List Credential
  pub domains : List Domain
  pub emails : List Email
  pub suppressions : List Suppression
  pub credit_entries : List CreditEntry
  pub topup_requests : List TopUpRequest
  pub admin_actions : List AdminAction
  pub jobs : List Job
  pub sessions : ℕ → Option Session
  pub session_sets : ℕ → Option SessionSet
  pub tasks : List Task

-- `user.findUnique({ where: { id } })`
abbrev pub find_user : World → ℕ → Option User
find_user w id = find (λ u. u.id == id) w.users

abbrev pub is_verified : DomainStatus → Bool
is_verified verified = true
is_verified _ = false

abbrev pub is_suspended : UserStatus → Bool
is_suspended suspended = true
is_suspended active = false

abbrev pub is_queued : EmailStatus → Bool
is_queued queued = true
is_queued _ = false

-- `SENT_EMAIL_STATUSES`: the message has left for SES.
abbrev pub was_sent : EmailStatus → Bool
was_sent sent = true
was_sent delivered = true
was_sent bounced = true
was_sent complained = true
was_sent _ = false

abbrev pub is_pending : TopUpStatus → Bool
is_pending pending = true
is_pending _ = false

abbrev pub is_topup : CreditReason → Bool
is_topup topup = true
is_topup _ = false

abbrev pub no_world : World
no_world = record {
  users = [];
  api_keys = [];
  smtp_credentials = [];
  domains = [];
  emails = [];
  suppressions = [];
  credit_entries = [];
  topup_requests = [];
  admin_actions = [];
  jobs = [];
  sessions = λ _. none;
  session_sets = λ _. none;
  tasks = [];
}
