-- ===== src/AccountLifecycle/Anonymization.antt =====
-- account-anonymization.service.ts: the erasure of an account, on request or for inactivity. The
-- deletion of an identity at SES is a function of its name that says whether it worked.
pub mod Erasure
pub mod Traces
use zendou_backend.Common.{
  ℕ, ◌==◌, Bool, true, false, not, ◌&&◌, ◌||◌, Option, none, some, List, [], ◌∷◌, ◌++◌,
  if◌then◌else◌, is_some, count, update_where, remove_where,
}
use zendou_backend.Text.{Text, text}
use zendou_backend.Schema.{
  User, UserRole, admin, customer, suspended, Domain, TopUpRequest, anonymize_user, anonymized,
  World, find_user,
}
use zendou_backend.Sessions.{destroy_all_for_user}
use zendou_backend.Admin.{
  Denial, self_anonymize, user_not_found, admin_anonymize, already_anonymized, AdminReply,
  performed, denied,
}
use zendou_backend.Admin.Users.{Call, action_of}
use zendou_backend.AccountLifecycle.{
  has_purchased_credits, inactive_since, marked_before, mask_phone_number,
}

-- `AnonymizationOrigin`
pub data Origin : Type 0 where
  by_admin : (reviewer : ℕ) → Origin
  by_inactivity : (inactive_since warned_before : ℕ) → Origin

-- What a call needs besides the state: the instant, the key of the line of the journal, how a key
-- is spelled, and the answers of SES and of the store of sessions.
pub record Erasing : Type 0 where
  pub now : ℕ
  pub key : ℕ
  pub spell : ℕ → Text
  pub deletes_identity : Text → Bool
  pub redis_up : Bool

-- `remainingActions`
pub data RemainingAction : Type 0 where
  delete_identity : Text → RemainingAction
  revoke_sessions : RemainingAction

pub record AnonymizationResult : Type 0 where
  pub anonymized_at : ℕ
  pub remaining_actions : List RemainingAction

abbrev pub is_admin : UserRole → Bool
is_admin admin = true
is_admin customer = false

abbrev pub anonymized_email : (ℕ → Text) → ℕ → Text
anonymized_email spell user = text "anonymise-" ++ spell user ++ text "@anonymise.invalid"

abbrev pub anonymized_name : Text
anonymized_name = text "Compte anonymisé"

abbrev pub anonymized_reason : Origin → Text
anonymized_reason (by_admin _) =
    text "Compte anonymisé sur demande d'effacement des données personnelles."
anonymized_reason (by_inactivity _ _) =
    text "Compte anonymisé automatiquement après 24 mois d'inactivité."

abbrev pub anonymize_row : Erasing → Origin → User → User
anonymize_row ctx origin u = record u {
  email = anonymized_email ctx.spell u.id;
  name = anonymized_name;
  company = none;
  declared_usage = none;
  password_hash = none;
  google_sub = none;
  email_verification_token_hash = none;
  email_verification_sent_to = none;
  email_verification_expires_at = none;
  status = suspended;
  suspended_at = some ctx.now;
  suspension_reason = some (anonymized_reason origin);
  anonymized_at = some ctx.now;
  inactivity_warning_sent_at = none;
}

-- `eligibilityWhere`, checked again at the moment of writing.
abbrev pub is_eligible : Origin → User → Bool
is_eligible (by_admin _) u = true
is_eligible (by_inactivity cutoff before) u =
    marked_before before u.inactivity_warning_sent_at && inactive_since cutoff u

abbrev pub may_rewrite : Origin → ℕ → User → Bool
may_rewrite origin user u =
    u.id == user && not (is_some u.anonymized_at) && not (is_admin u.role) && is_eligible origin u

abbrev pub owned_by : ℕ → Option ℕ → Bool
owned_by user none = false
owned_by user (some owner) = owner == user

abbrev pub mask_request : TopUpRequest → TopUpRequest
mask_request r = record r {
  phone_number = mask_phone_number r.phone_number;
  rejection_reason = none;
}

abbrev call_of : Erasing → ℕ → ℕ → Call
call_of ctx reviewer user = record { now = ctx.now; key = ctx.key; admin = reviewer; target = user }

abbrev pub log_erasure : Erasing → Origin → ℕ → World → World
log_erasure ctx (by_inactivity _ _) user w = w
log_erasure ctx (by_admin reviewer) user w = record w {
  admin_actions =
      w.admin_actions
      ++ action_of (call_of ctx reviewer user) anonymize_user none (anonymized user ctx.now) ∷ [];
}

-- What the transaction rewrites and deletes.
abbrev pub erased : Erasing → Origin → ℕ → World → World
erased ctx origin user w = record w {
  users = update_where (may_rewrite origin user) (anonymize_row ctx origin) w.users;
  emails = remove_where (λ e. e.user_id == user) w.emails;
  api_keys = remove_where (λ k. k.user_id == user) w.api_keys;
  smtp_credentials = remove_where (λ k. k.user_id == user) w.smtp_credentials;
  domains = remove_where (λ d. d.user_id == user) w.domains;
  suppressions = remove_where (λ s. owned_by user s.user_id) w.suppressions;
  topup_requests = update_where (λ r. r.user_id == user) mask_request w.topup_requests;
}

abbrev pub write_erasure : Erasing → Origin → ℕ → World → World
write_erasure ctx origin user w = log_erasure ctx origin user (erased ctx origin user w)

-- The identities of the account's domains that could not be destroyed.
abbrev left_identities : Erasing → ℕ → List Domain → List RemainingAction
left_identities ctx user [] = []
left_identities ctx user (d ∷ ds) =
    let rest = left_identities ctx user ds in
    if d.user_id == user && not (ctx.deletes_identity d.name)
    then delete_identity d.name ∷ rest
    else rest

abbrev pub revoke : Erasing → ℕ → World → World
revoke ctx user w = if ctx.redis_up then destroy_all_for_user ctx.now user w else w

abbrev left_sessions : Erasing → List RemainingAction
left_sessions ctx = if ctx.redis_up then [] else revoke_sessions ∷ []

abbrev by_itself : Origin → Bool
by_itself (by_admin _) = false
by_itself (by_inactivity _ _) = true

-- What the reads of the transaction decide: an erasure, nothing, or a refusal.
pub data Decision : Type 0 where
  erase skip : Decision
  refuse : Denial → Decision

abbrev pub decide : Origin → ℕ → World → Option User → Decision
decide origin user w none = refuse user_not_found
decide origin user w (some u) =
    if by_itself origin && (is_admin u.role || is_some u.anonymized_at)
    then skip
    else if by_itself origin && has_purchased_credits w user
    then skip
    else if is_admin u.role
    then refuse admin_anonymize
    else if is_some u.anonymized_at
    then refuse already_anonymized
    else if count (may_rewrite origin user) w.users == 0
    then if by_itself origin then skip else refuse already_anonymized
    else erase

abbrev pub is_self : Origin → ℕ → Bool
is_self (by_admin reviewer) user = reviewer == user
is_self (by_inactivity _ _) user = false

abbrev pub carry_out :
    Erasing → Origin → ℕ → World → Decision → AdminReply (Option AnonymizationResult) × World
carry_out ctx origin user w (refuse denial) = (denied denial, w)
carry_out ctx origin user w skip = (performed none, w)
carry_out ctx origin user w erase = (
  performed (
      some (record {
        anonymized_at = ctx.now;
        remaining_actions = left_identities ctx user w.domains ++ left_sessions ctx;
      })),
  revoke ctx user (write_erasure ctx origin user w),
)

unfoldable pub anonymize :
    Erasing → ℕ → Origin → World → AdminReply (Option AnonymizationResult) × World
anonymize ctx user origin w =
    if is_self origin user
    then (denied self_anonymize, w)
    else carry_out ctx origin user w (decide origin user w (find_user w user))
