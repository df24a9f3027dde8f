-- ===== src/Admin/Users.antt =====
-- `suspend`, `reactivate`, `updateQuota` and `grantCredits` of `AdminUsersService`.
pub mod Resumption
use zendou_backend.Common.{
  ℕ, ◌==◌, Bool, true, false, not, Option, none, some, List, [], ◌∷◌, ◌++◌, if◌then◌else◌, is_some,
  update_where,
}
use zendou_backend.Common.Int.{ℤ}
use zendou_backend.Text.{Text}
use zendou_backend.Schema.{
  User, UserStatus, active, suspended, CreditEntry, admin_grant, AdminAction, AdminActionType,
  ActionDetails, no_details, reactivated, quota, granted, suspend_user, reactivate_user,
  adjust_quota, grant_credits, World, find_user, is_suspended,
}
use zendou_backend.Ledger.{balance_of}
use zendou_backend.Admin.{
  self_suspend, self_credit, user_already_suspended, user_already_active,
  anonymized_cannot_reactivate, user_not_found, AdminReply, performed, denied, commit, refuse_self,
  found,
}

-- An administrator's call: the instant, the key of the line of the journal, the administrator, and
-- the account.
pub record Call : Type 0 where
  pub now : ℕ
  pub key : ℕ
  pub admin : ℕ
  pub target : ℕ

abbrev pub action_of : Call → AdminActionType → Option Text → ActionDetails → AdminAction
action_of call type reason details = record {
  id = call.key;
  admin_id = call.admin;
  target_user_id = some call.target;
  action = type;
  reason = reason;
  details = details;
  created_at = call.now;
}

-- The account and the line that says what became of it.
abbrev pub write_user : Call → (User → User) → AdminAction → World → World
write_user call change action w = record w {
  users = update_where (λ u. u.id == call.target) change w.users;
  admin_actions = w.admin_actions ++ action ∷ [];
}

abbrev pub suspend_row : ℕ → Text → User → User
suspend_row now reason u = record u {
  status = suspended;
  suspended_at = some now;
  suspension_reason = some reason;
}

abbrev pub suspendable : Option User → AdminReply User
suspendable none = denied user_not_found
suspendable (some user) =
    if is_suspended user.status then denied user_already_suspended else performed user

unfoldable pub suspend : Call → Text → World → AdminReply User × World
suspend call reason w =
    commit (refuse_self call.admin call.target self_suspend (suspendable (find_user w call.target)))
      (λ user. (
        performed (suspend_row call.now reason user),
        write_user call (suspend_row call.now reason)
            (action_of call suspend_user (some reason) no_details) w,
      ))
      w

abbrev pub reactivate_row : ℕ → User → User
reactivate_row now u = record u {
  status = active;
  reputation_reset_at = some now;
  suspended_at = none;
  suspension_reason = none;
}

abbrev pub reactivable : Option User → AdminReply User
reactivable none = denied user_not_found
reactivable (some user) =
    if is_some user.anonymized_at
    then denied anonymized_cannot_reactivate
    else if not (is_suspended user.status)
    then denied user_already_active
    else performed user

unfoldable pub reactivate : Call → Option Text → World → AdminReply User × World
reactivate call reason w =
    commit (reactivable (find_user w call.target))
      (λ user. (
        performed (reactivate_row call.now user),
        write_user call (reactivate_row call.now)
            (action_of call reactivate_user reason (reactivated call.now user.suspension_reason)) w,
      ))
      w

abbrev pub quota_row : ℕ → User → User
quota_row limit u = record u { daily_send_limit = limit }

-- The new limit and the one before.
unfoldable pub update_quota : Call → ℕ → World → AdminReply (ℕ × ℕ) × World
update_quota call limit w =
    commit (found (find_user w call.target))
      (λ user. (
        performed (limit, user.daily_send_limit),
        write_user call (quota_row limit)
            (action_of call adjust_quota none (quota user.daily_send_limit limit)) w,
      ))
      w

abbrev pub grant_entry : Call → ℤ → CreditEntry
grant_entry call delta = record {
  user_id = call.target;
  delta = delta;
  reason = admin_grant;
  reference = some call.key;
  created_at = call.now;
}

abbrev pub write_grant : Call → ℤ → Text → World → World
write_grant call delta reason w = record w {
  credit_entries = w.credit_entries ++ grant_entry call delta ∷ [];
  admin_actions =
      w.admin_actions ++ action_of call grant_credits (some reason) (granted delta) ∷ [];
}

-- The balance after the grant.
unfoldable pub grant : Call → ℤ → Text → World → AdminReply ℤ × World
grant call delta reason w =
    commit (refuse_self call.admin call.target self_credit (found (find_user w call.target)))
      (λ user. (
        performed (balance_of (write_grant call delta reason w).credit_entries call.target),
        write_grant call delta reason w,
      ))
      w
