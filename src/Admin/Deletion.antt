-- ===== src/Admin/Deletion.antt =====
-- `deleteUser` of `AdminUsersService`: the hard deletion of an account that has never been active.
pub mod Blockers
pub mod Complete
use zendou_backend.Common.{
  ℕ, ◌==◌, ◌||◌, ◌&&◌, Bool, true, false, not, Option, none, some, List, [], ◌∷◌, ◌++◌, ltb,
  if◌then◌else◌, count, remove_where, update_where,
}
use zendou_backend.Schema.{
  User, Domain, Credential, Email, CreditEntry, CreditReason, welcome_bonus, TopUpRequest,
  AdminAction, delete_user, deleted, World, find_user,
}
use zendou_backend.Sessions.{destroy_all_for_user}
use zendou_backend.Admin.{
  Blocker, self_delete, delete_blocked, invariant_violated, AdminReply, performed, denied, commit,
  refuse_self, found,
}
use zendou_backend.Admin.Users.{Call, action_of}

abbrev pub is_welcome : CreditReason → Bool
is_welcome welcome_bonus = true
is_welcome _ = false

-- `system: false` and `reason: { not: WELCOME_BONUS }`
abbrev pub is_client_email : ℕ → Email → Bool
is_client_email user e = e.user_id == user && not e.system

abbrev pub is_system_email : ℕ → Email → Bool
is_system_email user e = e.user_id == user && e.system

abbrev pub is_client_entry : ℕ → CreditEntry → Bool
is_client_entry user e = e.user_id == user && not (is_welcome e.reason)

abbrev pub is_welcome_entry : ℕ → CreditEntry → Bool
is_welcome_entry user e = e.user_id == user && is_welcome e.reason

abbrev pub blocker : (ℕ → Blocker) → ℕ → List Blocker → List Blocker
blocker name number others = if ltb 0 number then name number ∷ others else others

-- `buildDeleteBlockers`, on the seven counts.
unfoldable pub delete_blockers : ℕ → World → List Blocker
delete_blockers user w = blocker Blocker.domains (count (λ d. d.user_id == user) w.domains) (
    blocker Blocker.api_keys (count (λ k. k.user_id == user) w.api_keys) (
      blocker Blocker.smtp_credentials (count (λ k. k.user_id == user) w.smtp_credentials) (
        blocker Blocker.emails (count (is_client_email user) w.emails) (
          blocker Blocker.credit_entries (count (is_client_entry user) w.credit_entries) (
            blocker Blocker.topup_requests (count (λ r. r.user_id == user) w.topup_requests) (
              blocker Blocker.admin_actions (count (λ a. a.admin_id == user) w.admin_actions)
                []))))))

abbrev unblocked : User → List Blocker → AdminReply User
unblocked user [] = performed user
unblocked user (b ∷ bs) = denied (delete_blocked (b ∷ bs))

abbrev deletable : ℕ → World → Option User → AdminReply User
deletable id w none = found none
deletable id w (some user) = unblocked user (delete_blockers id w)

abbrev pub is_target : ℕ → Option ℕ → Bool
is_target user none = false
is_target user (some target) = target == user

-- `onDelete: SetNull` of `AdminAction.targetUserId`.
abbrev pub forget_target : AdminAction → AdminAction
forget_target a = record a { target_user_id = none }

-- The line of the journal and the cascade.
abbrev pub write_cascade : Call → User → World → World
write_cascade call user w = record w {
  emails = remove_where (is_system_email call.target) w.emails;
  credit_entries = remove_where (is_welcome_entry call.target) w.credit_entries;
  admin_actions =
      w.admin_actions ++ action_of call delete_user none (deleted user.email user.name) ∷ [];
}

-- `user.delete`
abbrev pub remove_user : ℕ → World → World
remove_user user w = record w {
  users = remove_where (λ u. u.id == user) w.users;
  admin_actions = update_where (λ a. is_target user a.target_user_id) forget_target w.admin_actions;
}

-- The check of the invariant, on the state after the cascade.
abbrev pub leaves_rows : ℕ → World → Bool
leaves_rows user w =
    ltb 0 (count (λ e. e.user_id == user) w.emails)
    || ltb 0 (count (λ e. e.user_id == user) w.credit_entries)

-- The sessions go after the transaction has been committed; Redis is taken to answer.
abbrev pub finish_deletion : Call → User → World → AdminReply ℕ × World
finish_deletion call user w =
    if leaves_rows call.target (write_cascade call user w)
    then (denied invariant_violated, w)
    else (
      performed call.key,
      destroy_all_for_user call.now call.target
          (remove_user call.target (write_cascade call user w)),
    )

unfoldable pub delete_account : Call → World → AdminReply ℕ × World
delete_account call w =
    commit
      (refuse_self call.admin call.target self_delete
        (deletable call.target w (find_user w call.target)))
      (λ user. finish_deletion call user w) w
