-- ===== src/AccountLifecycle/Permanence.antt =====
-- An erased account stays closed, whatever comes after.
pub mod Steps
use zendou_backend.Common.{
  ℕ, ◌≡◌, ◌≢◌, refl, sym, ap, ◌∙◌, inl, inr, Bool, true, false, not, ◌&&◌, Option, none, some, List,
  [], ◌∷◌, arith, ◌==◌, ==_iff, Bool-cases, Option-cases, is_some, if◌then◌else◌, find, find_sound,
  find-update_any, find-remove_other, count, update_where,
}
use mathlib.Core.Path.{subst}
use zendou_backend.Common.Int.{ℤ}
use zendou_backend.Text.{Text}
use zendou_backend.Schema.{User, World, find_user, is_suspended}
use zendou_backend.Sessions.{destroy_all_for_user}
use zendou_backend.Emails.Refusal.{Result, ok, err}
use zendou_backend.Emails.Checks.{Env}
use zendou_backend.Emails.Accept.{Fresh}
use zendou_backend.Emails.System.{
  AlertText, SystemSendResult, alert_payload, record_account_activity, known_recent,
  is_activity_due, touch, may_claim, mark, claim, settle, send_alert, alert_due,
  send_low_balance_alert, send_system,
}
use zendou_backend.Emails.System.Exemption.{send_system-IsExempt}
use zendou_backend.Reputation.{
  Context, evaluate, evaluate_user, suspend_user, apply_verdict, metrics_of, suspend, warning,
  healthy, Verdict, suspend_row, write_suspension,
}
use zendou_backend.Reputation.Neutral.{alert_administrator-users}
use zendou_backend.Admin.{AdminReply, performed, denied, commit}
use zendou_backend.Admin.Users.{Call, reactivate_row, reactivable, reactivate}
use zendou_backend.Admin.Deletion.{delete_account}
use zendou_backend.Admin.Deletion.Complete.{
  DeletionOutcome, refuses, deletes, delete_account-DeletionOutcome,
}
use zendou_backend.AccountLifecycle.Anonymization.{
  Origin, Erasing, anonymize_row, may_rewrite, Decision, erase, skip, refuse, decide, carry_out,
  is_self, anonymize,
}
use zendou_backend.AccountLifecycle.Anonymization.Traces.{after-same}

-- A row that is erased and suspended.
abbrev pub ClosedRow : User → Type 0
ClosedRow u = (is_some u.anonymized_at ≡ true) × (is_suspended u.status ≡ true)

-- The account is there, erased and suspended.
pub record IsClosed (user : ℕ) (w : World) : Type 0 where
  pub account : User
  pub row : find_user w user ≡ some account
  pub closed : ClosedRow account

module _ (user : ℕ) (w : World) (h : IsClosed user w) where
  own : (h.account.id == user) ≡ true
  own = find_sound (λ (u : User). u.id == user) w.users h.account h.row

  pub same-IsClosed : (w' : World) → w'.users ≡ w.users → IsClosed user w'
  same-IsClosed w' e = record {
    account = h.account;
    row = ap (λ (us : List User). find (λ u. u.id == user) us) e ∙ h.row;
    closed = h.closed;
  }

  -- An update that keeps closed what it rewrites of this account.
  pub update-IsClosed :
      (w' : World) (q : User → Bool) (f : User → User)
      → ((u : User) → (f u).id ≡ u.id)
      → (q h.account ≡ true → ClosedRow (f h.account))
      → w'.users ≡ update_where q f w.users
      → IsClosed user w'
  update-IsClosed w' q f keeps closes e = record {
    account = if q h.account then f h.account else h.account;
    row =
        ap (λ (us : List User). find (λ u. u.id == user) us) e
        ∙ find-update_any (λ (u : User). u.id == user) f q w.users h.account
            (λ u. ap (λ (id : ℕ). id == user) (keeps u)) h.row;
    closed = elim (Bool-cases (q h.account)) [
      | inl hit ↦ rw hit (closes hit)
      | inr missed ↦ rw missed h.closed
    ];
  }

  -- The activity of an erased account is not recorded.
  pub record_account_activity-IsClosed :
      (known : Option ℕ) (now other : ℕ) → IsClosed user (record_account_activity other known now w)
  unfolding record_account_activity
  record_account_activity-IsClosed known now other = elim (Bool-cases (known_recent now known)) [
    | inl recent ↦ rw recent h
    | inr due ↦ rw due (
        update-IsClosed _ (is_activity_due now other) (touch now) (λ u. refl)
          (λ hit. (h.closed.0, h.closed.1)) refl)
  ]

  pub commit-IsClosed :
      {A B : Type 0} (guard : AdminReply A) (write : A → AdminReply B × World)
      → ((a : A) → IsClosed user (write a).1)
      → IsClosed user (commit guard write w).1
  commit-IsClosed (denied reason) write writes = h
  commit-IsClosed (performed a) write writes = writes a

  -- A reactivation refuses it.
  pub reactivate-IsClosed :
      (call : Call) (why : Option Text) → IsClosed user (reactivate call why w).1
  unfolding reactivate
  reactivate-IsClosed call why = elim (Bool-cases (h.account.id == call.target)) [
    | inl aimed ↦
        let target : call.target ≡ user = ground (arith, own) in
        let row : find_user w call.target ≡ some h.account =
          subst (λ (id : ℕ). find_user w id ≡ some h.account) (sym target) h.row in
        rw row (rw (h.closed.0) h)
    | inr other ↦ commit-IsClosed (reactivable (find_user w call.target)) _ (λ u.
        update-IsClosed _ (λ (v : User). v.id == call.target) (reactivate_row call.now) (λ v. refl)
          (λ hit. cc) refl)
  ]

  verdict-IsClosed :
      (ctx : Context) (u : User) (v : Verdict) → IsClosed user (apply_verdict ctx u v w)
  unfolding suspend_user
  verdict-IsClosed ctx u warning = h
  verdict-IsClosed ctx u healthy = h
  verdict-IsClosed ctx u suspend = elim (Bool-cases (is_suspended u.status)) [
    | inl already ↦ rw already h
    | inr active ↦ rw active (
        update-IsClosed _ (λ (v : User). v.id == u.id) (suspend_row ctx.env.now ctx.reason)
          (λ v. refl) (λ hit. (h.closed.0, refl))
          (alert_administrator-users ctx (write_suspension ctx.env.now ctx.reason u.id w)))
  ]

  pub evaluate-IsClosed : (ctx : Context) (other : ℕ) → IsClosed user (evaluate ctx other w).1
  unfolding evaluate evaluate_user
  evaluate-IsClosed ctx other = elim (Option-cases (find_user w other)) [
    | inl missing ↦ rw (missing, evaluate) h
    | inr (u, found) ↦ rw (found, evaluate) (verdict-IsClosed ctx u _)
  ]

  delete-outcome :
      (call : Call) {reply : AdminReply ℕ} {w' : World}
      → call.target ≢ user
      → DeletionOutcome call w reply w'
      → IsClosed user w'
  unfolding destroy_all_for_user
  delete-outcome call differ (refuses _) = h
  delete-outcome call differ (deletes u _ _ _) = record {
    account = h.account;
    row =
        find-remove_other (λ (u : User). u.id == call.target) (λ (u : User). u.id == user)
          (λ u e. ground arith) w.users
        ∙ h.row;
    closed = h.closed;
  }

  pub delete_account-IsClosed :
      (call : Call) → call.target ≢ user → IsClosed user (delete_account call w).1
  delete_account-IsClosed call differ =
      delete-outcome call differ (delete_account-DeletionOutcome call w)

  carry_out-IsClosed :
      (ctx : Erasing) (origin : Origin) (other : ℕ) (d : Decision)
      → IsClosed user (carry_out ctx origin other w d).1
  unfolding destroy_all_for_user
  carry_out-IsClosed ctx origin other (refuse denial) = h
  carry_out-IsClosed ctx origin other skip = h
  carry_out-IsClosed ctx origin other erase =
      update-IsClosed _ (may_rewrite origin other) (anonymize_row ctx origin) (λ v. refl)
        (λ hit. (refl, refl))
        (after-same ctx other origin w (λ v. v.users) (λ v a. refl) (λ v. refl))

  pub anonymize-IsClosed :
      (ctx : Erasing) (origin : Origin) (other : ℕ) → IsClosed user (anonymize ctx other origin w).1
  unfolding anonymize
  anonymize-IsClosed ctx origin other = elim (Bool-cases (is_self origin other)) [
    | inl self ↦ rw self h
    | inr asked ↦
        rw asked (carry_out-IsClosed ctx origin other (decide origin other w (find_user w other)))
  ]
