-- ===== src/AccountLifecycle/Permanence/Steps.antt =====
-- The operations that write accounts, in any order, after an erasure.
use zendou_backend.Common.{
  ℕ, ◌≡◌, ◌≢◌, refl, inl, inr, Option, none, some, ◌==◌, Bool-cases, Option-cases, count,
}
use zendou_backend.Common.Int.{ℤ}
use zendou_backend.Text.{Text}
use zendou_backend.Schema.{User, World, Task, record_activity, low_balance_alert, find_user}
use zendou_backend.Emails.Refusal.{account_suspended, refused, Result, ok, err}
use zendou_backend.Emails.Checks.{Env, CredentialRef, require_credential}
use zendou_backend.Emails.Accept.{Fresh, SendEmailResponse, accept}
use zendou_backend.Emails.Accept.Request.{AcceptInput}
use zendou_backend.Emails.Accept.Charge.{Outcome, refuses, blocks, loses, charges, accept-Outcome}
use zendou_backend.Emails.System.{
  AlertText, SystemSendResult, SystemEmailPayload, alert_payload, may_claim, mark, claim, settle,
  send_alert, alert_due, send_low_balance_alert, send_system, run_task,
}
use zendou_backend.Emails.System.Exemption.{send_system-IsExempt}
use zendou_backend.Reputation.{Context, evaluate}
use zendou_backend.Reputation.Sanction.{refused_of_suspended}
use zendou_backend.Admin.Users.{
  Call, suspend_row, quota_row, suspend, reactivate, update_quota, grant,
}
use zendou_backend.Admin.Deletion.{delete_account}
use zendou_backend.AccountLifecycle.Anonymization.{Erasing, Origin, anonymize}
use zendou_backend.AccountLifecycle.Permanence.{
  IsClosed, same-IsClosed, update-IsClosed, record_account_activity-IsClosed, commit-IsClosed,
  reactivate-IsClosed, evaluate-IsClosed, delete_account-IsClosed, anonymize-IsClosed,
}

module _ (user : ℕ) where
  accepted-IsClosed :
      {env : Env} {fresh : Fresh} {other : ℕ} {input : AcceptInput} {w w' : World}
      {r : Result SendEmailResponse}
      → Outcome env fresh other input w r w'
      → IsClosed user w
      → IsClosed user w'
  accepted-IsClosed refuses h = h
  accepted-IsClosed {w} (blocks _ _) h = same-IsClosed user w h _ refl
  accepted-IsClosed {w} (loses _ _ _ _) h = same-IsClosed user w h _ refl
  accepted-IsClosed {w} (charges _ _ _ _) h = same-IsClosed user w h _ refl

  send_system-IsClosed :
      (env : Env) (fresh : Fresh) (payload : SystemEmailPayload) (w : World)
      → IsClosed user w
      → IsClosed user (send_system env fresh payload w).1
  send_system-IsClosed env fresh payload w h =
      same-IsClosed user w h _ (send_system-IsExempt env fresh payload w).users_same

  settle-IsClosed :
      (other : ℕ) (at : Option ℕ) (r : Result SystemSendResult) (w : World)
      → IsClosed user w
      → IsClosed user (settle other at (r, w))
  settle-IsClosed other at (ok _) w h = h
  settle-IsClosed other at (err _) w h =
      update-IsClosed user w h _ (λ (u : User). u.id == other) (mark at) (λ u. refl)
        (λ hit. (h.closed.0, h.closed.1)) refl

  alert-IsClosed :
      (env : Env) (fresh : Fresh) (other : ℕ) (at : Option ℕ) (message : AlertText) (w : World)
      → IsClosed user w
      → IsClosed user (send_alert env fresh other at message w)
  alert-IsClosed env fresh other at message w h = elim (Option-cases (find_user w other)) [
    | inl missing ↦ rw (missing, send_alert) h
    | inr (account, found) ↦
        let payload = alert_payload other account message in
        rw (found, send_alert)
          (settle-IsClosed other at (send_system env fresh payload w).0
            (send_system env fresh payload w).1 (send_system-IsClosed env fresh payload w h))
  ]

  claim-IsClosed :
      (env : Env) (other at : ℕ) (w : World)
      → IsClosed user w
      → IsClosed user (claim env other at w)
  claim-IsClosed env other at w h =
      update-IsClosed user w h _ (may_claim other at) (mark (some env.now)) (λ u. refl)
        (λ hit. (h.closed.0, h.closed.1)) refl

  low_balance-IsClosed :
      (env : Env) (fresh : Fresh) (other : ℕ) (estimated : ℤ) (sent : Option ℕ)
      (message : AlertText) (w : World)
      → IsClosed user w
      → IsClosed user (send_low_balance_alert env fresh other estimated sent message w)
  unfolding send_low_balance_alert
  low_balance-IsClosed env fresh other estimated sent message w h =
      elim (Option-cases (alert_due other estimated sent w)) [
        | inl quiet ↦ rw (quiet, send_low_balance_alert) h
        | inr (at, due) ↦ elim (Bool-cases (count (may_claim other at) w.users == 0)) [
          | inl claimed ↦ rw (due, send_low_balance_alert) (rw claimed h)
          | inr free ↦
              rw (due, send_low_balance_alert)
                (rw free (
                  alert-IsClosed env fresh other sent message (claim env other at w)
                    (claim-IsClosed env other at w h)))
        ]
      ]

  run_task-IsClosed :
      (env : Env) (fresh : Fresh) (message : AlertText) (task : Task) (w : World)
      → IsClosed user w
      → IsClosed user (run_task env fresh message task w)
  unfolding run_task
  run_task-IsClosed env fresh message (record_activity other known) w h =
      record_account_activity-IsClosed user w h known env.now other
  run_task-IsClosed env fresh message (low_balance_alert other estimated sent) w h =
      low_balance-IsClosed env fresh other estimated sent message w h

  -- The operations, of any account, save the hard deletion of this one.
  pub data Step : World → World → Type 0 where
    suspends : (call : Call) (reason : Text) (w : World) → Step w (suspend call reason w).1
    reactivates : (call : Call) (why : Option Text) (w : World) → Step w (reactivate call why w).1
    limits : (call : Call) (limit : ℕ) (w : World) → Step w (update_quota call limit w).1
    grants :
        (call : Call) (delta : ℤ) (reason : Text) (w : World) → Step w (grant call delta reason w).1
    deletes : (call : Call) (w : World) → call.target ≢ user → Step w (delete_account call w).1
    erases :
        (ctx : Erasing) (other : ℕ) (origin : Origin) (w : World)
        → Step w (anonymize ctx other origin w).1
    evaluates : (ctx : Context) (other : ℕ) (w : World) → Step w (evaluate ctx other w).1
    accepts :
        (env : Env) (fresh : Fresh) (other : ℕ) (input : AcceptInput) (w : World)
        → Step w (accept env fresh other input w).1
    runs :
        (env : Env) (fresh : Fresh) (message : AlertText) (task : Task) (w : World)
        → Step w (run_task env fresh message task w)

  pub data Reach (w : World) : World → Type 0 where
    here : Reach w w
    next : {u v : World} → Reach w u → Step u v → Reach w v

  Step-IsClosed : {v w : World} → Step v w → IsClosed user v → IsClosed user w
  unfolding suspend update_quota grant
  Step-IsClosed (suspends call reason w) h = commit-IsClosed user w h _ _ (λ u.
      update-IsClosed user w h _ (λ (v : User). v.id == call.target) (suspend_row call.now reason)
        (λ v. refl) (λ hit. (h.closed.0, refl)) refl)
  Step-IsClosed (reactivates call why w) h = reactivate-IsClosed user w h call why
  Step-IsClosed (limits call limit w) h = commit-IsClosed user w h _ _ (λ u.
      update-IsClosed user w h _ (λ (v : User). v.id == call.target) (quota_row limit) (λ v. refl)
        (λ hit. (h.closed.0, h.closed.1)) refl)
  Step-IsClosed (grants call delta reason w) h =
      commit-IsClosed user w h _ _ (λ u. same-IsClosed user w h _ refl)
  Step-IsClosed (deletes call w differ) h = delete_account-IsClosed user w h call differ
  Step-IsClosed (erases ctx other origin w) h = anonymize-IsClosed user w h ctx origin other
  Step-IsClosed (evaluates ctx other w) h = evaluate-IsClosed user w h ctx other
  Step-IsClosed (accepts env fresh other input w) h =
      accepted-IsClosed (accept-Outcome env fresh other input w) h
  Step-IsClosed (runs env fresh message task w) h = run_task-IsClosed env fresh message task w h

  Reach-IsClosed : (v w : World) → Reach v w → IsClosed user v → IsClosed user w
  Reach-IsClosed v w here h = h
  Reach-IsClosed v w (next {u} reach step) h = Step-IsClosed step (Reach-IsClosed v u reach h)

  -- An account that is erased and suspended sends nothing any more: through any sequence of
  -- administrative suspensions, reactivations (its own included), limit changes and grants, hard
  -- deletions of other accounts, erasures, evaluations, acceptances and started promises, it stays
  -- erased and suspended, and an acceptance for it whose credential is named as its channel
  -- requires is refused as suspended and writes nothing.
  pub erased_for_good :
      (v w : World) (env : Env) (fresh : Fresh) (input : AcceptInput) (r : CredentialRef)
      → IsClosed user v
      → Reach v w
      → require_credential input.channel input.api_key_id input.smtp_credential_id ≡ ok r
      → IsClosed user w
        × (accept env fresh user input w ≡ (err (refused account_suspended none), w))
  erased_for_good v w env fresh input r h reach credential =
      let still = Reach-IsClosed v w reach h in
      (
        still,
        refused_of_suspended env fresh user input w r still.account credential still.row
            (still.closed.1),
      )
