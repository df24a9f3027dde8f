-- ===== src/Billing/Reconciliation/Steps.antt =====
-- The operations in any order, and the reconciliation of every state that they reach.
use zendou_backend.Common.{ℕ, ◌≡◌, refl, none, Option}
use zendou_backend.Common.Int.{ℤ}
use zendou_backend.Admin.Users.{Call, suspend, reactivate, update_quota, grant}
use zendou_backend.Admin.Deletion.{delete_account}
use zendou_backend.AccountLifecycle.Anonymization.{Erasing, Origin, anonymize}
use zendou_backend.Billing.Reconciliation.Accounts.{
  suspend-IsReconciled, reactivate-IsReconciled, update_quota-IsReconciled, grant-IsReconciled,
  delete_account-IsReconciled, anonymize-IsReconciled,
}
use zendou_backend.Text.{Text}
use zendou_backend.Schema.{World, Task}
use zendou_backend.Emails.Checks.{Env}
use zendou_backend.Emails.Accept.{Fresh, accept}
use zendou_backend.Emails.Accept.Request.{AcceptInput}
use zendou_backend.Emails.Accept.Charge.{accept-Outcome}
use zendou_backend.Emails.System.{SystemEmailPayload, AlertText, send_system, run_task}
use zendou_backend.Emails.System.Exemption.{send_system-IsExempt}
use zendou_backend.Emails.System.Alert.{run_task-SameLedger}
use zendou_backend.Billing.{
  find_pack, PaymentConfig, CreateTopUpRequestDto, check_pack, create_topup_request,
}
use zendou_backend.Billing.Review.{find_request, reviewable, approve, reject}
use zendou_backend.Billing.Reconciliation.{IsReconciled}
use zendou_backend.Billing.Reconciliation.Keeps.{
  unchanged-IsReconciled, decided-approval, decided-rejection, stored-request, accepted,
}

-- The operations that write to the ledger or to the requests, one after the other, in any order.
-- The key of a new request is not in use.
pub data Step : World → World → Type 0 where
  submits :
      (config : PaymentConfig) (id now user : ℕ) (dto : CreateTopUpRequestDto) (w : World)
      → find_request w id ≡ none
      → Step w (create_topup_request config id now user dto w).1
  approves : (now key id admin : ℕ) (w : World) → Step w (approve now key id admin w).1
  rejects :
      (now key id admin : ℕ) (reason : Text) (w : World)
      → Step w (reject now key id admin reason w).1
  accepts :
      (env : Env) (fresh : Fresh) (user : ℕ) (input : AcceptInput) (w : World)
      → Step w (accept env fresh user input w).1
  sends :
      (env : Env) (fresh : Fresh) (payload : SystemEmailPayload) (w : World)
      → Step w (send_system env fresh payload w).1
  runs :
      (env : Env) (fresh : Fresh) (message : AlertText) (task : Task) (w : World)
      → Step w (run_task env fresh message task w)
  suspends : (call : Call) (reason : Text) (w : World) → Step w (suspend call reason w).1
  reactivates : (call : Call) (why : Option Text) (w : World) → Step w (reactivate call why w).1
  limits : (call : Call) (limit : ℕ) (w : World) → Step w (update_quota call limit w).1
  grants :
      (call : Call) (delta : ℤ) (reason : Text) (w : World) → Step w (grant call delta reason w).1
  deletes : (call : Call) (w : World) → Step w (delete_account call w).1
  erases :
      (ctx : Erasing) (user : ℕ) (origin : Origin) (w : World)
      → Step w (anonymize ctx user origin w).1

pub data Reach (w : World) : World → Type 0 where
  here : Reach w w
  next : {u v : World} → Reach w u → Step u v → Reach w v

Step-IsReconciled : {v w : World} → Step v w → IsReconciled v → IsReconciled w
unfolding create_topup_request approve reject
Step-IsReconciled (submits config id now user dto w fresh) h =
    stored-request w h id now user dto (check_pack config user dto w (find_pack dto.pack_id)) fresh
Step-IsReconciled (approves now key id admin w) h =
    decided-approval w h now key id admin (reviewable (find_request w id)) refl
Step-IsReconciled (rejects now key id admin reason w) h =
    decided-rejection w h now key id admin reason (reviewable (find_request w id)) refl
Step-IsReconciled (accepts env fresh user input w) h =
    accepted w h (accept-Outcome env fresh user input w)
Step-IsReconciled (sends env fresh payload w) h =
    let exempt = send_system-IsExempt env fresh payload w in
    unchanged-IsReconciled w h _ exempt.entries_same exempt.requests_same
Step-IsReconciled (runs env fresh message task w) h =
    let (entries, requests) = run_task-SameLedger env fresh message task w in
    unchanged-IsReconciled w h _ entries requests
Step-IsReconciled (suspends call reason w) h = suspend-IsReconciled w h call reason
Step-IsReconciled (reactivates call why w) h = reactivate-IsReconciled w h call why
Step-IsReconciled (limits call limit w) h = update_quota-IsReconciled w h call limit
Step-IsReconciled (grants call delta reason w) h = grant-IsReconciled w h call delta reason
Step-IsReconciled (deletes call w) h = delete_account-IsReconciled w h call
Step-IsReconciled (erases ctx user origin w) h = anonymize-IsReconciled w h ctx origin user

-- Through any sequence of submissions, approvals, rejections, sends, started promises,
-- administrative operations on accounts, deletions and erasures, one at a time, a reconciled state
-- stays reconciled: a request is credited once for its own credits if it is approved, and never
-- otherwise.
pub Reach-IsReconciled : (v w : World) → Reach v w → IsReconciled v → IsReconciled w
Reach-IsReconciled v w here h = h
Reach-IsReconciled v w (next {u} reach step) h =
    Step-IsReconciled step (Reach-IsReconciled v u reach h)
