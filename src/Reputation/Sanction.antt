-- ===== src/Reputation/Sanction.antt =====
-- The sanction: when it falls, and what acceptances make of it.
use zendou_backend.Common.{
  ℕ, ◌≤◌, ◌<◌, ◌≡◌, refl, sym, ap, ◌∙◌, inl, inr, true, none, some, arith, Bool-cases, ◌==◌, find,
  find-update_where, find_sound, ==_iff,
}
use mathlib.Core.Path.{subst}
use zendou_backend.Schema.{User, World, find_user, is_suspended}
use zendou_backend.Emails.Refusal.{account_suspended, refused, ok, err}
use zendou_backend.Emails.Checks.{Env, CredentialRef, require_credential, assert_account_may_send}
use zendou_backend.Emails.Accept.{Fresh, accept}
use zendou_backend.Emails.Accept.Request.{AcceptInput, check_request}
use zendou_backend.Reputation.Neutral.{alert_administrator-users}
use zendou_backend.Reputation.{
  Verdict, warning, Context, healthy, suspend, metrics_of, resolve_verdict, alert_administrator,
  suspend_row, write_suspension, suspend_user, evaluate_user, evaluate,
}

resolve_verdict_small :
    (sent hard complaints : ℕ) → sent < 50 → resolve_verdict sent hard complaints ≡ healthy
unfolding resolve_verdict
resolve_verdict_small sent hard complaints h = ground arith

-- A client whose window holds fewer than 50 sends is neither sanctioned nor written to, whatever
-- its bounces and complaints.
pub evaluate_small :
    (ctx : Context) (user : User) (w : World)
    → (metrics_of ctx.env.now user w).sent < 50
    → (evaluate_user ctx user w).1 ≡ w
unfolding evaluate_user metrics_of
evaluate_small ctx user w h = rw (resolve_verdict_small _ _ _ h)

-- How severe a verdict is.
abbrev pub severity : Verdict → ℕ
severity healthy = 0
severity warning = 1
severity suspend = 2

-- For the same number of sends, more hard bounces or more complaints never give a milder verdict.
pub resolve_verdict_mono :
    (sent hard hard' complaints complaints' : ℕ)
    → hard ≤ hard'
    → complaints ≤ complaints'
    → severity (resolve_verdict sent hard complaints)
      ≤ severity (resolve_verdict sent hard' complaints')
unfolding resolve_verdict
resolve_verdict_mono sent hard hard' complaints complaints' h k = ground arith

-- The account's row after an evaluation that sanctions.
suspended_row :
    (ctx : Context) (id : ℕ) (u : User) (w : World)
    → find_user w id ≡ some u
    → (v : User) × (find_user (suspend_user ctx u w) id ≡ some v) × (is_suspended v.status ≡ true)
unfolding suspend_user
suspended_row ctx id u w found = elim (Bool-cases (is_suspended u.status)) [
  | inl already ↦ (u, rw (already, suspend_user) found, already)
  | inr active ↦ (suspend_row ctx.env.now ctx.reason u, rw (active, suspend_user) written, refl)
]
  where
    same_id : u.id ≡ id
    same_id = (==_iff u.id id).0 (find_sound (λ v. v.id == id) w.users u found)

    row :
        find (λ v. v.id == id) (write_suspension ctx.env.now ctx.reason id w).users
        ≡ some (suspend_row ctx.env.now ctx.reason u)
    row =
        find-update_where (λ v. v.id == id) (suspend_row ctx.env.now ctx.reason) w.users u
          (λ v. refl) found

    written :
        find_user (alert_administrator ctx (write_suspension ctx.env.now ctx.reason u.id w)) id
        ≡ some (suspend_row ctx.env.now ctx.reason u)
    written =
        ap (find (λ v. v.id == id))
          (alert_administrator-users ctx (write_suspension ctx.env.now ctx.reason u.id w))
        ∙ subst
            (λ (j : ℕ).
              find (λ v. v.id == id) (write_suspension ctx.env.now ctx.reason j w).users
              ≡ some (suspend_row ctx.env.now ctx.reason u))
            (sym same_id) row

account_refused :
    (id : ℕ) (w : World) (v : User)
    → find_user w id ≡ some v
    → is_suspended v.status ≡ true
    → assert_account_may_send id w ≡ err (refused account_suspended none)
unfolding assert_account_may_send
account_refused id w v found status = ground arith

request_refused :
    (env : Env) (id : ℕ) (input : AcceptInput) (w : World) (r : CredentialRef)
    → require_credential input.channel input.api_key_id input.smtp_credential_id ≡ ok r
    → assert_account_may_send id w ≡ err (refused account_suspended none)
    → check_request env id input w ≡ err (refused account_suspended none)
unfolding check_request
request_refused env id input w r credential account = rw (credential, account)

pub refused_of_suspended :
    (env : Env) (fresh : Fresh) (id : ℕ) (input : AcceptInput) (w : World) (r : CredentialRef)
    (v : User)
    → require_credential input.channel input.api_key_id input.smtp_credential_id ≡ ok r
    → find_user w id ≡ some v
    → is_suspended v.status ≡ true
    → accept env fresh id input w ≡ (err (refused account_suspended none), w)
unfolding accept
refused_of_suspended env fresh id input w r v credential found status =
    rw (request_refused env id input w r credential (account_refused id w v found status))

-- The sanction reaches the point of acceptance: once the evaluation of an account has sanctioned
-- it, every acceptance for this account whose credential is named as its channel requires, by either
-- channel and with whatever message, is refused as suspended and writes nothing.
pub evaluate_stops_sends :
    (ctx : Context) (id : ℕ) (u : User) (w : World)
    → find_user w id ≡ some u
    → (metrics_of ctx.env.now u w).verdict ≡ suspend
    → (env : Env) (fresh : Fresh) (input : AcceptInput) (r : CredentialRef)
    → require_credential input.channel input.api_key_id input.smtp_credential_id ≡ ok r
    → accept env fresh id input (evaluate ctx id w).1
      ≡ (err (refused account_suspended none), (evaluate ctx id w).1)
unfolding evaluate evaluate_user
evaluate_stops_sends ctx id u w found sanctioned env fresh input r credential =
    let (v, row, status) = suspended_row ctx id u w found in
    rw (found, evaluate)
      (rw sanctioned (refused_of_suspended env fresh id input _ r v credential row status))
