-- ===== src/Reputation/Neutral.antt =====
-- What an evaluation leaves alone.
use zendou_backend.Common.{ℕ, ◌≡◌, refl, ◌∙◌, inl, inr, some, Option-cases, Bool-cases, find}
use zendou_backend.Text.{Text, text_eq}
use zendou_backend.Schema.{User, World, find_user, is_suspended}
use zendou_backend.Emails.System.Exemption.{send_system-IsExempt}
use zendou_backend.Reputation.{
  Context, Verdict, healthy, warning, suspend, alert_administrator, notify, alert_payload,
  resolve_alert_recipient, write_suspension, suspend_user, apply_verdict, evaluate_user, evaluate,
}

-- A projection of the state that no system email changes.
module _ {ℓ} {A : Type ℓ} (table : World → A)
    (sends_keep : (ctx : Context) (to : Text) (u : User) (w : World)
      → table (notify ctx to (some u) w) ≡ table w) where
  pub alert_administrator-keeps :
      (ctx : Context) (w : World) → table (alert_administrator ctx w) ≡ table w
  unfolding alert_administrator
  alert_administrator-keeps ctx w = elim (Option-cases (resolve_alert_recipient ctx.config)) [
    | inl e ↦ rw (e, alert_administrator)
    | inr (to, e) ↦ rw (e, alert_administrator) (notified to)
  ]
    where
      notified :
          (to : Text) → table (notify ctx to (find (λ u. text_eq u.email to) w.users) w) ≡ table w
      notified to = elim (Option-cases (find (λ (u : User). text_eq u.email to) w.users)) [
        | inl e ↦ rw (e, notify)
        | inr (recipient, e) ↦ rw e (sends_keep ctx to recipient w)
      ]

  module _
      (suspension_keeps : (now : ℕ) (reason : Text) (user : ℕ) (w : World)
        → table (write_suspension now reason user w) ≡ table w) where
    apply_verdict-keeps :
        (ctx : Context) (u : User) (v : Verdict) (w : World)
        → table (apply_verdict ctx u v w) ≡ table w
    unfolding suspend_user
    apply_verdict-keeps ctx u healthy w = refl
    apply_verdict-keeps ctx u warning w = refl
    apply_verdict-keeps ctx u suspend w = elim (Bool-cases (is_suspended u.status)) [
      | inl already ↦ rw (already, suspend_user)
      | inr active ↦
          rw (active, suspend_user)
            (alert_administrator-keeps ctx (write_suspension ctx.env.now ctx.reason u.id w)
              ∙ suspension_keeps ctx.env.now ctx.reason u.id w)
    ]

    pub evaluate-keeps :
        (ctx : Context) (user : ℕ) (w : World) → table (evaluate ctx user w).1 ≡ table w
    unfolding evaluate evaluate_user
    evaluate-keeps ctx user w = elim (Option-cases (find_user w user)) [
      | inl missing ↦ rw (missing, evaluate)
      | inr (u, found) ↦ rw (found, evaluate) (apply_verdict-keeps ctx u _ w)
    ]

pub alert_administrator-users :
    (ctx : Context) (w : World) → (alert_administrator ctx w).users ≡ w.users
alert_administrator-users =
    alert_administrator-keeps (λ w. w.users)
      (λ ctx to u w. (send_system-IsExempt ctx.env ctx.fresh (alert_payload ctx to u) w).users_same)

pub evaluate-suppressions :
    (ctx : Context) (user : ℕ) (w : World) → (evaluate ctx user w).1.suppressions ≡ w.suppressions
evaluate-suppressions =
    evaluate-keeps (λ w. w.suppressions)
      (λ ctx to u w.
        (send_system-IsExempt ctx.env ctx.fresh (alert_payload ctx to u) w).suppressions_same)
      (λ now reason user w. refl)

-- No evaluation, sanction and alert included, moves a credit.
pub evaluate-credit_entries :
    (ctx : Context) (user : ℕ) (w : World)
    → (evaluate ctx user w).1.credit_entries ≡ w.credit_entries
evaluate-credit_entries =
    evaluate-keeps (λ w. w.credit_entries)
      (λ ctx to u w.
        (send_system-IsExempt ctx.env ctx.fresh (alert_payload ctx to u) w).entries_same)
      (λ now reason user w. refl)
