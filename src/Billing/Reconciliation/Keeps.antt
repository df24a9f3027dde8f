-- ===== src/Billing/Reconciliation/Keeps.antt =====
-- One operation at a time, from a reconciled state.
use zendou_backend.Common.{
  ℕ, ◌≡◌, refl, sym, ap, ◌∙◌, true, false, none, some, List, [], ◌∷◌, ◌++◌, arith, ◌==◌, ==_refl,
  find, update_where,
}
use mathlib.Core.Path.{subst}
use native.Mathlib.Decide.{ℕ_discrete}
use zendou_backend.Common.Int.{pos, int_laws}
use zendou_backend.Text.{Text}
use zendou_backend.Schema.{TopUpRequest, World, is_pending}
use zendou_backend.Ledger.{sum_delta}
use zendou_backend.Emails.Refusal.{Result}
use zendou_backend.Emails.Checks.{Env}
use zendou_backend.Emails.Accept.{Fresh, SendEmailResponse, debit}
use zendou_backend.Emails.Accept.Request.{AcceptInput}
use zendou_backend.Emails.Accept.Charge.{Outcome, refuses, blocks, loses, charges}
use zendou_backend.Billing.{
  Reply, done, denied, CreditPack, CreateTopUpRequestDto, new_request, store_request,
}
use zendou_backend.Billing.Review.{
  find_request, reviewable, approve_row, reject_row, topup_entry, write_approval, decide_approval,
  write_rejection, decide_rejection,
}
use zendou_backend.Billing.Reconciliation.{
  is_payment, paid, is_approved, due, IsReconciled, paid-append, find-append_other, find-append_new,
  find-update_other, find-update_self, find_request_of, found_self, due_of_pending,
}

module _ (w : World) (reconciled : IsReconciled w) where
  pub unchanged-IsReconciled :
      (w' : World)
      → w'.credit_entries ≡ w.credit_entries
      → w'.topup_requests ≡ w.topup_requests
      → IsReconciled w'
  unfolding paid
  unchanged-IsReconciled w' entries requests id =
      ap (sum_delta (is_payment id)) entries
      ∙ reconciled id
      ∙ ap (λ (rs : List TopUpRequest). due (find (λ s. s.id == id) rs)) (sym requests)

  new_request-IsReconciled :
      (r : TopUpRequest)
      → find_request w r.id ≡ none
      → is_approved r.status ≡ false
      → IsReconciled (record w { topup_requests = w.topup_requests ++ r ∷ [] })
  unfolding paid
  new_request-IsReconciled r fresh waiting id = elim (ℕ_discrete r.id id) [
    | yes same ↦
        subst
          (λ (j : ℕ).
            sum_delta (is_payment j) w.credit_entries
            ≡ due (find (λ s. s.id == j) (w.topup_requests ++ r ∷ [])))
          same (reconciled r.id ∙ ap due fresh ∙ sym nothing_due)
    | no other ↦
        reconciled id ∙ ap due (sym (find-append_other id w.topup_requests r (ground arith)))
  ]
    where
      nothing_due : due (find (λ s. s.id == r.id) (w.topup_requests ++ r ∷ [])) ≡ pos 0
      nothing_due = rw (find-append_new r.id w.topup_requests r fresh (==_refl r.id)) (rw waiting)

  approval-IsReconciled :
      (now key admin : ℕ) (r : TopUpRequest)
      → find_request w r.id ≡ some r
      → is_pending r.status ≡ true
      → IsReconciled (write_approval now key admin r w)
  unfolding paid write_approval
  approval-IsReconciled now key admin r found waiting id = elim (ℕ_discrete r.id id) [
    | yes same ↦
        subst
          (λ (j : ℕ).
            sum_delta (is_payment j) (w.credit_entries ++ topup_entry now r ∷ [])
            ≡ due (
                find (λ s. s.id == j)
                  (update_where (λ s. s.id == r.id) (approve_row now admin) w.topup_requests)))
          same
          (credited
            ∙ sym (
                ap due (
                  find-update_self (approve_row now admin) (λ s. refl) r.id w.topup_requests r
                    found)))
    | no other ↦
        let differ : (r.id == id) ≡ false = ground arith in
        rw (paid-append id w.credit_entries (topup_entry now r)) (rw differ (reconciled id))
        ∙ ap due (
            sym (
              find-update_other (approve_row now admin) (λ s. refl) id r.id w.topup_requests other))
  ]
    where
      nothing_before : sum_delta (is_payment r.id) w.credit_entries ≡ pos 0
      nothing_before = reconciled r.id ∙ ap due found ∙ due_of_pending r waiting

      credited :
          sum_delta (is_payment r.id) (w.credit_entries ++ topup_entry now r ∷ []) ≡ pos r.credits
      credited =
          rw (paid-append r.id w.credit_entries (topup_entry now r))
            (rw (==_refl r.id) (rw nothing_before (omega int_laws)))

  rejection-IsReconciled :
      (now key admin : ℕ) (reason : Text) (r : TopUpRequest)
      → find_request w r.id ≡ some r
      → is_pending r.status ≡ true
      → IsReconciled (write_rejection now key admin reason r w)
  unfolding paid write_rejection
  rejection-IsReconciled now key admin reason r found waiting id = elim (ℕ_discrete r.id id) [
    | yes same ↦
        subst
          (λ (j : ℕ).
            sum_delta (is_payment j) w.credit_entries
            ≡ due (
                find (λ s. s.id == j)
                  (update_where (λ s. s.id == r.id) (reject_row now admin reason)
                    w.topup_requests)))
          same
          (reconciled r.id
            ∙ ap due found
            ∙ due_of_pending r waiting
            ∙ sym (
                ap due (
                  find-update_self (reject_row now admin reason) (λ s. refl) r.id w.topup_requests r
                    found)))
    | no other ↦
        reconciled id
        ∙ ap due (
            sym (
              find-update_other (reject_row now admin reason) (λ s. refl) id r.id w.topup_requests
                other))
  ]

  debit-IsReconciled :
      (env : Env) (fresh : Fresh) (user : ℕ) (w' : World)
      → w'.credit_entries ≡ w.credit_entries ++ debit env fresh user ∷ []
      → w'.topup_requests ≡ w.topup_requests
      → IsReconciled w'
  unfolding paid
  debit-IsReconciled env fresh user w' entries requests id =
      ap (sum_delta (is_payment id)) entries
      ∙ paid-append id w.credit_entries (debit env fresh user)
      ∙ reconciled id
      ∙ ap (λ (rs : List TopUpRequest). due (find (λ s. s.id == id) rs)) (sym requests)

  pub decided-approval :
      (now key id admin : ℕ) (o : Reply TopUpRequest)
      → reviewable (find_request w id) ≡ o
      → IsReconciled (decide_approval now key admin w o).1
  decided-approval now key id admin (denied d) e = reconciled
  decided-approval now key id admin (done r) e =
      let (found, waiting) = find_request_of w id r e in
      approval-IsReconciled now key admin r (found_self w id r found) waiting

  pub decided-rejection :
      (now key id admin : ℕ) (reason : Text) (o : Reply TopUpRequest)
      → reviewable (find_request w id) ≡ o
      → IsReconciled (decide_rejection now key admin reason w o).1
  decided-rejection now key id admin reason (denied d) e = reconciled
  decided-rejection now key id admin reason (done r) e =
      let (found, waiting) = find_request_of w id r e in
      rejection-IsReconciled now key admin reason r (found_self w id r found) waiting

  pub stored-request :
      (id now user : ℕ) (dto : CreateTopUpRequestDto) (o : Reply CreditPack)
      → find_request w id ≡ none
      → IsReconciled (store_request id now user dto w o).1
  stored-request id now user dto (denied d) fresh = reconciled
  stored-request id now user dto (done pack) fresh =
      new_request-IsReconciled (new_request id now user dto pack) fresh refl

  pub accepted :
      {env : Env} {fresh : Fresh} {user : ℕ} {input : AcceptInput} {r : Result SendEmailResponse}
      {w' : World}
      → Outcome env fresh user input w r w'
      → IsReconciled w'
  accepted refuses = reconciled
  accepted (blocks _ _) = unchanged-IsReconciled _ refl refl
  accepted {env} {fresh} {user} (loses _ _ _ _) = debit-IsReconciled env fresh user _ refl refl
  accepted {env} {fresh} {user} (charges _ _ _ _) = debit-IsReconciled env fresh user _ refl refl
