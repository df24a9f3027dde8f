-- ===== src/Billing/Reconciliation/Accounts.antt =====
-- The administration and the erasure of accounts, from a reconciled state.
use zendou_backend.Common.{
  ℕ, ◌≡◌, refl, sym, ap, ◌∙◌, inl, inr, Option, List, [], ◌∷◌, arith, ◌==◌, Bool-cases, find,
  update_where,
}
use zendou_backend.Common.Int.{ℤ}
use zendou_backend.Text.{Text}
use zendou_backend.Schema.{User, TopUpRequest, World, find_user}
use zendou_backend.Ledger.{sum_delta}
use zendou_backend.Ledger.Laws.{sum_delta-remove_other}
use zendou_backend.Sessions.{destroy_all_for_user}
use zendou_backend.Admin.{AdminReply, performed, denied, commit}
use zendou_backend.Admin.Users.{
  Call, grant_entry, suspend, reactivate, update_quota, write_grant, grant,
}
use zendou_backend.Admin.Deletion.{
  is_welcome_entry, leaves_rows, write_cascade, remove_user, finish_deletion, delete_account,
}
use zendou_backend.AccountLifecycle.Anonymization.{
  Origin, Erasing, mask_request, Decision, erase, skip, refuse, decide, carry_out, is_self,
  anonymize,
}
use zendou_backend.AccountLifecycle.Anonymization.Erasure.{after_erasure}
use zendou_backend.AccountLifecycle.Anonymization.Traces.{after-same}
use zendou_backend.Billing.Reconciliation.{is_payment, paid, due, IsReconciled, paid-append}
use zendou_backend.Billing.Reconciliation.Keeps.{unchanged-IsReconciled}

commit-IsReconciled :
    {A B : Type 0} (w : World) (guard : AdminReply A) (write : A → AdminReply B × World)
    → IsReconciled w
    → ((a : A) → IsReconciled (write a).1)
    → IsReconciled (commit guard write w).1
commit-IsReconciled w (denied reason) write reconciled writes = reconciled
commit-IsReconciled w (performed a) write reconciled writes = writes a

-- A masked request owes what it owed.
due-masked :
    (user id : ℕ) (rs : List TopUpRequest)
    → due (find (λ r. r.id == id) (update_where (λ r. r.user_id == user) mask_request rs))
      ≡ due (find (λ r. r.id == id) rs)
due-masked user id [] = refl
due-masked user id (r ∷ rs) = elim (Bool-cases (r.user_id == user)) [
  | inl own ↦ elim (Bool-cases (r.id == id)) [
    | inl this ↦ rw (own, this) refl
    | inr other ↦ rw (own, other) (due-masked user id rs)
  ]
  | inr foreign ↦ elim (Bool-cases (r.id == id)) [
    | inl this ↦ rw (foreign, this) refl
    | inr other ↦ rw (foreign, other) (due-masked user id rs)
  ]
]

module _ (w : World) (reconciled : IsReconciled w) where
  pub suspend-IsReconciled : (call : Call) (reason : Text) → IsReconciled (suspend call reason w).1
  unfolding suspend
  suspend-IsReconciled call reason =
      commit-IsReconciled w _ _ reconciled (λ u. unchanged-IsReconciled w reconciled _ refl refl)

  pub reactivate-IsReconciled :
      (call : Call) (why : Option Text) → IsReconciled (reactivate call why w).1
  unfolding reactivate
  reactivate-IsReconciled call why =
      commit-IsReconciled w _ _ reconciled (λ u. unchanged-IsReconciled w reconciled _ refl refl)

  pub update_quota-IsReconciled :
      (call : Call) (limit : ℕ) → IsReconciled (update_quota call limit w).1
  unfolding update_quota
  update_quota-IsReconciled call limit =
      commit-IsReconciled w _ _ reconciled (λ u. unchanged-IsReconciled w reconciled _ refl refl)

  -- A grant is no payment of a request.
  write_grant-IsReconciled :
      (call : Call) (delta : ℤ) (reason : Text) → IsReconciled (write_grant call delta reason w)
  unfolding paid
  write_grant-IsReconciled call delta reason id =
      paid-append id w.credit_entries (grant_entry call delta) ∙ reconciled id

  pub grant-IsReconciled :
      (call : Call) (delta : ℤ) (reason : Text) → IsReconciled (grant call delta reason w).1
  unfolding grant
  grant-IsReconciled call delta reason =
      commit-IsReconciled w _ _ reconciled (λ u. write_grant-IsReconciled call delta reason)

  -- Nor is a welcome bonus.
  deleted-IsReconciled :
      (call : Call) (u : User)
      → IsReconciled (
          destroy_all_for_user call.now call.target
            (remove_user call.target (write_cascade call u w)))
  unfolding paid destroy_all_for_user
  deleted-IsReconciled call u id =
      sum_delta-remove_other (is_payment id) (is_welcome_entry call.target) w.credit_entries
        (λ e h. ground arith)
      ∙ reconciled id

  finish_deletion-IsReconciled :
      (call : Call) (u : User) → IsReconciled (finish_deletion call u w).1
  finish_deletion-IsReconciled call u =
      elim (Bool-cases (leaves_rows call.target (write_cascade call u w))) [
        | inl left ↦ rw left reconciled
        | inr none_left ↦ rw none_left (deleted-IsReconciled call u)
      ]

  pub delete_account-IsReconciled : (call : Call) → IsReconciled (delete_account call w).1
  unfolding delete_account
  delete_account-IsReconciled call =
      commit-IsReconciled w _ _ reconciled (finish_deletion-IsReconciled call)

  erased-IsReconciled :
      (ctx : Erasing) (origin : Origin) (user : ℕ) → IsReconciled (after_erasure ctx user origin w)
  unfolding paid destroy_all_for_user
  erased-IsReconciled ctx origin user id =
      ap (sum_delta (is_payment id))
        (after-same ctx user origin w (λ v. v.credit_entries) (λ v a. refl) (λ v. refl))
      ∙ reconciled id
      ∙ sym (due-masked user id w.topup_requests)
      ∙ sym (
          ap (λ (rs : List TopUpRequest). due (find (λ r. r.id == id) rs))
            (after-same ctx user origin w (λ v. v.topup_requests) (λ v a. refl) (λ v. refl)))

  carry_out-IsReconciled :
      (ctx : Erasing) (origin : Origin) (user : ℕ) (d : Decision)
      → IsReconciled (carry_out ctx origin user w d).1
  carry_out-IsReconciled ctx origin user (refuse denial) = reconciled
  carry_out-IsReconciled ctx origin user skip = reconciled
  carry_out-IsReconciled ctx origin user erase = erased-IsReconciled ctx origin user

  pub anonymize-IsReconciled :
      (ctx : Erasing) (origin : Origin) (user : ℕ) → IsReconciled (anonymize ctx user origin w).1
  unfolding anonymize
  anonymize-IsReconciled ctx origin user = elim (Bool-cases (is_self origin user)) [
    | inl self ↦ rw self reconciled
    | inr other ↦
        rw other (carry_out-IsReconciled ctx origin user (decide origin user w (find_user w user)))
  ]
