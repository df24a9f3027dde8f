-- ===== src/Billing/Review/Effects.antt =====
-- What a review does, once and again.
use mathlib.Core.Path.{subst}
use zendou_backend.Common.{ℕ, ◌≡◌, refl, sym, some, ◌==◌, find, update_where}
use zendou_backend.Common.Int.{pos, ◌+ℤ◌}
use zendou_backend.Text.{Text}
use zendou_backend.Schema.{TopUpRequest, TopUpStatus, World}
use zendou_backend.Ledger.{balance_of}
use zendou_backend.Ledger.Laws.{balance_of-append_own}
use zendou_backend.Billing.{done, denied, topup_request_already_reviewed}
use zendou_backend.Billing.Review.{
  find_request, reviewable, approve_row, topup_entry, write_approval, decide_approval, approve,
  reject,
}
use zendou_backend.Billing.Reconciliation.{find_request_of, id_of, find-update_self}

-- A request that is approved is denied to every further review.
denied_again :
    (now key id admin now' key' admin' : ℕ) (reason : Text) (r : TopUpRequest) (w : World)
    → find_request w id ≡ some (approve_row now admin r)
    → (approve now' key' id admin' w ≡ (denied topup_request_already_reviewed, w))
      × (reject now' key' id admin' reason w ≡ (denied topup_request_already_reviewed, w))
unfolding approve reject
denied_again now key id admin now' key' admin' reason r w e = (rw e refl, rw e refl)

module _ (now key id admin : ℕ) (w : World) (r : TopUpRequest)
    (read : reviewable (find_request w id) ≡ done r) where
  approved_row : find_request (write_approval now key admin r w) id ≡ some (approve_row now admin r)
  unfolding write_approval
  approved_row =
      let found = (find_request_of w id r read).0 in
      subst
        (λ (j : ℕ).
          find (λ s. s.id == id)
            (update_where (λ s. s.id == j) (approve_row now admin) w.topup_requests)
          ≡ some (approve_row now admin r))
        (sym (id_of w id r found))
        (find-update_self (approve_row now admin) (λ s. refl) id w.topup_requests r found)

  -- An approval of a request that waits adds its credits to the balance of its client; the request
  -- is approved, bears the reviewer and the date of the review, and is otherwise as it was.
  pub approve-credits :
      (balance_of (approve now key id admin w).1.credit_entries r.user_id
        ≡ balance_of w.credit_entries r.user_id +ℤ pos r.credits)
      × (find_request (approve now key id admin w).1 id
          ≡ some (record r {
            status = TopUpStatus.approved;
            reviewed_at = some now;
            reviewed_by = some admin;
          }))
  unfolding approve write_approval
  approve-credits =
      rw (read, decide_approval)
        (balance_of-append_own w.credit_entries (topup_entry now r), approved_row)

  -- After an approval, a second review of the same request that comes later, whatever it decides,
  -- is denied as already reviewed and writes nothing.
  pub approve_once :
      (now' key' admin' : ℕ) (reason : Text)
      → (approve now' key' id admin' (approve now key id admin w).1
          ≡ (denied topup_request_already_reviewed, (approve now key id admin w).1))
        × (reject now' key' id admin' reason (approve now key id admin w).1
            ≡ (denied topup_request_already_reviewed, (approve now key id admin w).1))
  approve_once now' key' admin' reason =
      denied_again now key id admin now' key' admin' reason r (approve now key id admin w).1
        approve-credits.1
