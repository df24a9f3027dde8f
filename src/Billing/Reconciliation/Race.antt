-- ===== src/Billing/Reconciliation/Race.antt =====
-- Two reviews of one request at once. Under the default isolation of the database (READ COMMITTED)
-- the reads of both transactions may come before the writes of either: the guard of `approve` then
-- passes twice, and its update has no condition on the status.
use zendou_backend.Common.{ℕ, ◌≡◌, ap, ◌∙◌, [], ◌∷◌, ◌++◌, ==_refl}
use zendou_backend.Common.Int.{pos, ◌+ℤ◌, int_laws}
use zendou_backend.Schema.{TopUpRequest, World}
use zendou_backend.Billing.{done}
use zendou_backend.Billing.Review.{find_request, reviewable, topup_entry, write_approval}
use zendou_backend.Billing.Reconciliation.{
  paid, due, IsReconciled, paid-append, find_request_of, due_of_pending, found_self,
}

-- Two approvals whose reads both came first.
unfoldable pub approve_twice : ℕ → ℕ → ℕ → ℕ → ℕ → TopUpRequest → World → World
approve_twice now key admin key' admin' r w =
    write_approval now key' admin' r (write_approval now key admin r w)

-- Of a reconciled state, two concurrent approvals that both read a request while it waits credit
-- the client twice for that one request.
pub approve_twice-paid :
    (now id key admin key' admin' : ℕ) (r : TopUpRequest) (w : World)
    → IsReconciled w
    → reviewable (find_request w id) ≡ done r
    → paid r.id (approve_twice now key admin key' admin' r w) ≡ pos r.credits +ℤ pos r.credits
unfolding approve_twice write_approval paid
approve_twice-paid now id key admin key' admin' r w reconciled read =
    let (found, waiting) = find_request_of w id r read in
    let before = reconciled r.id ∙ ap due (found_self w id r found) ∙ due_of_pending r waiting in
    rw (paid-append r.id (w.credit_entries ++ topup_entry now r ∷ []) (topup_entry now r)) (
      rw (==_refl r.id) (
        rw (paid-append r.id w.credit_entries (topup_entry now r))
          (rw (==_refl r.id) (rw before (omega int_laws)))))
