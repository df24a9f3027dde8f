-- ===== src/Billing/Review.antt =====
-- src/billing/admin/admin-billing.service.ts: the manual review of a top-up request.
pub mod Effects
use zendou_backend.Common.{
  ℕ, Option, none, some, [], ◌∷◌, ◌++◌, ◌==◌, if◌then◌else◌, find, update_where,
}
use zendou_backend.Common.Int.{pos}
use zendou_backend.Text.{Text}
use zendou_backend.Schema.{
  CreditEntry, topup, TopUpRequest, TopUpStatus, AdminAction, approve_topup, reject_topup, reviewed,
  World, is_pending,
}
use zendou_backend.Billing.{
  topup_request_not_found, topup_request_already_reviewed, Reply, done, denied,
}

abbrev pub find_request : World → ℕ → Option TopUpRequest
find_request w id = find (λ r. r.id == id) w.topup_requests

-- The guards of both transactions, on the row that they read.
abbrev pub reviewable : Option TopUpRequest → Reply TopUpRequest
reviewable none = denied topup_request_not_found
reviewable (some r) = if is_pending r.status then done r else denied topup_request_already_reviewed

abbrev pub approve_row : ℕ → ℕ → TopUpRequest → TopUpRequest
approve_row now admin r = record r {
  status = TopUpStatus.approved;
  reviewed_at = some now;
  reviewed_by = some admin;
}

abbrev pub reject_row : ℕ → ℕ → Text → TopUpRequest → TopUpRequest
reject_row now admin reason r = record r {
  status = TopUpStatus.rejected;
  reviewed_at = some now;
  reviewed_by = some admin;
  rejection_reason = some reason;
}

abbrev pub topup_entry : ℕ → TopUpRequest → CreditEntry
topup_entry now r = record {
  user_id = r.user_id;
  delta = pos r.credits;
  reason = topup;
  reference = some r.id;
  created_at = now;
}

abbrev pub approval : ℕ → ℕ → ℕ → TopUpRequest → AdminAction
approval now key admin r = record {
  id = key;
  admin_id = admin;
  target_user_id = some r.user_id;
  action = approve_topup;
  reason = none;
  details = reviewed r.id r.credits r.amount_gnf;
  created_at = now;
}

-- What `approve` writes once its guards have passed on the row that it has read.
unfoldable pub write_approval : ℕ → ℕ → ℕ → TopUpRequest → World → World
write_approval now key admin r w = record w {
  topup_requests = update_where (λ s. s.id == r.id) (approve_row now admin) w.topup_requests;
  credit_entries = w.credit_entries ++ topup_entry now r ∷ [];
  admin_actions = w.admin_actions ++ approval now key admin r ∷ [];
}

abbrev pub decide_approval :
    ℕ → ℕ → ℕ → World → Reply TopUpRequest → Reply (ℕ × TopUpStatus) × World
decide_approval now key admin w (denied d) = (denied d, w)
decide_approval now key admin w (done r) =
    (done (r.id, TopUpStatus.approved), write_approval now key admin r w)

unfoldable pub approve : ℕ → ℕ → ℕ → ℕ → World → Reply (ℕ × TopUpStatus) × World
approve now key id admin w = decide_approval now key admin w (reviewable (find_request w id))

abbrev pub rejection : ℕ → ℕ → ℕ → Text → TopUpRequest → AdminAction
rejection now key admin reason r = record {
  id = key;
  admin_id = admin;
  target_user_id = some r.user_id;
  action = reject_topup;
  reason = some reason;
  details = reviewed r.id r.credits r.amount_gnf;
  created_at = now;
}

unfoldable pub write_rejection : ℕ → ℕ → ℕ → Text → TopUpRequest → World → World
write_rejection now key admin reason r w = record w {
  topup_requests = update_where (λ s. s.id == r.id) (reject_row now admin reason) w.topup_requests;
  admin_actions = w.admin_actions ++ rejection now key admin reason r ∷ [];
}

abbrev pub decide_rejection :
    ℕ → ℕ → ℕ → Text → World → Reply TopUpRequest → Reply (ℕ × TopUpStatus) × World
decide_rejection now key admin reason w (denied d) = (denied d, w)
decide_rejection now key admin reason w (done r) =
    (done (r.id, TopUpStatus.rejected), write_rejection now key admin reason r w)

unfoldable pub reject : ℕ → ℕ → ℕ → ℕ → Text → World → Reply (ℕ × TopUpStatus) × World
reject now key id admin reason w =
    decide_rejection now key admin reason w (reviewable (find_request w id))
