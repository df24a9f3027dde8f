-- ===== src/Retention.antt =====
-- src/retention/retention.service.ts: the daily purge of the journal of sends. The cutoff, six
-- calendar months ago, is computed by the platform's calendar and is an argument; so is the order
-- in which the database returns the rows of a query without one. A pass that the database
-- interrupts is not modelled.
pub mod Purge
pub mod Neutral
use zendou_backend.Common.{
  ℕ, zero, suc, Bool, false, ◌||◌, Option, none, some, List, [], ◌∷◌, ltb, ◌==◌, if◌then◌else◌,
  length, remove_where, take,
}
use zendou_backend.Schema.{Email, World}

-- `EMAIL_LOG_DELETE_BATCH_SIZE`
abbrev pub email_log_delete_batch_size : ℕ
email_log_delete_batch_size = 500

abbrev pub is_expired : ℕ → Email → Bool
is_expired cutoff e = ltb e.queued_at cutoff

-- The ids of the rows that `findMany` matches.
abbrev pub expired_ids : ℕ → List Email → List ℕ
expired_ids cutoff [] = []
expired_ids cutoff (e ∷ es) =
    let rest = expired_ids cutoff es in if is_expired cutoff e then e.id ∷ rest else rest

abbrev pub has_id : List ℕ → ℕ → Bool
has_id [] id = false
has_id (x ∷ xs) id = x == id || has_id xs id

-- `deleteMany({ where: { id: { in: ids } } })`
abbrev pub delete_ids : List ℕ → World → World
delete_ids ids w = record w { emails = remove_where (λ e. has_id ids e.id) w.emails }

-- `none` where the fuel, the number of pages, does not suffice.
unfoldable pub purge_old_emails : (List ℕ → List ℕ) → ℕ → ℕ → World → Option World
purge_old_emails order zero cutoff w = none
purge_old_emails order (suc pages) cutoff w =
    let batch = take email_log_delete_batch_size (order (expired_ids cutoff w.emails)) in
    let rest = purge_old_emails order pages cutoff (delete_ids batch w) in
    if length batch == 0
    then some w
    else if ltb (length batch) email_log_delete_batch_size
    then some (delete_ids batch w)
    else rest
