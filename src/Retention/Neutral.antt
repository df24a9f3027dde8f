-- ===== src/Retention/Neutral.antt =====
-- What a purge leaves to the daily limit and to the reputation.
use zendou_backend.Common.{
  ℕ, ◌≤◌, ◌<◌, ◌≡◌, Bool, true, ◌&&◌, some, List, arith, count, count-remove_other, length,
  remove_where, refl,
}
use zendou_backend.Schema.{User, Email, World, was_sent}
use zendou_backend.Emails.Day.{start_of_utc_day}
use zendou_backend.Emails.Checks.{Env, counts_today, sent_today}
use zendou_backend.Reputation.{
  metrics_of, window_start, in_window, is_bounced, is_complained, starts_hard,
}
use zendou_backend.Retention.{is_expired, purge_old_emails}
use zendou_backend.Retention.Purge.{IsKeyed, IsOrder, purge_old_emails-deletes}

module _ (cutoff : ℕ) (es : List Email) where
  -- A count of recent rows.
  recent_count :
      (q : Email → Bool)
      → ((e : Email) → q e ≡ true → cutoff ≤ e.queued_at)
      → count q (remove_where (is_expired cutoff) es) ≡ count q es
  recent_count q recent =
      count-remove_other (is_expired cutoff) q (λ e h. let late = recent e h in ground arith) es

  window_count :
      (user since : ℕ) (q : Email → Bool)
      → cutoff ≤ since
      → count (λ e. in_window user since e && q e) (remove_where (is_expired cutoff) es)
        ≡ count (λ e. in_window user since e && q e) es
  window_count user since q within =
      recent_count (λ e. in_window user since e && q e) (λ e h. ground arith)

-- A purge whose cutoff is before the present day and before the window of an account's reputation
-- comes to its end, and changes neither the number of messages that count for a client's daily
-- limit nor the rates on which the account is judged, when the ids of the rows are unique and the
-- pages allowed are more than the rows.
pub purge_old_emails-neutral :
    (order : List ℕ → List ℕ) (cutoff pages user : ℕ) (env : Env) (account : User) (w : World)
    → IsOrder order
    → IsKeyed w.emails
    → length w.emails < pages
    → cutoff ≤ start_of_utc_day env.now
    → cutoff ≤ window_start env.now account
    → (w' : World) × (purge_old_emails order pages cutoff w ≡ some w')
      × (sent_today env user w' ≡ sent_today env user w)
      × (metrics_of env.now account w' ≡ metrics_of env.now account w)
unfolding sent_today metrics_of
purge_old_emails-neutral order cutoff pages user env account w ord keyed few day window =
    let since = window_start env.now account in
    let same = λ (q : Email → Bool). window_count cutoff w.emails account.id since q window in
    let hard =
      recent_count cutoff w.emails
        (λ e. in_window account.id since e && is_bounced e.status && starts_hard e.error_message)
        (λ e h. ground arith) in
    (
      record w { emails = remove_where (is_expired cutoff) w.emails },
      purge_old_emails-deletes order ord cutoff pages w keyed few,
      recent_count cutoff w.emails (counts_today env user) (λ e h. ground arith),
      rw (same (λ e. was_sent e.status)) (
          rw (same (λ e. is_bounced e.status))
            (rw (same (λ e. is_complained e.status)) (rw hard refl))),
    )
