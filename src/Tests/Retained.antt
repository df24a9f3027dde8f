-- ===== src/Tests/Retained.antt =====
-- A journal of two messages, one of them old.
use zendou_backend.Common.{
  ℕ, ◌*◌, ◌-◌, ◌≤◌, ◌≡◌, refl, ap, sym, ◌∙◌, some, List, [], ◌∷◌, arith, remove_where,
}
use mathlib.Core.List.{Memᴰ}
use zendou_backend.Schema.{Email, World}
use zendou_backend.Emails.Day.{start_of_utc_day}
use zendou_backend.Emails.Checks.{sent_today}
use zendou_backend.Reputation.{metrics_of, window_start}
use zendou_backend.Retention.{is_expired, purge_old_emails}
use zendou_backend.Retention.Purge.{IsKeyed, IsOrder, purge_old_emails-deletes}
use zendou_backend.Retention.Neutral.{purge_old_emails-neutral}
use zendou_backend.Tests.{instant, env, ann, office, outgoing}

abbrev stale : Email
stale = record outgoing { id = 62; queued_at = 5000 }

abbrev archive : World
archive = record office { emails = stale ∷ outgoing ∷ [] }

-- Six months before, or nearly.
abbrev cutoff : ℕ
cutoff = instant - 184 * 86400000

archive-IsKeyed : IsKeyed archive.emails
archive-IsKeyed e e' (Memᴰ.head p) (Memᴰ.head q) same = p ∙ sym q
archive-IsKeyed e e' (Memᴰ.head p) (Memᴰ.tail (Memᴰ.head q)) same =
    ground (arith, ap (λ (x : Email). x.id) p, ap (λ (x : Email). x.id) q, same)
archive-IsKeyed e e' (Memᴰ.tail (Memᴰ.head p)) (Memᴰ.head q) same =
    ground (arith, ap (λ (x : Email). x.id) p, ap (λ (x : Email). x.id) q, same)
archive-IsKeyed e e' (Memᴰ.tail (Memᴰ.head p)) (Memᴰ.tail (Memᴰ.head q)) same = p ∙ sym q
archive-IsKeyed e e' (Memᴰ.tail (Memᴰ.tail m)) m' same = elim m [ ]
archive-IsKeyed e e' m (Memᴰ.tail (Memᴰ.tail m')) same = elim m' [ ]

abbrev as_stored : List ℕ → List ℕ
as_stored ids = ids

as_stored-IsOrder : IsOrder as_stored
as_stored-IsOrder = record { same_ids = λ ids id. refl }

purge_old_emails-deletes_example :
    purge_old_emails as_stored 3 cutoff archive
    ≡ some (record archive { emails = remove_where (is_expired cutoff) archive.emails })
purge_old_emails-deletes_example =
    purge_old_emails-deletes as_stored as_stored-IsOrder cutoff 3 archive archive-IsKeyed
      (omega arith)

-- One row is left.
one_left :
    purge_old_emails as_stored 3 cutoff archive ≡ some (record archive { emails = outgoing ∷ [] })
unfolding purge_old_emails
one_left = refl

cutoff_before_today : cutoff ≤ start_of_utc_day env.now
unfolding start_of_utc_day
cutoff_before_today = omega arith

cutoff_before_window : cutoff ≤ window_start env.now ann
unfolding window_start
cutoff_before_window = omega arith

purge_old_emails-neutral_example :
    (w' : World) × (purge_old_emails as_stored 3 cutoff archive ≡ some w')
    × (sent_today env 1 w' ≡ sent_today env 1 archive)
    × (metrics_of env.now ann w' ≡ metrics_of env.now ann archive)
purge_old_emails-neutral_example =
    purge_old_emails-neutral as_stored cutoff 3 1 env ann archive as_stored-IsOrder archive-IsKeyed
      (omega arith) cutoff_before_today cutoff_before_window
