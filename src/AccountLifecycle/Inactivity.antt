-- ===== src/AccountLifecycle/Inactivity.antt =====
-- src/account-lifecycle/account-inactivity.service.ts: the daily passage over the accounts that
-- sleep. The cutoffs of 23 and 24 calendar months are computed by the platform's calendar and are
-- arguments, and so are the order of the database among accounts (by `createdAt`) and the texts of
-- the warnings.
pub mod Notice
pub mod Pages
pub mod Rows
use zendou_backend.Common.{
  ℕ, zero, suc, ◌+◌, ◌-◌, ◌*◌, Bool, true, false, not, ◌&&◌, ◌||◌, Option, none, some, List, [],
  ◌∷◌, ◌++◌, ltb, leb, ◌==◌, if◌then◌else◌, length, count, update_where, is_some, take,
}
use zendou_backend.Common.Slices.{drop}
use zendou_backend.Schema.{User, World}
use zendou_backend.Emails.Refusal.{Result, ok, err}
use zendou_backend.Emails.Checks.{Env}
use zendou_backend.Emails.Accept.{Fresh}
use zendou_backend.Emails.System.{
  AlertText, SystemEmailPayload, SystemSendResult, alert_payload, send_system,
}
use zendou_backend.Admin.{AdminReply, performed, denied}
use zendou_backend.AccountLifecycle.{
  has_purchased_credits, inactive_since, marked_before, day_ms, inactivity_warning_notice_days,
  inactivity_sweep_batch_size,
}
use zendou_backend.AccountLifecycle.Anonymization.{
  Erasing, by_inactivity, AnonymizationResult, is_admin, anonymize,
}

pub record Sweep : Type 0 where
  pub now : ℕ
  pub warning_cutoff : ℕ
  pub anonymize_cutoff : ℕ
  pub order : List User → List User
  pub env : Env
  pub fresh : ℕ → Fresh
  pub message : User → AlertText
  pub erasing : Erasing

pub record InactivitySweepReport : Type 0 where
  pub warnings_lifted : ℕ
  pub warned : ℕ
  pub anonymized : ℕ

abbrev pub warned_before : ℕ → ℕ
warned_before now = now - inactivity_warning_notice_days * day_ms

-- `inactivityWarningSentAt: null`
abbrev pub unmark : User → User
unmark u = record u { inactivity_warning_sent_at = none }

abbrev pub is_awake : ℕ → User → Bool
is_awake cutoff u =
    is_some u.inactivity_warning_sent_at
    && not (is_some u.anonymized_at)
    && (is_admin u.role || not (inactive_since cutoff u))

abbrev pub is_warned : User → Bool
is_warned u =
    not (is_admin u.role) && not (is_some u.anonymized_at) && is_some u.inactivity_warning_sent_at

abbrev pub is_marked : ℕ → User → Bool
is_marked id u = u.id == id && is_some u.inactivity_warning_sent_at

-- The rows that `findMany` matches.
abbrev pub matching : (User → Bool) → List User → List User
matching p [] = []
matching p (u ∷ us) = let rest = matching p us in if p u then u ∷ rest else rest

abbrev pub update_users : (User → Bool) → (User → User) → World → World
update_users p f w = record w { users = update_where p f w.users }

abbrev pub lift_one : User → ℕ × World → ℕ × World
lift_one u (n, w) =
    if has_purchased_credits w u.id
    then (n + count (is_marked u.id) w.users, update_users (is_marked u.id) unmark w)
    else (n, w)

abbrev pub lift_protected : List User → ℕ × World → ℕ × World
lift_protected [] state = state
lift_protected (u ∷ us) state = lift_protected us (lift_one u state)

unfoldable pub lift_warnings : ℕ → World → ℕ × World
lift_warnings cutoff w =
    let awake = update_users (is_awake cutoff) unmark w in
    lift_protected (matching is_warned awake.users) (count (is_awake cutoff) w.users, awake)

-- `eligible`
abbrev pub is_to_warn : ℕ → User → Bool
is_to_warn cutoff u =
    not (is_admin u.role)
    && not (is_some u.anonymized_at)
    && not (is_some u.inactivity_warning_sent_at)
    && inactive_since cutoff u

-- A page of accounts, of which those without purchased credits are kept while there is room.
abbrev pub keep_page : World → List User → List User → List User
keep_page w [] candidates = candidates
keep_page w (u ∷ us) candidates = keep_page w us (
    if ltb (length candidates) inactivity_sweep_batch_size && not (has_purchased_credits w u.id)
    then candidates ++ u ∷ []
    else candidates)

-- `none` where the fuel, the number of pages, does not suffice.
unfoldable pub candidates_from : ℕ → World → List User → ℕ → List User → Option (List User)
candidates_from zero w rows skip candidates = none
candidates_from (suc pages) w rows skip candidates =
    let page = take inactivity_sweep_batch_size (drop skip rows) in
    let rest =
      candidates_from pages w rows (skip + inactivity_sweep_batch_size)
        (keep_page w page candidates) in
    if not (ltb (length candidates) inactivity_sweep_batch_size)
    then some candidates
    else if length page == 0
    then some candidates
    else rest

-- The write that claims the warning of a candidate.
abbrev pub is_claimable : ℕ → ℕ → User → Bool
is_claimable cutoff id u = u.id == id && is_to_warn cutoff u

abbrev pub mark_warned : ℕ → User → User
mark_warned now u = record u { inactivity_warning_sent_at = some now }

abbrev pub is_marked_at : ℕ → ℕ → User → Bool
is_marked_at id now u =
    u.id == id && elim u.inactivity_warning_sent_at [ none ↦ false | some at ↦ at == now ]

-- The marker is taken back where the warning could not be sent.
abbrev pub settle_warning : ℕ → ℕ → ℕ → Result SystemSendResult × World → ℕ × World
settle_warning id now n (ok _, w) = (n + 1, w)
settle_warning id now n (err _, w) = (n, update_users (is_marked_at id now) unmark w)

abbrev pub warn_one : Sweep → User → ℕ × World → ℕ × World
warn_one s u (n, w) =
    if count (is_claimable s.warning_cutoff u.id) w.users == 0
    then (n, w)
    else settle_warning u.id s.now n (
        send_system s.env (s.fresh u.id) (alert_payload u.id u (s.message u))
          (update_users (is_claimable s.warning_cutoff u.id) (mark_warned s.now) w))

abbrev pub warn_all : Sweep → List User → ℕ × World → ℕ × World
warn_all s [] state = state
warn_all s (u ∷ us) state = warn_all s us (warn_one s u state)

abbrev pub warn_found : Sweep → World → Option (List User) → Option (ℕ × World)
warn_found s w none = none
warn_found s w (some candidates) = some (warn_all s candidates (0, w))

unfoldable pub warn : Sweep → ℕ → World → Option (ℕ × World)
warn s pages w =
    warn_found s w
      (candidates_from pages w (s.order (matching (is_to_warn s.warning_cutoff) w.users)) 0 [])

abbrev pub is_due : ℕ → ℕ → User → Bool
is_due cutoff before u =
    not (is_admin u.role)
    && not (is_some u.anonymized_at)
    && marked_before before u.inactivity_warning_sent_at
    && inactive_since cutoff u

abbrev pub tally : ℕ → AdminReply (Option AnonymizationResult) × World → ℕ × World
tally n (performed (some result), w) = (n + 1, w)
tally n (performed none, w) = (n, w)
tally n (denied reason, w) = (n, w)

-- A refusal is caught and logged.
abbrev pub anonymize_one : Sweep → User → ℕ × World → ℕ × World
anonymize_one s u (n, w) =
    tally n (anonymize s.erasing u.id (by_inactivity s.anonymize_cutoff (warned_before s.now)) w)

abbrev pub anonymize_all : Sweep → List User → ℕ × World → ℕ × World
anonymize_all s [] state = state
anonymize_all s (u ∷ us) state = anonymize_all s us (anonymize_one s u state)

unfoldable pub anonymize_due : Sweep → World → ℕ × World
anonymize_due s w =
    anonymize_all s
      (take inactivity_sweep_batch_size
        (s.order (matching (is_due s.anonymize_cutoff (warned_before s.now)) w.users)))
      (0, w)

abbrev pub swept : Sweep → ℕ → Option (ℕ × World) → Option (InactivitySweepReport × World)
swept s lifted none = none
swept s lifted (some (warned, w)) =
    let (anonymized, w') = anonymize_due s w in
    some (record { warnings_lifted = lifted; warned = warned; anonymized = anonymized }, w')

unfoldable pub run_sweep : Sweep → ℕ → World → Option (InactivitySweepReport × World)
run_sweep s pages w =
    let (lifted, w') = lift_warnings s.warning_cutoff w in swept s lifted (warn s pages w')
