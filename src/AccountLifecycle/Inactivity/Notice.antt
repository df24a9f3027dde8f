-- ===== src/AccountLifecycle/Inactivity/Notice.antt =====
-- Whom a passage erases.
use zendou_backend.Common.{
  ℕ, suc, ◌≤◌, ◌≡◌, ◌⊎◌, refl, inl, inr, Bool, true, Option, none, some, List, [], ◌∷◌, arith, ◌==◌,
  count, is_some, take, Bool-cases, length,
}
use zendou_backend.Schema.{User, World, find_user}
use zendou_backend.AccountLifecycle.Inactivity.Pages.{candidates_read}
use zendou_backend.Emails.Refusal.{Result, ok, err}
use zendou_backend.Emails.System.{SystemSendResult, alert_payload, send_system}
use zendou_backend.Emails.System.Exemption.{send_system-IsExempt}
use zendou_backend.Sessions.{destroy_all_for_user}
use zendou_backend.AccountLifecycle.{inactivity_sweep_batch_size}
use zendou_backend.Admin.{AdminReply, performed, denied}
use zendou_backend.AccountLifecycle.Anonymization.{
  AnonymizationResult, by_inactivity, Decision, erase, skip, refuse, carry_out, anonymize,
  may_rewrite, anonymize_row,
}
use zendou_backend.AccountLifecycle.Anonymization.Traces.{after-same}
use zendou_backend.AccountLifecycle.Inactivity.{
  Sweep, InactivitySweepReport, warned_before, matching, update_users, tally, anonymize_one,
  lift_warnings, is_claimable, mark_warned, settle_warning, warn_one, warn_all, is_due,
  anonymize_all, anonymize_due, run_sweep, warn,
}
use zendou_backend.AccountLifecycle.Inactivity.Rows.{
  is_noticed, IsTraced, same-IsTraced, then-IsTraced, update-IsTraced, unmark-IsTraced,
  lift_warnings-IsTraced,
}

module _ (s : Sweep) where
  -- The passage comes to an end, and whom it erases was noticed.
  pub record SweepEnds (pages : ℕ) (w : World) : Type 0 where
    pub report : InactivitySweepReport
    pub world : World
    pub ends : run_sweep s pages w ≡ some (report, world)
    pub noticed :
        (id : ℕ) (v : User)
        → find_user world id ≡ some v
        → is_some v.anonymized_at ≡ true
        → (u : User) × (find_user w id ≡ some u)
          × ((is_some u.anonymized_at ≡ true)
              ⊎ (is_noticed s.anonymize_cutoff (warned_before s.now) u ≡ true))

module _ (s : Sweep) (dated : 1 ≤ s.now) where
  abbrev Traced : ℕ → World → World → Type 0
  Traced = IsTraced s.anonymize_cutoff (warned_before s.now)

  -- A warning of this passage is too young to count.
  mark-IsTraced :
      (id : ℕ) (w : World) (q : User → Bool) → Traced id w (update_users q (mark_warned s.now) w)
  mark-IsTraced id w q =
      update-IsTraced s.anonymize_cutoff (warned_before s.now) id w _ q (mark_warned s.now)
        (λ u. refl)
        (λ u hit. record { noticed = λ h. ground (arith, h, dated); erased = λ h. inl h }) refl

  settle_warning-IsTraced :
      (id other n : ℕ) (r : Result SystemSendResult) (w : World)
      → Traced id w (settle_warning other s.now n (r, w)).1
  settle_warning-IsTraced id other n (ok _) w = same-IsTraced _ _ id w w refl
  settle_warning-IsTraced id other n (err _) w = unmark-IsTraced _ _ id w _

  warn_one-IsTraced : (id : ℕ) (u : User) (n : ℕ) (w : World) → Traced id w (warn_one s u (n, w)).1
  warn_one-IsTraced id u n w =
      elim (Bool-cases (count (is_claimable s.warning_cutoff u.id) w.users == 0)) [
        | inl lost ↦ rw lost (same-IsTraced _ _ id w w refl)
        | inr won ↦
            let marked = update_users (is_claimable s.warning_cutoff u.id) (mark_warned s.now) w in
            let sent =
              send_system s.env (s.fresh u.id) (alert_payload u.id u (s.message u)) marked in
            rw won (
              then-IsTraced _ _ id w marked _ (mark-IsTraced id w _) (
                then-IsTraced _ _ id marked sent.1 _
                  (same-IsTraced _ _ id marked sent.1
                    (send_system-IsExempt s.env (s.fresh u.id) (alert_payload u.id u (s.message u))
                      marked).users_same)
                  (settle_warning-IsTraced id u.id n sent.0 sent.1)))
      ]

  warn_all-IsTraced :
      (id : ℕ) (us : List User) (n : ℕ) (w : World) → Traced id w (warn_all s us (n, w)).1
  warn_all-IsTraced id [] n w = same-IsTraced _ _ id w w refl
  warn_all-IsTraced id (u ∷ us) n w =
      then-IsTraced _ _ id w _ _ (warn_one-IsTraced id u n w)
        (warn_all-IsTraced id us (warn_one s u (n, w)).0 (warn_one s u (n, w)).1)

  carry_out-IsTraced :
      (id other : ℕ) (w : World) (d : Decision)
      → Traced id w
          (carry_out s.erasing (by_inactivity s.anonymize_cutoff (warned_before s.now)) other w d).1
  unfolding destroy_all_for_user
  carry_out-IsTraced id other w (refuse denial) = same-IsTraced _ _ id w w refl
  carry_out-IsTraced id other w skip = same-IsTraced _ _ id w w refl
  carry_out-IsTraced id other w erase =
      let origin = by_inactivity s.anonymize_cutoff (warned_before s.now) in
      update-IsTraced _ _ id w _ (may_rewrite origin other) (anonymize_row s.erasing origin)
        (λ u. refl)
        (λ u hit. record {
          noticed = λ h. ground (arith, h);
          erased = λ h. inr (ground (arith, hit));
        })
        (after-same s.erasing other origin w (λ v. v.users) (λ v a. refl) (λ v. refl))

  anonymize-IsTraced :
      (id other : ℕ) (w : World)
      → Traced id w
          (anonymize s.erasing other (by_inactivity s.anonymize_cutoff (warned_before s.now)) w).1
  unfolding anonymize
  anonymize-IsTraced id other w = carry_out-IsTraced id other w _

  tally-IsTraced :
      (id n : ℕ) (w v : World) (r : AdminReply (Option AnonymizationResult))
      → Traced id w v
      → Traced id w (tally n (r, v)).1
  tally-IsTraced id n w v (performed (some result)) h = h
  tally-IsTraced id n w v (performed none) h = h
  tally-IsTraced id n w v (denied reason) h = h

  anonymize_all-IsTraced :
      (id : ℕ) (us : List User) (state : ℕ × World) → Traced id state.1 (anonymize_all s us state).1
  anonymize_all-IsTraced id [] state = same-IsTraced _ _ id state.1 state.1 refl
  anonymize_all-IsTraced id (u ∷ us) state =
      let origin = by_inactivity s.anonymize_cutoff (warned_before s.now) in
      then-IsTraced _ _ id state.1 (anonymize_one s u state).1 _
        (tally-IsTraced id state.0 state.1 _ _ (anonymize-IsTraced id u.id state.1))
        (anonymize_all-IsTraced id us (anonymize_one s u state))

  anonymize_due-IsTraced : (id : ℕ) (w : World) → Traced id w (anonymize_due s w).1
  unfolding anonymize_due
  anonymize_due-IsTraced id w =
      anonymize_all-IsTraced id
        (take inactivity_sweep_batch_size
          (s.order (matching (is_due s.anonymize_cutoff (warned_before s.now)) w.users)))
        (0, w)

  -- A passage comes to an end with one page more than the accounts, and erases only who was a
  -- client, was asleep since the cutoff of 24 months and had been warned 30 days before it at the
  -- latest, all in the state where the passage begins: an account that is erased after it was there
  -- before it, and was erased already or was such an account. The order of the database keeps the
  -- number of accounts, and the date of the passage is not the epoch.
  pub run_sweep-SweepEnds :
      (w : World)
      → ((us : List User) → length (s.order us) ≡ length us)
      → SweepEnds s (suc (length w.users)) w
  unfolding run_sweep warn IsTraced
  run_sweep-SweepEnds w keeps =
      let lifted = lift_warnings s.warning_cutoff w in
      let (candidates, read) = candidates_read s w keeps in
      let warned = warn_all s candidates (0, lifted.1) in
      let last = anonymize_due s warned.1 in
      record {
        report = record { warnings_lifted = lifted.0; warned = warned.0; anonymized = last.0 };
        world = last.1;
        ends = rw read refl;
        noticed = λ id v found erased.
            let traced : Traced id w last.1 =
              then-IsTraced _ _ id w lifted.1 last.1 (lift_warnings-IsTraced _ _ id _ w) (
                then-IsTraced _ _ id lifted.1 warned.1 last.1
                  (warn_all-IsTraced id candidates 0 lifted.1)
                  (anonymize_due-IsTraced id warned.1)) in
            let (u, was, step) = traced v found in (u, was, step.erased erased);
      }
