-- ===== src/Emails/System/Alert.antt =====
-- The low-balance alert, run once and again, and the started promises.
use zendou_backend.Common.{
  ℕ, ◌≤◌, ◌≡◌, ◌≢◌, refl, ap, map, All, ◌++◌, [], ◌∷◌, ◌∙◌, inl, inr, Option, none, some, List, [],
  ◌∷◌, arith, Bool-cases, Option-cases, ◌==◌, count, update_where,
}
use zendou_backend.Common.Int.{ℤ}
use zendou_backend.Schema.{
  User, CreditEntry, Job, World, Task, record_activity, low_balance_alert, find_user,
}
use zendou_backend.Emails.Refusal.{Failure, Result, ok, err}
use zendou_backend.Emails.Checks.{Env}
use zendou_backend.Emails.Accept.{Fresh}
use zendou_backend.Emails.System.{
  SystemEmailPayload, SystemSendResult, AlertText, send_system, last_credit, may_claim, mark,
  alert_due, claim, settle, send_alert, alert_payload, send_low_balance_alert,
  record_account_activity, run_task,
}
use zendou_backend.Emails.System.Exemption.{
  SystemOutcome, fails, skips, strands, queues, send_system-Outcome, send_system-IsExempt,
}
use zendou_backend.Emails.System.Marks.{alert_mark, marks-count, IsNoCredit, last_credit-append}

-- No row of the table can be claimed again after a claim that is not older than the credit.
claimed-count :
    (user at now : ℕ) (users : List User)
    → at ≤ now
    → count (may_claim user at) (update_where (may_claim user at) (mark (some now)) users) ≡ 0
claimed-count user at now [] h = refl
claimed-count user at now (u ∷ us) h = ground (arith, claimed-count user at now us h)

-- An alert that is due is due since the last credit.
alert_due-last :
    (user : ℕ) (estimated : ℤ) (sent : Option ℕ) (w : World) (at : ℕ)
    → alert_due user estimated sent w ≡ some at
    → (e : CreditEntry) × (last_credit user w.credit_entries ≡ some e) × (e.created_at ≡ at)
unfolding alert_due
alert_due-last user estimated sent w at h =
    elim (Option-cases (last_credit user w.credit_entries)) [
      | inl e ↦ absurd (none_due e)
      | inr (c, e) ↦ (c, e, same c e)
    ]
  where
    none_due : last_credit user w.credit_entries ≡ none → ⊥
    none_due e = cc (rw (e, alert_due) at h)

    same : (c : CreditEntry) → last_credit user w.credit_entries ≡ some c → c.created_at ≡ at
    same c e = ground arith

module _ (user : ℕ) (at : ℕ) where
  -- The state after a pass that has claimed the marker: the accounts carry it, and the entries of
  -- the ledger are those of before.
  idle_of_claimed :
      (env : Env) (fresh : Fresh) (estimated : ℤ) (sent : Option ℕ) (message : AlertText)
      (w : World) (e : CreditEntry)
      → last_credit user w.credit_entries ≡ some e
      → e.created_at ≡ at
      → count (may_claim user at) w.users ≡ 0
      → send_low_balance_alert env fresh user estimated sent message w ≡ w
  unfolding send_low_balance_alert
  idle_of_claimed env fresh estimated sent message w e last date nobody =
      elim (Option-cases (alert_due user estimated sent w)) [
        | inl idle ↦ rw (idle, send_low_balance_alert)
        | inr (at', due) ↦
            let (e', last', date') = alert_due-last user estimated sent w at' due in
            let same : at' ≡ at = cc (last, last', date, date') in
            rw (due, send_low_balance_alert) (rw same (rw nobody))
      ]

-- A settled send that has queued its message has not put the marker back.
settle-kept :
    (user : ℕ) (sent : Option ℕ) (out : Result SystemSendResult × World) (jobs : List Job)
    → ((f : Failure) → out.0 ≡ err f → out.1.jobs ≡ jobs)
    → (settle user sent out).jobs ≢ jobs
    → settle user sent out ≡ out.1
settle-kept user sent (ok a, w) jobs keep ne = refl
settle-kept user sent (err f, w) jobs keep ne = absurd (ne (keep f refl))

module _ (env : Env) (fresh : Fresh) (user : ℕ) (sent : Option ℕ) (message : AlertText) where
  failed-jobs :
      {payload : SystemEmailPayload} {w : World} {r : Result SystemSendResult} {w' : World}
      (f : Failure)
      → SystemOutcome env fresh payload w r w'
      → r ≡ err f
      → w'.jobs ≡ w.jobs
  failed-jobs f fails e = refl
  failed-jobs f (strands _) e = refl
  failed-jobs f (skips _ _) e = cc
  failed-jobs f (queues _ _) e = cc

  -- A message that was queued leaves the accounts and the ledger as the claim made them.
  send_alert-kept :
      (w : World)
      → (send_alert env fresh user sent message w).jobs ≢ w.jobs
      → ((send_alert env fresh user sent message w).users ≡ w.users)
        × ((send_alert env fresh user sent message w).credit_entries ≡ w.credit_entries)
  send_alert-kept w = by_account (find_user w user) refl
    where
      by_account :
          (o : Option User)
          → find_user w user ≡ o
          → (send_alert env fresh user sent message w).jobs ≢ w.jobs
          → ((send_alert env fresh user sent message w).users ≡ w.users)
            × ((send_alert env fresh user sent message w).credit_entries ≡ w.credit_entries)
      by_account none e = rw (e, send_alert) (λ ne. (refl, refl))
      by_account (some account) e =
          rw (e, send_alert)
            λ ne.
              let payload = alert_payload user account message in
              let kept =
                settle-kept user sent (send_system env fresh payload w) w.jobs
                  (λ f failed. failed-jobs f (send_system-Outcome env fresh payload w) failed) ne in
              let exempt = send_system-IsExempt env fresh payload w in
              (
                ap (λ (v : World). v.users) kept ∙ exempt.users_same,
                ap (λ (v : World). v.credit_entries) kept ∙ exempt.entries_same,
              )

  -- What a pass that has queued a message leaves: nobody can claim again, and the same ledger.
  sent-claimed :
      (estimated : ℤ) (w : World) (at : ℕ)
      → alert_due user estimated sent w ≡ some at
      → at ≤ env.now
      → (send_low_balance_alert env fresh user estimated sent message w).jobs ≢ w.jobs
      → (count
            (may_claim user at)
            (send_low_balance_alert env fresh user estimated sent message w).users
          ≡ 0)
        × ((send_low_balance_alert env fresh user estimated sent message w).credit_entries
            ≡ w.credit_entries)
  unfolding send_low_balance_alert
  sent-claimed estimated w at due past =
      rw (due, send_low_balance_alert)
        (elim (Bool-cases (count (may_claim user at) w.users == 0)) [
          | inl nobody ↦ rw nobody (λ ne. absurd (ne refl))
          | inr somebody ↦ rw somebody λ ne.
              let (users, entries) = send_alert-kept (claim env user at w) ne in
              (
                ap (count (may_claim user at)) users ∙ claimed-count user at env.now w.users past,
                entries,
              )
        ])

  -- One crossing of the threshold gives one message: after a pass that has queued its message, a
  -- second pass, whatever stale values it was started with, changes nothing in any later state where
  -- the marks of the alert are those that the first pass has left, and the ledger has grown by
  -- entries of which none is a credit of this client, such as the debits of its sends; the last
  -- credit is not dated after the claim.
  pub send_low_balance_alert_once :
      (estimated estimated' : ℤ) (w : World) (at : ℕ)
      → alert_due user estimated sent w ≡ some at
      → at ≤ env.now
      → (send_low_balance_alert env fresh user estimated sent message w).jobs ≢ w.jobs
      → (v : World) (later : List CreditEntry) (env' : Env) (fresh' : Fresh) (sent' : Option ℕ)
        (message' : AlertText)
      → map alert_mark v.users
        ≡ map alert_mark (send_low_balance_alert env fresh user estimated sent message w).users
      → v.credit_entries
        ≡ (send_low_balance_alert env fresh user estimated sent message w).credit_entries ++ later
      → All (IsNoCredit user) later
      → send_low_balance_alert env' fresh' user estimated' sent' message' v ≡ v
  send_low_balance_alert_once estimated estimated' w at due past ne v later env' fresh' sent'
        message' marks grown debits =
      let w' = send_low_balance_alert env fresh user estimated sent message w in
      let (nobody, entries) = sent-claimed estimated w at due past ne in
      let (e, last, date) = alert_due-last user estimated sent w at due in
      idle_of_claimed user at env' fresh' estimated' sent' message' v e
        (ap (last_credit user) grown
          ∙ last_credit-append user w'.credit_entries later debits
          ∙ ap (last_credit user) entries
          ∙ last)
        date (marks-count user at v.users w'.users marks ∙ nobody)

-- The ledger and the top-up requests are the same.
abbrev pub SameLedger : World → World → Type 0
SameLedger v w = (v.credit_entries ≡ w.credit_entries) × (v.topup_requests ≡ w.topup_requests)

settle-SameLedger :
    (user : ℕ) (sent : Option ℕ) (out : Result SystemSendResult × World)
    → SameLedger (settle user sent out) out.1
settle-SameLedger user sent (ok a, w) = (refl, refl)
settle-SameLedger user sent (err f, w) = (refl, refl)

send_alert-SameLedger :
    (env : Env) (fresh : Fresh) (user : ℕ) (sent : Option ℕ) (message : AlertText) (w : World)
    → SameLedger (send_alert env fresh user sent message w) w
send_alert-SameLedger env fresh user sent message w = elim (Option-cases (find_user w user)) [
  | inl e ↦ rw (e, send_alert) (refl, refl)
  | inr (account, e) ↦
      let payload = alert_payload user account message in
      let (entries, requests) = settle-SameLedger user sent (send_system env fresh payload w) in
      let exempt = send_system-IsExempt env fresh payload w in
      rw (e, send_alert) (entries ∙ exempt.entries_same, requests ∙ exempt.requests_same)
]

-- No started promise, run at any later time, debits or credits anyone or touches a top-up request.
pub run_task-SameLedger :
    (env : Env) (fresh : Fresh) (message : AlertText) (task : Task) (w : World)
    → SameLedger (run_task env fresh message task w) w
unfolding run_task record_account_activity send_low_balance_alert
run_task-SameLedger env fresh message (record_activity user known) w = ground arith
run_task-SameLedger env fresh message (low_balance_alert user estimated sent) w =
    elim (Option-cases (alert_due user estimated sent w)) [
      | inl e ↦ rw (e, send_low_balance_alert) (refl, refl)
      | inr (at, e) ↦ elim (Bool-cases (count (may_claim user at) w.users == 0)) [
        | inl nobody ↦ rw (e, send_low_balance_alert) (rw nobody (refl, refl))
        | inr somebody ↦
            rw (e, send_low_balance_alert)
              (rw somebody
                (send_alert-SameLedger env fresh user sent message (claim env user at w)))
      ]
    ]
