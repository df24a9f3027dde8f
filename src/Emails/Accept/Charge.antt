-- ===== src/Emails/Accept/Charge.antt =====
-- What an acceptance writes, by the way in which it ends.
use zendou_backend.Common.{
  ℕ, ◌≡◌, ◌≢◌, refl, ap, inl, inr, true, false, none, some, [], ◌∷◌, ◌++◌, Bool-cases,
}
use zendou_backend.Common.Int.{ℤ, pos, negsuc, ◌+ℤ◌, ◌-ℤ◌, int_laws}
use zendou_backend.Schema.{
  Email, CreditEntry, Job, queued, suppressed, World, record_activity, low_balance_alert,
}
use zendou_backend.Ledger.{balance_of}
use zendou_backend.Ledger.Laws.{balance_of-append_own}
use zendou_backend.Emails.Refusal.{Failure, queue_down, Result, ok, err, Result-cases}
use zendou_backend.Emails.Checks.{
  Env, assert_sufficient_credits, assert_daily_limit_not_reached, is_address_suppressed,
}
use zendou_backend.Emails.Accept.{
  Fresh, as_queued, as_suppressed, SendEmailResponse, email_row, debit, job_of, create_and_debit,
  accept, accept_queued,
}
use zendou_backend.Emails.Accept.Request.{AcceptInput, Checked, check_request}

module _ (env : Env) (fresh : Fresh) (user : ℕ) (input : AcceptInput) (w : World) where
  -- The state after an acceptance of the blocked branch.
  abbrev pub after_suppressed : Checked → World
  after_suppressed c = record w {
    emails = w.emails ++ email_row env fresh user input c suppressed (some env.now) ∷ [];
    tasks = w.tasks ++ record_activity user c.account.last_activity_at ∷ [];
  }

  -- The state after the transaction and before the job.
  abbrev pub charged : Checked → World
  charged c =
      create_and_debit (email_row env fresh user input c queued none) (debit env fresh user) w

  -- The state after an acceptance of the queued branch.
  abbrev pub after_queued : Checked → ℤ → World
  after_queued c balance = record (charged c) {
    jobs = w.jobs ++ job_of fresh input c ∷ [];
    tasks =
        (w.tasks ++ record_activity user c.account.last_activity_at ∷ [])
        ++ low_balance_alert user (balance -ℤ pos 1) c.account.low_balance_alert_sent_at ∷ [];
  }

  -- Every way in which an acceptance ends.
  pub data Outcome : Result SendEmailResponse → World → Type 0 where
    refuses : {f : Failure} → Outcome (err f) w
    blocks :
        {c : Checked}
        → check_request env user input w ≡ ok c
        → is_address_suppressed w user c.to.address ≡ true
        → Outcome
            (ok (record { id = fresh.public_id; status = as_suppressed }))
            (after_suppressed c)
    loses :
        {c : Checked} {balance : ℤ}
        → check_request env user input w ≡ ok c
        → fresh.queue_up ≡ false
        → assert_sufficient_credits user 1 w ≡ ok balance
        → assert_daily_limit_not_reached env user 1 w ≡ ok tt
        → Outcome (err queue_down) (charged c)
    charges :
        {c : Checked} {balance : ℤ}
        → check_request env user input w ≡ ok c
        → is_address_suppressed w user c.to.address ≡ false
        → assert_sufficient_credits user 1 w ≡ ok balance
        → assert_daily_limit_not_reached env user 1 w ≡ ok tt
        → Outcome
            (ok (record { id = fresh.public_id; status = as_queued }))
            (after_queued c balance)

  enqueue_cases :
      (c : Checked) (balance : ℤ)
      → check_request env user input w ≡ ok c
      → is_address_suppressed w user c.to.address ≡ false
      → assert_sufficient_credits user 1 w ≡ ok balance
      → assert_daily_limit_not_reached env user 1 w ≡ ok tt
      → Outcome
          (accept_queued env fresh user input c w).0
          (accept_queued env fresh user input c w).1
  unfolding accept
  enqueue_cases c balance e open_ enough room = elim (Bool-cases fresh.queue_up) [
    | inl up ↦ simp (enough, room, up) (charges e open_ enough room)
    | inr down ↦ simp (enough, room, down) (loses e down enough room)
  ]

  queued_cases :
      (c : Checked)
      → check_request env user input w ≡ ok c
      → is_address_suppressed w user c.to.address ≡ false
      → Outcome
          (accept_queued env fresh user input c w).0
          (accept_queued env fresh user input c w).1
  unfolding accept
  queued_cases c e open_ = elim (Result-cases (assert_sufficient_credits user 1 w)) [
    | inl (balance, enough) ↦ elim (Result-cases (assert_daily_limit_not_reached env user 1 w)) [
      | inl (_, room) ↦ enqueue_cases c balance e open_ enough room
      | inr (f, full) ↦ rw (enough, full) refuses
    ]
    | inr (f, poor) ↦ rw poor refuses
  ]

  pub accept-Outcome : Outcome (accept env fresh user input w).0 (accept env fresh user input w).1
  unfolding accept
  accept-Outcome = elim (Result-cases (check_request env user input w)) [
    | inr (f, e) ↦ rw e refuses
    | inl (c, e) ↦ elim (Bool-cases (is_address_suppressed w user c.to.address)) [
      | inl blocked ↦ rw (e, blocked) (blocks e blocked)
      | inr open_ ↦ rw (e, open_) (queued_cases c e open_)
    ]
  ]

  abbrev own_balance : World → ℤ
  own_balance w' = balance_of w'.credit_entries user

  refused-unchanged :
      {r : Result SendEmailResponse} {w' : World} {f : Failure}
      → Outcome r w'
      → r ≡ err f
      → f ≢ queue_down
      → w' ≡ w
  refused-unchanged refuses e h = refl
  refused-unchanged (blocks _ _) e h = cc
  refused-unchanged (loses _ _ _ _) e h = absurd (h (cc))
  refused-unchanged (charges _ _ _ _) e h = cc

  -- What a free acceptance leaves alone, and the row that it adds.
  pub record IsFree (w' : World) : Type 0 where
    pub entries_same : w'.credit_entries ≡ w.credit_entries
    pub jobs_same : w'.jobs ≡ w.jobs
    pub row :
        (c : Checked) × (w'.emails
          ≡ w.emails ++ email_row env fresh user input c suppressed (some env.now) ∷ [])
        × (is_address_suppressed w user c.to.address ≡ true)

  -- One row, one debit of one credit and one job, under the public identifier that is answered.
  pub record IsCharged (id : ℕ) (w' : World) : Type 0 where
    pub checked : Checked
    pub row : Email
    pub entry : CreditEntry
    pub job : Job
    pub row_added : w'.emails ≡ w.emails ++ row ∷ []
    pub entry_added : w'.credit_entries ≡ w.credit_entries ++ entry ∷ []
    pub job_added : w'.jobs ≡ w.jobs ++ job ∷ []
    pub row_id : row.public_id ≡ id
    pub row_user : row.user_id ≡ user
    pub row_waits : row.status ≡ queued
    pub row_recipient : row.to_address ≡ checked.to.address
    pub row_whole : row ≡ email_row env fresh user input checked queued none
    pub entry_id : entry.reference ≡ some id
    pub entry_user : entry.user_id ≡ user
    pub entry_delta : entry.delta ≡ negsuc 0
    pub job_id : job.job_id ≡ id
    pub job_row : job.email_id ≡ row.id
    pub job_whole : job ≡ job_of fresh input checked
    pub balance : own_balance w' +ℤ pos 1 ≡ own_balance w
    pub not_blocked : is_address_suppressed w user checked.to.address ≡ false

  pub after_debit :
      balance_of (w.credit_entries ++ debit env fresh user ∷ []) user +ℤ pos 1
      ≡ balance_of w.credit_entries user
  after_debit = rw (balance_of-append_own w.credit_entries (debit env fresh user)) (omega int_laws)

  suppressed-IsFree :
      {r : Result SendEmailResponse} {w' : World} {id : ℕ}
      → Outcome r w'
      → r ≡ ok (record { id = id; status = as_suppressed })
      → IsFree w'
  suppressed-IsFree refuses e = cc
  suppressed-IsFree (loses _ _ _ _) e = cc
  suppressed-IsFree (charges _ _ _ _) e = cc
  suppressed-IsFree (blocks {c} _ blocked) e = record {
    entries_same = refl;
    jobs_same = refl;
    row = (c, refl, blocked);
  }

  queued-IsCharged :
      {r : Result SendEmailResponse} {w' : World} {id : ℕ}
      → Outcome r w'
      → r ≡ ok (record { id = id; status = as_queued })
      → IsCharged id w'
  queued-IsCharged refuses e = cc
  queued-IsCharged (loses _ _ _ _) e = cc
  queued-IsCharged (blocks _ _) e = cc
  queued-IsCharged {id} (charges {c} _ open_ _ _) e =
      let answered : fresh.public_id ≡ id = cc in
      record {
        checked = c;
        row = email_row env fresh user input c queued none;
        entry = debit env fresh user;
        job = job_of fresh input c;
        row_added = refl;
        entry_added = refl;
        job_added = refl;
        row_id = answered;
        row_user = refl;
        row_waits = refl;
        row_recipient = refl;
        row_whole = refl;
        entry_id = ap some answered;
        entry_user = refl;
        entry_delta = refl;
        job_id = answered;
        job_row = refl;
        job_whole = refl;
        balance = after_debit;
        not_blocked = open_;
      }

  -- The row and the debit without a job.
  pub record IsStranded (w' : World) : Type 0 where
    pub row :
        (c : Checked) × (w'.emails ≡ w.emails ++ email_row env fresh user input c queued none ∷ [])
    pub entry : w'.credit_entries ≡ w.credit_entries ++ debit env fresh user ∷ []
    pub jobs_same : w'.jobs ≡ w.jobs
    pub balance : own_balance w' +ℤ pos 1 ≡ own_balance w

  stranded :
      {r : Result SendEmailResponse} {w' : World}
      → Outcome r w'
      → r ≡ err queue_down
      → w' ≢ w
      → IsStranded w'
  stranded refuses e h = absurd (h refl)
  stranded (blocks _ _) e h = cc
  stranded (charges _ _ _ _) e h = cc
  stranded (loses {c} _ _ _ _) e h = record {
    row = (c, refl);
    entry = refl;
    jobs_same = refl;
    balance = after_debit;
  }

  -- An acceptance that fails for want of the queue, and has written anything, has added a row that
  -- waits and has debited its credit, but has added no job that would ever send it.
  pub accept-IsStranded :
      (accept env fresh user input w).0 ≡ err queue_down
      → (accept env fresh user input w).1 ≢ w
      → IsStranded (accept env fresh user input w).1
  accept-IsStranded e h = stranded accept-Outcome e h

  -- A refused acceptance has written nothing: no row, no debit, no job, no task. The one exception
  -- is a queue that cannot be reached, an error that comes after the transaction.
  pub accept-unchanged_of_refused :
      (f : Failure)
      → (accept env fresh user input w).0 ≡ err f
      → f ≢ queue_down
      → (accept env fresh user input w).1 ≡ w
  accept-unchanged_of_refused f e h = refused-unchanged accept-Outcome e h

  -- An acceptance that answers "suppressed" has debited nothing and queued nothing: it has added
  -- one row of status SUPPRESSED, for an address that is on the suppression list.
  pub accept-IsFree :
      (id : ℕ)
      → (accept env fresh user input w).0 ≡ ok (record { id = id; status = as_suppressed })
      → IsFree (accept env fresh user input w).1
  accept-IsFree id e = suppressed-IsFree accept-Outcome e

  -- An acceptance that answers "queued" has added exactly one row of status QUEUED for the client
  -- and the recipient, one debit of one credit of the client and one job, which names the row; the
  -- row, the debit and the job bear the public identifier that is answered; the client's balance
  -- has fallen by one, and the recipient is not on the suppression list.
  pub accept-IsCharged :
      (id : ℕ)
      → (accept env fresh user input w).0 ≡ ok (record { id = id; status = as_queued })
      → IsCharged id (accept env fresh user input w).1
  accept-IsCharged id e = queued-IsCharged accept-Outcome e
