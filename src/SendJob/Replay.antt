-- ===== src/SendJob/Replay.antt =====
-- What a run of a job hands to SES, and what a second run does.
use zendou_backend.Common.{
  ℕ, ◌≡◌, refl, sym, ap, ◌⊎◌, inl, inr, true, false, none, some, Bool-cases, Option-cases, ◌==◌,
  ==_iff, find_sound, find-update_where,
}
use mathlib.Core.Path.{subst}
use zendou_backend.Text.{Text}
use zendou_backend.Schema.{Email, Job, World, is_queued}
use zendou_backend.Emails.Checks.{is_address_suppressed}
use zendou_backend.SendJob.{
  SendRequest, Attempt, delivered_as, permanent, temporary, Run, find_email, update_email,
  suppress_row, sent_row, failed_row, request_of, idle, settle_attempt, process_row, process,
}

email_id_of : (w : World) (id : ℕ) (e : Email) → find_email w id ≡ some e → e.id ≡ id
email_id_of w id e found = (==_iff e.id id).0 (find_sound (λ x. x.id == id) w.emails e found)

-- The row after an update of it.
pub find_email-update :
    (w : World) (id : ℕ) (e : Email) (f : Email → Email)
    → ((x : Email) → (f x).id ≡ x.id)
    → find_email w id ≡ some e
    → find_email (update_email e.id f w) id ≡ some (f e)
find_email-update w id e f keeps found =
    subst (λ (j : ℕ). find_email (update_email j f w) id ≡ some (f e))
      (sym (email_id_of w id e found))
      (find-update_where (λ x. x.id == id) f w.emails e (λ x. ap (λ (j : ℕ). j == id) (keeps x))
        found)

-- The job has nothing left to do: its row is gone, or no longer waits.
pub record IsSettled (job : Job) (w : World) : Type 0 where
  pub settled :
      (find_email w job.email_id ≡ none)
      ⊎ ((e : Email) × (find_email w job.email_id ≡ some e) × (is_queued e.status ≡ false))

pub idle_of_settled :
    (now : ℕ) (driver : SendRequest → Attempt) (job : Job) (w : World)
    → IsSettled job w
    → process now driver job w ≡ idle w
unfolding process
idle_of_settled now driver job w s = elim s.settled [
  | inl gone ↦ rw (gone, process)
  | inr (e, found, over) ↦ rw (found, process) (rw over)
]

IsSettled-row :
    (job : Job) (w : World) (e : Email) (f : Email → Email)
    → ((x : Email) → (f x).id ≡ x.id)
    → is_queued (f e).status ≡ false
    → find_email w job.email_id ≡ some e
    → IsSettled job (update_email e.id f w)
IsSettled-row job w e f keeps over found = record {
  settled = inr (f e, find_email-update w job.email_id e f keeps found, over);
}

pub failed-IsSettled :
    (now : ℕ) (error : Text) (job : Job) (w : World) (e : Email)
    → find_email w job.email_id ≡ some e
    → IsSettled job (update_email job.email_id (failed_row now error) w)
failed-IsSettled now error job w e found =
    subst (λ (j : ℕ). IsSettled job (update_email j (failed_row now error) w))
      (email_id_of w job.email_id e found)
      (IsSettled-row job w e (failed_row now error) (λ x. refl) refl found)

module _ (now : ℕ) (driver : SendRequest → Attempt) (job : Job) (w : World) where
  -- The end of an attempt: settled, or thrown with the state as it was.
  pub record Ends (run : Run) : Type 0 where
    pub ended :
        ((run.thrown ≡ none) × IsSettled job run.world)
        ⊎ ((error : Text) × (run.thrown ≡ some error)
            × (run.world ≡ w)
            × (e : Email) × (find_email w job.email_id ≡ some e))

  settle_attempt-Ends :
      (e : Email) (request : SendRequest) (a : Attempt)
      → find_email w job.email_id ≡ some e
      → Ends (settle_attempt now e request w a)
  unfolding settle_attempt
  settle_attempt-Ends e request (delivered_as m) found = record {
    ended = inl (refl, IsSettled-row job w e (sent_row now m) (λ x. refl) refl found);
  }
  settle_attempt-Ends e request (permanent error) found = record {
    ended = inl (refl, IsSettled-row job w e (failed_row now error) (λ x. refl) refl found);
  }
  settle_attempt-Ends e request (temporary error) found = record {
    ended = inr (error, refl, refl, e, found);
  }

  queued-Ends :
      (e : Email)
      → find_email w job.email_id ≡ some e
      → is_queued e.status ≡ true
      → Ends (process_row now driver job w e)
  unfolding process_row
  queued-Ends e found waits = elim (Bool-cases (is_address_suppressed w e.user_id e.to_address)) [
    | inl blocked ↦
        rw (waits, process_row)
          (rw blocked (record {
            ended = inl (refl, IsSettled-row job w e (suppress_row now) (λ x. refl) refl found);
          }))
    | inr open_ ↦
        rw (waits, process_row)
          (rw open_ (settle_attempt-Ends e (request_of e job) (driver (request_of e job)) found))
  ]

  row-Ends :
      (e : Email) → find_email w job.email_id ≡ some e → Ends (process_row now driver job w e)
  unfolding process_row
  row-Ends e found = elim (Bool-cases (is_queued e.status)) [
    | inl waits ↦ queued-Ends e found waits
    | inr over ↦
        rw (over, process_row)
          (record { ended = inl (refl, record { settled = inr (e, found, over) }) })
  ]

  pub process-Ends : Ends (process now driver job w)
  unfolding process
  process-Ends = elim (Option-cases (find_email w job.email_id)) [
    | inl gone ↦ rw (gone, process) (record { ended = inl (refl, record { settled = inl gone }) })
    | inr (e, found) ↦ rw (found, process) (row-Ends e found)
  ]

  -- After a run that has not thrown, a second run of the job, at any time and whatever the driver
  -- would answer, hands nothing to SES and writes nothing.
  pub process_replay :
      (now' : ℕ) (driver' : SendRequest → Attempt)
      → (process now driver job w).thrown ≡ none
      → process now' driver' job (process now driver job w).world
        ≡ idle (process now driver job w).world
  process_replay now' driver' quiet = elim process-Ends.ended [
    | inl (_, settled) ↦ idle_of_settled now' driver' job _ settled
    | inr (error, thrown, _, _, _) ↦ cc
  ]
