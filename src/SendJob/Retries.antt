-- ===== src/SendJob/Retries.antt =====
-- The attempts at one job: SEND_JOB_ATTEMPTS of them at most.
--
-- The queue (BullMQ) runs the processor again after an attempt that has thrown, until the attempts
-- are used up, and emits `failed` after each of those with the number of attempts made.
use zendou_backend.Common.{
  ℕ, suc, ◌+◌, ◌≡◌, sym, inl, inr, none, some, List, [], ◌∷◌, arith, length,
}
use mathlib.Core.Path.{subst}
use zendou_backend.Text.{Text}
use zendou_backend.Schema.{Email, Job, World}
use zendou_backend.SendJob.{SendRequest, Attempt, find_email, mark_failed, process, on_failed}
use zendou_backend.SendJob.Replay.{IsSettled, process-Ends, failed-IsSettled}

abbrev pub send_job_attempts : ℕ
send_job_attempts = 5

-- One driver for each attempt that is left; `made` attempts have failed before.
pub attempts : ℕ → Job → ℕ → ℕ → List (SendRequest → Attempt) → World → World
attempts now job max made [] w = w
attempts now job max made (driver ∷ rest) w =
    let run = process now driver job w in
    elim run.thrown [
      | none ↦ run.world
      | some error ↦
          attempts now job max (suc made) rest (on_failed now job (suc made) max error run.world)
    ]

on_failed-last :
    (now : ℕ) (job : Job) (max : ℕ) (error : Text) (w : World)
    → on_failed now job max max error w ≡ mark_failed now job.email_id error w
unfolding on_failed
on_failed-last now job max error w = ground arith

module _ (now : ℕ) (job : Job) (max : ℕ) where
  last_failure :
      (error : Text) (w : World) (e : Email)
      → find_email w job.email_id ≡ some e
      → (made : ℕ) → made ≡ max
      → IsSettled job (on_failed now job made max error w)
  last_failure error w e found made last =
      subst (λ (m : ℕ). IsSettled job (on_failed now job m max error w)) (sym last)
        (rw (on_failed-last now job max error w) (failed-IsSettled now error job w e found))

  -- While attempts are left anything goes; with none left the job is settled.
  attempts-IsSettled :
      (drivers : List (SendRequest → Attempt)) (made : ℕ) (w : World)
      → made + length drivers ≡ max
      → (made ≡ max → IsSettled job w)
      → IsSettled job (attempts now job max made drivers w)
  unfolding attempts
  attempts-IsSettled [] made w enough done = done (omega arith)
  attempts-IsSettled (driver ∷ rest) made w enough done =
      elim (process-Ends now driver job w).ended [
        | inl (quiet, settled) ↦ rw (quiet, attempts) settled
        | inr (error, thrown, same, e, found) ↦
            rw (thrown, attempts)
              (attempts-IsSettled rest (suc made) _ (omega arith)
                (λ last. rw same (last_failure error w e found (suc made) last)))
      ]

-- Whatever the driver answers to each of the five attempts, the job is settled when they are over:
-- its email no longer waits.
pub attempts_settle :
    (now : ℕ) (job : Job) (drivers : List (SendRequest → Attempt)) (w : World)
    → length drivers ≡ send_job_attempts
    → IsSettled job (attempts now job send_job_attempts 0 drivers w)
attempts_settle now job drivers w five =
    attempts-IsSettled now job send_job_attempts drivers 0 w (omega arith)
      (λ none_made. absurd (omega arith))
