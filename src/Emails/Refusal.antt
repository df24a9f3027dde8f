-- ===== src/Emails/Refusal.antt =====
-- How an operation of src/emails fails: `SEND_REFUSAL` (emails.constants.ts).
use zendou_backend.Common.{ℕ, ◌≡◌, refl, ◌⊎◌, inl, inr, Option, none, some}

pub data Refusal : Type 0 where
  account_suspended email_not_verified invalid_from invalid_to invalid_reply_to : Refusal
  reply_to_not_verified missing_body body_too_large domain_not_verified : Refusal
  credential_domain_out_of_scope test_sender_unavailable test_sender_recipient_restricted : Refusal
  insufficient_credits daily_limit_reached : Refusal

-- What is thrown: a refusal with its `retryAfter`, or an error of another kind. `queue_down` is
-- the error of a queue (Redis) that cannot be reached.
pub data Failure : Type 0 where
  refused : Refusal → Option ℕ → Failure
  invalid_headers no_credential queue_down sender_unavailable invalid_recipient : Failure

-- `sendRefusalReason`
unfoldable pub send_refusal_reason : Failure → Option Refusal
send_refusal_reason (refused r _) = some r
send_refusal_reason _ = none

pub data Result {ℓ} (A : Type ℓ) : Type ℓ where
  ok : A → Result A
  err : Failure → Result A

module _ {ℓ} {A : Type ℓ} where
  abbrev pub refuse : Refusal → Result A
  refuse r = err (refused r none)

  pub Result-cases : (r : Result A) → ((a : A) × (r ≡ ok a)) ⊎ ((f : Failure) × (r ≡ err f))
  Result-cases (ok a) = inl (a, refl)
  Result-cases (err f) = inr (f, refl)
