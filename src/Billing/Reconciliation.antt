-- ===== src/Billing/Reconciliation.antt =====
-- Money in: what has been credited for a top-up request, against the state of that request.
pub mod Keeps
pub mod Accounts
pub mod Steps
pub mod Race
use zendou_backend.Common.{
  ℕ, ◌≡◌, ◌≢◌, refl, sym, ap, ◌∙◌, inl, inr, Bool, true, false, ◌&&◌, Option, none, some, List, [],
  ◌∷◌, ◌++◌, arith, ◌==◌, ==_refl, ==_iff, Bool-cases, Option-cases, if◌then◌else◌, find,
  find_sound, update_where,
}
use mathlib.Core.Path.{subst}
use native.Mathlib.Decide.{ℕ_discrete}
use zendou_backend.Common.Int.{ℤ, pos, negsuc, ◌+ℤ◌, int_laws}
use zendou_backend.Text.{Text}
use zendou_backend.Schema.{
  CreditEntry, TopUpRequest, TopUpStatus, World, Task, is_topup, is_pending, no_world,
}
use zendou_backend.Ledger.{sum_delta}
use zendou_backend.Ledger.Laws.{sum_delta-append}
use zendou_backend.Emails.Refusal.{Result}
use zendou_backend.Emails.Checks.{Env}
use zendou_backend.Emails.Accept.{Fresh, SendEmailResponse, debit, accept}
use zendou_backend.Emails.Accept.Request.{AcceptInput}
use zendou_backend.Emails.Accept.Charge.{Outcome, refuses, blocks, loses, charges, accept-Outcome}
use zendou_backend.Emails.System.{SystemEmailPayload, AlertText, send_system, run_task}
use zendou_backend.Emails.System.Exemption.{send_system-IsExempt}
use zendou_backend.Emails.System.Alert.{run_task-SameLedger}
use zendou_backend.Billing.{
  Reply, done, denied, CreditPack, find_pack, PaymentConfig, CreateTopUpRequestDto, new_request,
  check_pack, store_request, create_topup_request,
}
use zendou_backend.Billing.Review.{
  find_request, reviewable, approve_row, reject_row, topup_entry, write_approval, decide_approval,
  approve, write_rejection, decide_rejection, reject,
}

abbrev pub refers_to : ℕ → Option ℕ → Bool
refers_to id none = false
refers_to id (some ref) = ref == id

-- An entry that credits this request.
abbrev pub is_payment : ℕ → CreditEntry → Bool
is_payment id e = is_topup e.reason && refers_to id e.reference

-- All that has been credited for a request.
unfoldable pub paid : ℕ → World → ℤ
paid id w = sum_delta (is_payment id) w.credit_entries

abbrev pub is_approved : TopUpStatus → Bool
is_approved TopUpStatus.approved = true
is_approved _ = false

-- All that should have been.
abbrev pub due : Option TopUpRequest → ℤ
due none = pos 0
due (some r) = if is_approved r.status then pos r.credits else pos 0

-- Each request has been credited for exactly what its state says: its credits once if it is
-- approved, nothing if it waits, is rejected or does not exist.
abbrev pub IsReconciled : World → Type 0
IsReconciled w = (id : ℕ) → paid id w ≡ due (find_request w id)

pub paid-append :
    (id : ℕ) (entries : List CreditEntry) (e : CreditEntry)
    → sum_delta (is_payment id) (entries ++ e ∷ []) ≡ (
        if is_payment id e
        then sum_delta (is_payment id) entries +ℤ e.delta
        else sum_delta (is_payment id) entries)
unfolding sum_delta
paid-append id entries e =
    rw (sum_delta-append (is_payment id) entries (e ∷ [])) (elim (Bool-cases (is_payment id e)) [
      | inl mine ↦ rw mine (omega int_laws)
      | inr other ↦ rw other (omega int_laws)
    ])

pub find-append_other :
    (id : ℕ) (rs : List TopUpRequest) (r : TopUpRequest)
    → (r.id == id) ≡ false
    → find (λ s. s.id == id) (rs ++ r ∷ []) ≡ find (λ s. s.id == id) rs
find-append_other id [] r h = rw h
find-append_other id (s ∷ rs) r h = ground (arith, find-append_other id rs r h)

pub find-append_new :
    (id : ℕ) (rs : List TopUpRequest) (r : TopUpRequest)
    → find (λ s. s.id == id) rs ≡ none
    → (r.id == id) ≡ true
    → find (λ s. s.id == id) (rs ++ r ∷ []) ≡ some r
find-append_new id [] r e h = rw h
find-append_new id (s ∷ rs) r e h = ground (arith, find-append_new id rs r)

module _ (f : TopUpRequest → TopUpRequest) (keeps : (r : TopUpRequest) → (f r).id ≡ r.id) where
  pub find-update_other :
      (id k : ℕ) (rs : List TopUpRequest)
      → k ≢ id
      → find (λ s. s.id == id) (update_where (λ s. s.id == k) f rs) ≡ find (λ s. s.id == id) rs
  find-update_other id k [] h = refl
  find-update_other id k (s ∷ rs) h = ground (arith, keeps s, find-update_other id k rs h)

  pub find-update_self :
      (id : ℕ) (rs : List TopUpRequest) (r : TopUpRequest)
      → find (λ s. s.id == id) rs ≡ some r
      → find (λ s. s.id == id) (update_where (λ s. s.id == id) f rs) ≡ some (f r)
  find-update_self id [] r h = cc
  find-update_self id (s ∷ rs) r h = ground (arith, keeps s, find-update_self id rs r)

-- The rows that a review leaves.
pub find_request_of :
    (w : World) (id : ℕ) (r : TopUpRequest)
    → reviewable (find_request w id) ≡ done r
    → (find_request w id ≡ some r) × (is_pending r.status ≡ true)
find_request_of w id r h = elim (Option-cases (find_request w id)) [
  | inl e ↦ absurd (missing e)
  | inr (s, e) ↦ (e ∙ ap some (same s e), waiting s e)
]
  where
    missing : find_request w id ≡ none → ⊥
    missing e = ground arith

    same : (s : TopUpRequest) → find_request w id ≡ some s → s ≡ r
    same s e = ground arith

    waiting : (s : TopUpRequest) → find_request w id ≡ some s → is_pending r.status ≡ true
    waiting s e = ground arith

pub id_of : (w : World) (id : ℕ) (r : TopUpRequest) → find_request w id ≡ some r → r.id ≡ id
id_of w id r e = (==_iff r.id id).0 (find_sound (λ s. s.id == id) w.topup_requests r e)

pub due_of_pending : (r : TopUpRequest) → is_pending r.status ≡ true → due (some r) ≡ pos 0
due_of_pending r h = ground arith

pub found_self :
    (w : World) (id : ℕ) (r : TopUpRequest)
    → find_request w id ≡ some r
    → find_request w r.id ≡ some r
found_self w id r e = subst (λ (j : ℕ). find_request w j ≡ some r) (sym (id_of w id r e)) e
