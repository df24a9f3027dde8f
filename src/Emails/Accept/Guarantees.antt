-- ===== src/Emails/Accept/Guarantees.antt =====
-- What holds after an acceptance: authority, solvency, and the quota of the day.
use zendou_backend.Common.{
  ℕ, ◌+◌, ◌≤◌, ◌≡◌, refl, true, false, none, some, [], ◌∷◌, ◌++◌, arith, count-append,
}
use mathlib.Core.Path.{subst}
use native.Mathlib.Decide.{ℕ_discrete}
use zendou_backend.Common.Int.{ℤ, pos, ◌≤ℤ◌, int_laws}
use zendou_backend.Schema.{Email, queued, suppressed, User, World, find_user}
use zendou_backend.Ledger.{balance_of}
use zendou_backend.Ledger.Laws.{balance_of-append_own, balance_of-append_other}
use zendou_backend.Emails.Day.{start_of_utc_day}
use zendou_backend.Emails.Refusal.{Result, ok}
use zendou_backend.Emails.Checks.{
  Env, assert_sufficient_credits, assert_daily_limit_not_reached, sent_today, counts_today,
}
use zendou_backend.Emails.Accept.{Fresh, SendEmailResponse, as_queued, email_row, debit, accept}
use zendou_backend.Emails.Accept.Request.{AcceptInput, Checked}
use zendou_backend.Emails.Accept.Authority.{IsAuthorised, check_request-IsAuthorised}
use zendou_backend.Emails.Accept.Charge.{
  Outcome, refuses, blocks, loses, charges, accept-Outcome, after_queued,
}

-- Every balance that is not negative stays so.
abbrev pub IsSolvent : World → Type 0
IsSolvent w = (user : ℕ) → pos 0 ≤ℤ balance_of w.credit_entries user

enough-balance :
    (user : ℕ) (w : World) (balance : ℤ)
    → assert_sufficient_credits user 1 w ≡ ok balance
    → pos 1 ≤ℤ balance_of w.credit_entries user
unfolding assert_sufficient_credits
enough-balance user w balance h = ground arith

room_left :
    (env : Env) (user : ℕ) (u : User) (w : World)
    → find_user w user ≡ some u
    → assert_daily_limit_not_reached env user 1 w ≡ ok tt
    → sent_today env user w + 1 ≤ u.daily_send_limit
unfolding assert_daily_limit_not_reached
room_left env user u w found h = ground arith

module _ (env : Env) (fresh : Fresh) (user : ℕ) (input : AcceptInput) (w : World) where
  -- An accepted request and the row that it left.
  pub record IsAccepted (w' : World) : Type 0 where
    pub checked : Checked
    pub authorised : IsAuthorised env user input w checked
    pub row : Email
    pub added : w'.emails ≡ w.emails ++ row ∷ []
    pub of_user : row.user_id ≡ user
    pub of_domain : row.domain_id ≡ checked.domain_id
    pub recipient : row.to_address ≡ checked.to.address
    pub client : row.system ≡ false

  Outcome-IsAccepted :
      {r : Result SendEmailResponse} {w' : World} (response : SendEmailResponse)
      → Outcome env fresh user input w r w'
      → r ≡ ok response
      → IsAccepted w'
  Outcome-IsAccepted response refuses e = cc
  Outcome-IsAccepted response (loses _ _ _ _) e = cc
  Outcome-IsAccepted response (blocks {c} fine _) e = record {
    checked = c;
    authorised = check_request-IsAuthorised env user input w c fine;
    row = email_row env fresh user input c suppressed (some env.now);
    added = refl;
    of_user = refl;
    of_domain = refl;
    recipient = refl;
    client = refl;
  }
  Outcome-IsAccepted response (charges {c} fine _ _ _) e = record {
    checked = c;
    authorised = check_request-IsAuthorised env user input w c fine;
    row = email_row env fresh user input c queued none;
    added = refl;
    of_user = refl;
    of_domain = refl;
    recipient = refl;
    client = refl;
  }

  -- Whatever the channel, an accepted email comes from an account that, if its row is there, is not
  -- suspended and has confirmed its address; its sender is either the test address writing to the account itself, or
  -- of a verified domain of the account within the scope of the credential presented; each reply-to
  -- address is of a verified domain of the account; and one row of this client records it.
  pub accept-IsAccepted :
      (response : SendEmailResponse)
      → (accept env fresh user input w).0 ≡ ok response
      → IsAccepted (accept env fresh user input w).1
  accept-IsAccepted response e =
      Outcome-IsAccepted response (accept-Outcome env fresh user input w) e

  own_after :
      pos 1 ≤ℤ balance_of w.credit_entries user
      → pos 0 ≤ℤ balance_of (w.credit_entries ++ debit env fresh user ∷ []) user
  own_after enough =
      rw (balance_of-append_own w.credit_entries (debit env fresh user)) (omega int_laws)

  balance_after :
      (other : ℕ)
      → pos 1 ≤ℤ balance_of w.credit_entries user
      → IsSolvent w
      → pos 0 ≤ℤ balance_of (w.credit_entries ++ debit env fresh user ∷ []) other
  balance_after other enough solvent = elim (ℕ_discrete user other) [
    | yes same ↦
        subst (λ (u : ℕ). pos 0 ≤ℤ balance_of (w.credit_entries ++ debit env fresh user ∷ []) u)
          same (own_after enough)
    | no differ ↦
        rw (balance_of-append_other w.credit_entries (debit env fresh user) other differ)
          (solvent other)
  ]

  Outcome-IsSolvent :
      {r : Result SendEmailResponse} {w' : World}
      → Outcome env fresh user input w r w'
      → IsSolvent w
      → IsSolvent w'
  Outcome-IsSolvent refuses solvent other = solvent other
  Outcome-IsSolvent (blocks _ _) solvent other = solvent other
  Outcome-IsSolvent (loses {balance} _ _ enough _) solvent other =
      balance_after other (enough-balance user w balance enough) solvent
  Outcome-IsSolvent (charges {balance} _ _ enough _) solvent other =
      balance_after other (enough-balance user w balance enough) solvent

  -- Whatever it answers, an acceptance never takes a balance below zero: if no client owes credits
  -- before it, none does after it.
  pub accept-IsSolvent : IsSolvent w → IsSolvent (accept env fresh user input w).1
  accept-IsSolvent = Outcome-IsSolvent (accept-Outcome env fresh user input w)

  abbrev pub WithinLimit : World → User → Type 0
  WithinLimit w' u = sent_today env user w' ≤ u.daily_send_limit

  queued_counts :
      (c : Checked) → counts_today env user (email_row env fresh user input c queued none) ≡ true
  unfolding start_of_utc_day
  queued_counts c = ground arith

  sent_today-queued :
      (c : Checked) (w' : World)
      → w'.emails ≡ w.emails ++ email_row env fresh user input c queued none ∷ []
      → sent_today env user w' ≡ sent_today env user w + 1
  unfolding sent_today
  sent_today-queued c w' e =
      rw (e, count-append (counts_today env user) w.emails _) (rw (queued_counts c) (omega arith))

  Outcome-WithinLimit :
      {r : Result SendEmailResponse} {w' : World} (id : ℕ) (u : User)
      → Outcome env fresh user input w r w'
      → r ≡ ok (record { id = id; status = as_queued })
      → find_user w user ≡ some u
      → WithinLimit w' u
  Outcome-WithinLimit id u refuses e found = cc
  Outcome-WithinLimit id u (loses _ _ _ _) e found = cc
  Outcome-WithinLimit id u (blocks _ _) e found = cc
  Outcome-WithinLimit id u (charges {c} {balance} _ _ _ room) e found = omega (
    arith,
    room_left env user u w found room,
    sent_today-queued c (after_queued env fresh user input w c balance) refl,
  )

  -- After an acceptance that answers "queued", the client's own emails of the day, the new one
  -- included, number at most the daily limit of the account.
  pub accept-WithinLimit :
      (id : ℕ) (u : User)
      → (accept env fresh user input w).0 ≡ ok (record { id = id; status = as_queued })
      → find_user w user ≡ some u
      → WithinLimit (accept env fresh user input w).1 u
  accept-WithinLimit id u e found =
      Outcome-WithinLimit id u (accept-Outcome env fresh user input w) e found
