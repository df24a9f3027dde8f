-- ===== src/Emails/Precheck/Agreement.antt =====
-- The early check at `MAIL FROM` against the acceptance of the message.
use zendou_backend.Common.{ℕ, ◌≡◌, inl, inr, false, Option, some, Bool-cases}
use zendou_backend.Text.{Text}
use zendou_backend.Schema.{World}
use zendou_backend.EmailAddress.{ParsedAddress, parse_email_address}
use zendou_backend.Emails.Refusal.{Result, ok, invalid_from, invalid_to, domain_not_verified}
use zendou_backend.Emails.Pure.{>>=-eq-ok}
use zendou_backend.Emails.Checks.{
  Env, AccountState, assert_account_may_send, CredentialRef, smtp_credential, require_credential,
  is_test_sender_address, require_verified_test_sender_domain, require_verified_domain,
  assert_domain_in_credential_scope,
}
use zendou_backend.Emails.Accept.{
  Fresh, SendEmailResponse, as_queued, AcceptSmtpInput, smtp_input, accept_smtp,
}
use zendou_backend.Emails.Accept.Request.{
  Checked, check_address, check_body, check_sender, check_request,
}
use zendou_backend.Emails.Accept.Authority.{check_address-eq}
use zendou_backend.Emails.Accept.Charge.{Outcome, refuses, blocks, loses, charges, accept-Outcome}
use zendou_backend.Emails.Precheck.{check_envelope, precheck_smtp_envelope}

-- The sender check of the acceptance includes that of the envelope.
check_sender-envelope :
    (env : Env) (user : ℕ) (r : CredentialRef) (p : ParsedAddress) (to_address : Text) (w : World)
    (d : Option ℕ)
    → check_sender env user r p to_address w ≡ ok d
    → check_envelope env user r (some p) w ≡ ok tt
unfolding check_sender check_envelope
check_sender-envelope env user r p to_address w d h =
    elim (Bool-cases (is_test_sender_address env p.address)) [
      | inl test ↦
          let (u, fine, _) =
            >>=-eq-ok (require_verified_test_sender_domain p.domain w) _ (rw test at h) in
          rw test fine
      | inr other ↦
          let (id, owned, rest) =
            >>=-eq-ok (require_verified_domain domain_not_verified user p.domain w) _
              (rw other at h) in
          let (u, scoped, _) = >>=-eq-ok (assert_domain_in_credential_scope r id w) _ rest in
          rw (other, owned) scoped
    ]

module _ (env : Env) (user : ℕ) (input : AcceptSmtpInput) (w : World) where
  -- The steps of the early check that the request's own checks have passed.
  request-envelope :
      (c : Checked)
      → check_request env user (smtp_input input) w ≡ ok c
      → (a : AccountState) × (assert_account_may_send user w ≡ ok a)
        × (check_envelope env user
              (smtp_credential input.smtp_credential_id)
              (parse_email_address input.from)
              w
            ≡ ok tt)
  unfolding check_request require_credential
  request-envelope c h =
      let (a, account, h₁) = >>=-eq-ok (assert_account_may_send user w) _ h in
      let (from, from_ok, h₂) =
        >>=-eq-ok (check_address invalid_from false (parse_email_address input.from)) _ h₁ in
      let (to, _, h₃) =
        >>=-eq-ok (check_address invalid_to false (parse_email_address input.to)) _ h₂ in
      let (_, _, h₄) = >>=-eq-ok (check_body (smtp_input input).content) _ h₃ in
      let (d, sender, _) = >>=-eq-ok _ _ h₄ in
      let parsed : parse_email_address input.from ≡ some from =
        check_address-eq invalid_from false _ from from_ok in
      (a, account, rw parsed (check_sender-envelope env user _ from to.address w d sender))

  Outcome-precheck :
      {fresh : Fresh} {r : Result SendEmailResponse} {w' : World} (id : ℕ)
      → Outcome env fresh user (smtp_input input) w r w'
      → r ≡ ok (record { id = id; status = as_queued })
      → precheck_smtp_envelope env user input.from input.smtp_credential_id w ≡ ok tt
  unfolding precheck_smtp_envelope require_credential
  Outcome-precheck id refuses e = cc
  Outcome-precheck id (loses _ _ _ _) e = cc
  Outcome-precheck id (blocks _ _) e = cc
  Outcome-precheck id (charges {c} {balance} fine _ enough room) e =
      let (a, account, envelope) = request-envelope c fine in simp (account, envelope, enough, room)

  -- The early check at `MAIL FROM` can only refuse what would be refused anyway: a message that the
  -- acceptance would queue passes it, under the same sender, credential and state.
  pub precheck_smtp_envelope-agrees :
      (fresh : Fresh) (id : ℕ)
      → (accept_smtp env fresh user input w).0 ≡ ok (record { id = id; status = as_queued })
      → precheck_smtp_envelope env user input.from input.smtp_credential_id w ≡ ok tt
  unfolding accept_smtp
  precheck_smtp_envelope-agrees fresh id e =
      Outcome-precheck id (accept-Outcome env fresh user (smtp_input input) w) e
