-- ===== src/Tests/Accepting.antt =====
-- Acceptances on the small installation.
use zendou_backend.Common.{◌==◌, ◌≡◌, ◌≢◌, refl, ap, inl, inr, false, none, arith, Bool-cases}
use zendou_backend.Schema.{World}
use zendou_backend.EmailAddress.{
  is_atom, is_atom_mark, matches_local_part, matches_domain_name, normalize_email_address,
  match_named_address, before_closing, parse_email_address, has_oversized_display_name,
}
use zendou_backend.Text.{
  trim, trim_start, trim_end, is_space, to_lower_case, split, split_last, text_eq,
}
use zendou_backend.Emails.Refusal.{queue_down, missing_body, refused, ok, err}
use zendou_backend.Emails.Checks.{
  check_account, assert_account_may_send, require_verified_domain, require_credential, has_domain,
  scope_allows, assert_domain_in_credential_scope, check_reply_to, require_verified_reply_to,
  is_test_sender_address, assert_sufficient_credits, sent_today, assert_daily_limit_not_reached,
  is_address_suppressed,
}
use zendou_backend.Emails.Accept.{accept, accept_smtp, as_queued, as_suppressed}
use zendou_backend.Emails.Accept.Request.{
  byte_length, blank_to_undefined, exceeds_max_body, check_address, check_body, check_sender,
  check_request,
}
use zendou_backend.Emails.Accept.Charge.{
  IsCharged, IsStranded, accept-IsStranded, accept-IsCharged, accept-unchanged_of_refused,
}
use zendou_backend.Emails.Accept.Guarantees.{
  IsAccepted, IsSolvent, WithinLimit, accept-IsAccepted, accept-IsSolvent, accept-WithinLimit,
}
use zendou_backend.Emails.Precheck.{precheck_smtp_envelope}
use zendou_backend.Emails.Precheck.Agreement.{precheck_smtp_envelope-agrees}
use zendou_backend.Tests.{ann, env, fresh, office, letter, to_blocked, blank_letter, relayed}
use zendou_backend.Ledger.{balance_of, sum_delta}
use zendou_backend.Common.Int.{◌+ℤ◌}

-- Bob's message is queued, the message to a blocked address is recorded as suppressed, and one
-- without a body is refused.
answers :
    ((accept env fresh 1 letter office).0 ≡ ok (record { id = 700; status = as_queued }))
    × ((accept env fresh 1 to_blocked office).0 ≡ ok (record { id = 700; status = as_suppressed }))
    × ((accept env fresh 1 blank_letter office).0 ≡ err (refused missing_body none))
    × ((accept_smtp env fresh 1 relayed office).0 ≡ ok (record { id = 700; status = as_queued }))
unfolding accept accept_smtp check_request require_credential assert_account_may_send
    parse_email_address check_address normalize_email_address trim match_named_address split_last
    matches_local_part split to_lower_case matches_domain_name has_oversized_display_name check_body
    blank_to_undefined exceeds_max_body check_sender is_test_sender_address require_verified_domain
    text_eq assert_domain_in_credential_scope scope_allows before_closing is_atom is_atom_mark
    byte_length assert_daily_limit_not_reached assert_sufficient_credits check_account
    check_reply_to has_domain is_address_suppressed require_verified_reply_to sent_today is_space
    trim_end trim_start balance_of sum_delta ◌+ℤ◌
answers = (refl, refl, refl, refl)

-- With Redis out of reach.
cut_off :
    ((accept env (record fresh { queue_up = false }) 1 letter office).0 ≡ err queue_down)
    × ((accept env (record fresh { queue_up = false }) 1 letter office).1 ≢ office)
unfolding accept accept_smtp check_request require_credential assert_account_may_send
    parse_email_address check_address normalize_email_address trim match_named_address split_last
    matches_local_part split to_lower_case matches_domain_name has_oversized_display_name check_body
    blank_to_undefined exceeds_max_body check_sender is_test_sender_address require_verified_domain
    text_eq assert_domain_in_credential_scope scope_allows before_closing is_atom is_atom_mark
    byte_length assert_daily_limit_not_reached assert_sufficient_credits check_account
    check_reply_to has_domain is_address_suppressed require_verified_reply_to sent_today is_space
    trim_end trim_start balance_of sum_delta ◌+ℤ◌
cut_off = (refl, λ e. cc (ap (λ (w : World). w.emails) e))

accept-IsStranded_example :
    IsStranded env
      (record fresh { queue_up = false })
      1
      letter
      office
      (accept env (record fresh { queue_up = false }) 1 letter office).1
accept-IsStranded_example =
    accept-IsStranded env (record fresh { queue_up = false }) 1 letter office cut_off.0 cut_off.1

accept-IsCharged_example :
    IsCharged env fresh 1 letter office 700 (accept env fresh 1 letter office).1
accept-IsCharged_example = accept-IsCharged env fresh 1 letter office 700 answers.0

accept-unchanged_of_refused_example : (accept env fresh 1 blank_letter office).1 ≡ office
accept-unchanged_of_refused_example =
    accept-unchanged_of_refused env fresh 1 blank_letter office (refused missing_body none)
      answers.2 (λ e. cc)

accept-IsAccepted_example :
    IsAccepted env fresh 1 letter office (accept env fresh 1 letter office).1
accept-IsAccepted_example =
    accept-IsAccepted env fresh 1 letter office (record { id = 700; status = as_queued }) answers.0

office-IsSolvent : IsSolvent office
unfolding balance_of sum_delta ◌+ℤ◌
office-IsSolvent user = elim (Bool-cases (1 == user)) [
  | inl mine ↦ rw mine (omega arith)
  | inr other ↦ rw other (omega arith)
]

accept-IsSolvent_example : IsSolvent (accept env fresh 1 letter office).1
accept-IsSolvent_example = accept-IsSolvent env fresh 1 letter office office-IsSolvent

accept-WithinLimit_example :
    WithinLimit env fresh 1 letter office (accept env fresh 1 letter office).1 ann
accept-WithinLimit_example = accept-WithinLimit env fresh 1 letter office 700 ann answers.0 refl

precheck_smtp_envelope-agrees_example :
    precheck_smtp_envelope env 1 relayed.from relayed.smtp_credential_id office ≡ ok tt
precheck_smtp_envelope-agrees_example =
    precheck_smtp_envelope-agrees env 1 relayed office fresh 700 answers.3
