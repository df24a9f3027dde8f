-- ===== src/Tests/Money.antt =====
-- Credits, top-ups, system emails and alerts on the small installation.
use zendou_backend.Common.{
  ◌++◌, ◌==◌, ◌≡◌, ◌≢◌, refl, inl, inr, none, some, [], ◌∷◌, arith, Bool-cases,
}
use zendou_backend.Common.Int.{pos, negsuc, ◌+ℤ◌}
use zendou_backend.Text.{
  text, text_eq, trim, trim_start, trim_end, is_space, to_lower_case, split, split_last,
}
use zendou_backend.Schema.{TopUpStatus, World, orange_money, send}
use zendou_backend.EmailAddress.{
  is_atom, is_atom_mark, matches_local_part, matches_domain_name, normalize_email_address,
  match_named_address, before_closing, parse_email_address,
}
use zendou_backend.Emails.Accept.{debit}
use zendou_backend.Ledger.{balance_of, sum_delta}
use zendou_backend.Emails.Refusal.{ok}
use zendou_backend.Emails.Checks.{is_address_suppressed}
use zendou_backend.Emails.System.{
  SystemEmailPayload, queued_as, check_system, send_system, AlertText, last_credit,
  is_above_threshold, alert_due, send_low_balance_alert,
}
use zendou_backend.Emails.System.Exemption.{IsGuarded, send_system-IsGuarded}
use zendou_backend.Emails.System.Alert.{send_low_balance_alert_once}
use zendou_backend.Billing.{
  denied, topup_request_already_reviewed, PaymentConfig, CreateTopUpRequestDto,
}
use zendou_backend.Billing.Review.{approve, find_request, reject}
use zendou_backend.Billing.Review.Effects.{approve-credits, approve_once}
use zendou_backend.Billing.Reconciliation.{paid, IsReconciled}
use zendou_backend.Billing.Reconciliation.Steps.{here, next, approves, rejects, Reach-IsReconciled}
use zendou_backend.Billing.Reconciliation.Race.{approve_twice, approve_twice-paid}
use zendou_backend.Tests.{env, fresh, office, bonus, waiting}

office-IsReconciled : IsReconciled office
unfolding paid sum_delta ◌+ℤ◌
office-IsReconciled id = elim (Bool-cases (30 == id)) [
  | inl waits ↦ rw waits refl
  | inr other ↦ rw other refl
]

-- Approved once, then approved and rejected in vain.
abbrev reviewed : World
reviewed = (approve 3000 83 30 2 office).1

abbrev reviewed_again : World
reviewed_again = (reject 5000 85 30 2 (text "late") (approve 4000 84 30 2 reviewed).1).1

Reach-IsReconciled_example : IsReconciled reviewed_again
Reach-IsReconciled_example =
    Reach-IsReconciled office reviewed_again
      (next (next (next here (approves 3000 83 30 2 office)) (approves 4000 84 30 2 reviewed))
        (rejects 5000 85 30 2 (text "late") (approve 4000 84 30 2 reviewed).1))
      office-IsReconciled

approve_twice-paid_example :
    paid 30 (approve_twice 3000 83 2 84 2 waiting office) ≡ pos 15000 +ℤ pos 15000
approve_twice-paid_example =
    approve_twice-paid 3000 30 83 2 84 2 waiting office office-IsReconciled refl

abbrev payment : PaymentConfig
payment = record { orange_number = some (text "611000000"); mtn_number = none }

abbrev order : CreateTopUpRequestDto
order = record {
  pack_id = text "growth";
  method = orange_money;
  phone_number = text "620 00 00 00";
  transaction_ref = text "OM2";
}

abbrev notice : SystemEmailPayload
notice = record {
  user_id = 1;
  to = text "ann@shop.gn";
  subject = text "Hello";
  html = none;
  body = some (text "ok");
}

noticed : (send_system env fresh notice office).0 ≡ ok (queued_as 700)
unfolding send_system check_system parse_email_address normalize_email_address trim trim_start
    trim_end is_space match_named_address before_closing split_last matches_local_part split
    to_lower_case matches_domain_name is_atom is_atom_mark text_eq is_address_suppressed
noticed = refl

send_system-IsGuarded_example :
    IsGuarded env fresh notice office (send_system env fresh notice office).1
send_system-IsGuarded_example = send_system-IsGuarded env fresh notice office 700 noticed

-- Ann has spent sixty of her hundred credits.
abbrev thin : World
thin = record office {
  credit_entries =
      bonus
      ∷ record {
        user_id = 1;
        delta = negsuc 59;
        reason = send;
        reference = none;
        created_at = 2000;
      }
      ∷ [];
}

abbrev warning : AlertText
warning = record { subject = text "Low"; html = text "low"; body = text "low" }

warned :
    (alert_due 1 (pos 40) none thin ≡ some 1000)
    × ((send_low_balance_alert env fresh 1 (pos 40) none warning thin).jobs ≢ [])
unfolding alert_due last_credit is_above_threshold balance_of sum_delta ◌+ℤ◌ send_low_balance_alert
    send_system check_system parse_email_address normalize_email_address trim trim_start trim_end
    is_space match_named_address before_closing split_last matches_local_part split to_lower_case
    matches_domain_name is_atom is_atom_mark text_eq is_address_suppressed
warned = (refl, λ e. cc)

-- The same after one send more.
abbrev thinner : World
thinner =
    let w = send_low_balance_alert env fresh 1 (pos 40) none warning thin in
    record w { credit_entries = w.credit_entries ++ debit env fresh 1 ∷ [] }

send_low_balance_alert_once_example :
    send_low_balance_alert env fresh 1 (pos 39) none warning thinner ≡ thinner
send_low_balance_alert_once_example =
    send_low_balance_alert_once env fresh 1 none warning (pos 40) (pos 39) thin 1000 warned.0
      (omega arith) warned.1 thinner (debit env fresh 1 ∷ []) env fresh none warning refl refl
      (refl, tt)

approve-credits_example :
    (balance_of (approve 3000 83 30 2 office).1.credit_entries 1
      ≡ balance_of office.credit_entries 1 +ℤ pos 15000)
    × (find_request (approve 3000 83 30 2 office).1 30
        ≡ some (record waiting {
          status = TopUpStatus.approved;
          reviewed_at = some 3000;
          reviewed_by = some 2;
        }))
approve-credits_example = approve-credits 3000 83 30 2 office waiting refl

approve_once_example :
    (approve 4000 84 30 2 (approve 3000 83 30 2 office).1
      ≡ (denied topup_request_already_reviewed, (approve 3000 83 30 2 office).1))
    × (reject 4000 84 30 2 (text "late") (approve 3000 83 30 2 office).1
        ≡ (denied topup_request_already_reviewed, (approve 3000 83 30 2 office).1))
approve_once_example = approve_once 3000 83 30 2 office waiting refl 4000 84 2 (text "late")
