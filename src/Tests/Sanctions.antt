-- ===== src/Tests/Sanctions.antt =====
-- The reputation of a client, and the events of SES, on the small installation.
use mathlib.Core.List.{Memᴰ}
use zendou_backend.Common.{
  ℕ, zero, suc, ◌<◌, ◌≡◌, ◌≢◌, refl, true, false, none, some, List, [], ◌∷◌, arith,
}
use zendou_backend.Text.{
  split, split_last, is_blank, trim_end, text, starts_with, text_eq, trim, trim_start, is_space,
  to_lower_case,
}
use zendou_backend.Schema.{World, Email, complained}
use zendou_backend.Emails.Refusal.{refused, account_suspended, ok, err}
use zendou_backend.Emails.Checks.{api_key, require_credential}
use zendou_backend.Emails.Accept.{as_queued, accept}
use zendou_backend.Reputation.{
  Context, suspend, window_start, resolve_verdict, metrics_of, evaluate,
}
use zendou_backend.Reputation.Sanction.{evaluate_stops_sends}
use zendou_backend.SnsWebhook.{Recipient, Payload, bounce, is_permanent, apply_bounce}
use zendou_backend.EmailAddress.{
  ParsedAddress, is_atom, is_atom_mark, matches_local_part, matches_domain_name,
  normalize_email_address, match_named_address, before_closing, parse_email_address,
}
use zendou_backend.SnsWebhook.Consequence.{apply_bounce_stops_sends}
use zendou_backend.Tests.{env, fresh, office, ann, letter, instant, outgoing}

abbrev pub ctx : Context
ctx = record {
  env = env;
  fresh = fresh;
  config = record { alerts_email_to = none; admin_email = some (text "root@zendou.gn") };
  reason = text "Bounces above 5 %";
  message = record { subject = text "Suspended"; html = text "s"; body = text "s" };
}

abbrev copies : ℕ → Email → List Email
copies zero e = []
copies (suc n) e = e ∷ copies n e

-- Fifty messages of the day, each of which drew a complaint.
abbrev disliked : World
disliked = record office { emails = copies 50 (record outgoing { status = complained }) }

verdict : (metrics_of instant ann disliked).verdict ≡ suspend
unfolding metrics_of window_start resolve_verdict
verdict = refl

credential :
    require_credential letter.channel letter.api_key_id letter.smtp_credential_id ≡ ok (api_key 4)
unfolding require_credential
credential = refl

evaluate_stops_sends_example :
    accept env fresh 1 letter (evaluate ctx 1 disliked).1
    ≡ (err (refused account_suspended none), (evaluate ctx 1 disliked).1)
evaluate_stops_sends_example =
    evaluate_stops_sends ctx 1 ann disliked refl verdict env fresh letter (api_key 4) credential

nothing_sent : (metrics_of instant ann office).sent < 50
unfolding metrics_of
nothing_sent = omega arith

abbrev bob : Recipient
bob = record { address = some (text " Bob@x.gn"); diagnostic = some (text "550") }

abbrev gone : Payload
gone = record {
  event_type = bounce;
  message_id = some 77;
  occurred_at = none;
  bounce_type = some (text "Permanent");
  bounce_sub_type = some (text "General");
  recipients = bob ∷ [];
}

abbrev full_mailbox : Payload
full_mailbox = record gone {
  bounce_type = some (text "Transient");
  bounce_sub_type = some (text "Permanent");
}

permanence : (is_permanent gone ≡ true) × (is_permanent full_mailbox ≡ false)
unfolding text_eq
permanence = (refl, refl)

not_permanent : starts_with (text "Transient") (text "Permanent") ≡ false
unfolding starts_with
not_permanent = refl

abbrev parsed_bob : ParsedAddress
parsed_bob = record { name = none; address = text "bob@x.gn"; domain = text "x.gn" }

bob_parses : parse_email_address letter.to ≡ some parsed_bob
unfolding parse_email_address normalize_email_address trim trim_start trim_end is_space
    match_named_address before_closing split_last matches_local_part split to_lower_case
    matches_domain_name is_atom is_atom_mark
bob_parses = refl

same_bob : text "bob@x.gn" ≡ to_lower_case (trim (text " Bob@x.gn"))
unfolding trim trim_start trim_end is_space to_lower_case
same_bob = refl

named_bob : is_blank (to_lower_case (trim (text " Bob@x.gn"))) ≡ false
unfolding trim trim_start trim_end is_space to_lower_case
named_bob = refl

apply_bounce_stops_sends_example :
    (accept env fresh 1 letter (apply_bounce ctx outgoing gone office)).0
    ≢ ok (record { id = 700; status = as_queued })
apply_bounce_stops_sends_example =
    apply_bounce_stops_sends ctx outgoing gone office bob (text " Bob@x.gn") permanence.0
      (Memᴰ.head refl) refl named_bob env fresh letter parsed_bob 700 bob_parses same_bob
