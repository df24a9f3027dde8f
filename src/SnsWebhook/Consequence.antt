-- ===== src/SnsWebhook/Consequence.antt =====
-- What a hard bounce means for later acceptances.
use mathlib.Core.List.{Memᴰ}
use mathlib.Core.Path.{subst}
use zendou_backend.Common.{ℕ, ◌≡◌, ◌≢◌, sym, true, false, some}
use zendou_backend.Text.{Text, is_blank}
use zendou_backend.Schema.{Email, World}
use zendou_backend.EmailAddress.{ParsedAddress, parse_email_address}
use zendou_backend.Emails.Refusal.{Result, ok}
use zendou_backend.Emails.Checks.{Env, is_address_suppressed}
use zendou_backend.Emails.Accept.{Fresh, SendEmailResponse, as_queued, accept}
use zendou_backend.Emails.Accept.Request.{AcceptInput}
use zendou_backend.Emails.Accept.Charge.{Outcome, refuses, blocks, loses, charges, accept-Outcome}
use zendou_backend.Emails.Accept.Authority.{check_request-IsAuthorised}
use zendou_backend.Reputation.{Context}
use zendou_backend.SnsWebhook.{Recipient, Payload, is_permanent, apply_bounce}
use zendou_backend.SnsWebhook.Blocking.{normal, apply_bounce-blocks}

module _ (env : Env) (fresh : Fresh) (user : ℕ) (input : AcceptInput) (w : World) where
  -- No acceptance queues a message to a blocked address.
  never_queued :
      {r : Result SendEmailResponse} {w' : World} (id : ℕ) (to : ParsedAddress)
      → parse_email_address input.to ≡ some to
      → is_address_suppressed w user to.address ≡ true
      → Outcome env fresh user input w r w'
      → r ≢ ok (record { id = id; status = as_queued })
  never_queued id to parsed blocked refuses e = cc
  never_queued id to parsed blocked (blocks _ _) e = cc
  never_queued id to parsed blocked (loses _ _ _ _) e = cc
  never_queued id to parsed blocked (charges {c} fine open_ _ _) e =
      let same : to ≡ c.to =
        cc (parsed, (check_request-IsAuthorised env user input w c fine).recipient_parsed) in
      let closed : is_address_suppressed w user c.to.address ≡ true =
        subst (λ (a : ParsedAddress). is_address_suppressed w user a.address ≡ true) same blocked in
      cc (closed, open_)

-- Once a hard bounce has been applied, no acceptance of the same account, by either channel,
-- queues a message to an address that the bounce has named.
pub apply_bounce_stops_sends :
    (ctx : Context) (e : Email) (p : Payload) (w : World) (r : Recipient) (raw : Text)
    → is_permanent p ≡ true
    → Memᴰ r p.recipients
    → r.address ≡ some raw
    → is_blank (normal raw) ≡ false
    → (env : Env) (fresh : Fresh) (input : AcceptInput) (to : ParsedAddress) (id : ℕ)
    → parse_email_address input.to ≡ some to
    → to.address ≡ normal raw
    → (accept env fresh e.user_id input (apply_bounce ctx e p w)).0
      ≢ ok (record { id = id; status = as_queued })
apply_bounce_stops_sends ctx e p w r raw permanent member given full env fresh input to id parsed
      same =
    never_queued env fresh e.user_id input (apply_bounce ctx e p w) id to parsed
      (subst (λ (a : Text). is_address_suppressed (apply_bounce ctx e p w) e.user_id a ≡ true)
        (sym same) (apply_bounce-blocks ctx e p w r raw permanent member given full))
      (accept-Outcome env fresh e.user_id input (apply_bounce ctx e p w))
