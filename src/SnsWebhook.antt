-- ===== src/SnsWebhook.antt =====
-- src/sns-webhook/sns-webhook.service.ts: the events of SES, as they arrive through SNS.
--
-- The parsed payload is an argument (`JSON.parse`), and so is each parsed date (`new Date(raw)`):
-- `none` is a date that is absent or unreadable. Whether a `SubscribeURL` is trusted is decided in
-- sns-signature.validator.ts, and the call of that URL writes nothing to the store.
pub mod Events
pub mod Blocking
pub mod Consequence
use zendou_backend.Common.{
  ℕ, Bool, true, false, ◌&&◌, ◌||◌, Option, none, some, List, [], ◌∷◌, ◌++◌, ◌==◌, if◌then◌else◌,
  find, is_some,
}
use zendou_backend.Text.{Text, text, is_blank, trim, to_lower_case, text_eq, take}
use zendou_backend.Schema.{
  Email, EmailStatus, delivered, bounced, complained, SuppressionReason, hard_bounce, complaint,
  Suppression, World,
}
use zendou_backend.SendJob.{update_email}
use zendou_backend.Reputation.{Context, evaluate, hard_bounce_error_prefix}

pub record Recipient : Type 0 where
  pub address : Option Text
  pub diagnostic : Option Text

pub data EventType : Type 0 where
  delivery bounce complained_of other : EventType

pub record Payload : Type 0 where
  pub event_type : EventType
  pub message_id : Option ℕ
  pub occurred_at : Option ℕ
  pub bounce_type : Option Text
  pub bounce_sub_type : Option Text
  pub recipients : List Recipient

abbrev pub max_error_message_length : ℕ
max_error_message_length = 500

abbrev pub permanent_bounce_type : Text
permanent_bounce_type = text "Permanent"

abbrev pub is_permanent : Payload → Bool
is_permanent p = elim p.bounce_type [ none ↦ false | some t ↦ text_eq t permanent_bounce_type ]

abbrev or_now : ℕ → Option ℕ → ℕ
or_now now none = now
or_now now (some at) = at

abbrev or_unknown : Option Text → Text
or_unknown none = text "Unknown"
or_unknown (some t) = t

-- The first diagnostic that is a text and not the empty one.
first_diagnostic : List Recipient → Text
first_diagnostic [] = []
first_diagnostic (r ∷ rs) = elim r.diagnostic [
  | none ↦ first_diagnostic rs
  | some t ↦ if is_blank t then first_diagnostic rs else t
]

abbrev head_of : Payload → Text
head_of p =
    if is_permanent p then hard_bounce_error_prefix else text "Bounce " ++ or_unknown p.bounce_type

-- The parts joined by " — " (an em dash), the second left out where it is empty.
abbrev joined : Text → Text → Text
joined first diagnostic =
    if is_blank diagnostic then first else first ++ (32 ∷ 0x2014 ∷ 32 ∷ diagnostic)

unfoldable pub build_bounce_error_message : Payload → Text
unfolding first_diagnostic
build_bounce_error_message p =
    take max_error_message_length
      (joined (head_of p ++ (b'/' ∷ or_unknown p.bounce_sub_type)) (first_diagnostic p.recipients))

-- The unique pair (address, userId) of an entry.
abbrev owned_by : Option ℕ → ℕ → Bool
owned_by none user = false
owned_by (some owner) user = owner == user

abbrev pub is_entry : Text → ℕ → Suppression → Bool
is_entry address user s = text_eq s.address address && owned_by s.user_id user

-- `upsert` with an empty update.
abbrev upsert : Text → ℕ → SuppressionReason → World → World
upsert address user reason w =
    if is_some (find (is_entry address user) w.suppressions) then w else record w {
      suppressions =
          w.suppressions ++ record { address = address; reason = reason; user_id = some user } ∷ [];
    }

unfoldable pub suppress : Option Text → ℕ → SuppressionReason → World → World
suppress none user reason w = w
suppress (some raw) user reason w =
    let address = to_lower_case (trim raw) in
    if is_blank address then w else upsert address user reason w

-- The loop over the recipients of an event.
unfoldable pub suppress_all : List Recipient → ℕ → SuppressionReason → World → World
unfolding suppress
suppress_all [] user reason w = w
suppress_all (r ∷ rs) user reason w = suppress_all rs user reason (suppress r.address user reason w)

abbrev pub delivered_row : ℕ → Email → Email
delivered_row at e = record e {
  status = delivered;
  delivered_at = some at;
  last_event_at = some at;
}

abbrev pub bounced_row : ℕ → Text → Email → Email
bounced_row at message e = record e {
  status = bounced;
  error_message = some message;
  last_event_at = some at;
}

abbrev pub complained_row : ℕ → Email → Email
complained_row at e = record e { status = complained; last_event_at = some at }

-- An error of the evaluation is logged, never thrown.
abbrev pub reevaluate : Context → ℕ → World → World
reevaluate ctx user w = (evaluate ctx user w).1

unfoldable pub apply_delivery : Context → Email → Payload → World → World
apply_delivery ctx e p w = update_email e.id (delivered_row (or_now ctx.env.now p.occurred_at)) w

abbrev suppress_hard : Email → Payload → World → World
suppress_hard e p w =
    if is_permanent p then suppress_all p.recipients e.user_id hard_bounce w else w

unfoldable pub apply_bounce : Context → Email → Payload → World → World
apply_bounce ctx e p w = reevaluate ctx e.user_id (
    update_email e.id
      (bounced_row (or_now ctx.env.now p.occurred_at) (build_bounce_error_message p))
      (suppress_hard e p w))

unfoldable pub apply_complaint : Context → Email → Payload → World → World
apply_complaint ctx e p w = reevaluate ctx e.user_id (
    update_email e.id (complained_row (or_now ctx.env.now p.occurred_at))
      (suppress_all p.recipients e.user_id complaint w))

abbrev dispatch : Context → EventType → Email → Payload → World → World
dispatch ctx delivery e p w = apply_delivery ctx e p w
dispatch ctx bounce e p w = apply_bounce ctx e p w
dispatch ctx complained_of e p w = apply_complaint ctx e p w
dispatch ctx other e p w = w

abbrev has_message_id : ℕ → Email → Bool
has_message_id id e = elim e.ses_message_id [ none ↦ false | some m ↦ m == id ]

-- `email.findUnique({ where: { sesMessageId } })`
abbrev pub find_by_message : World → ℕ → Option Email
find_by_message w id = find (has_message_id id) w.emails

abbrev apply_to : Context → Payload → Option Email → World → World
apply_to ctx p none w = w
apply_to ctx p (some e) w = dispatch ctx p.event_type e p w

unfoldable pub handle_notification : Context → Payload → World → World
handle_notification ctx p w = elim p.message_id [
  | none ↦ w
  | some id ↦ apply_to ctx p (find_by_message w id) w
]

-- `message.Type`, and the notification's body if `JSON.parse` reads it.
pub data SnsMessage : Type 0 where
  subscription_confirmation unsubscribe_confirmation unknown_type : SnsMessage
  notification : Option Payload → SnsMessage

unfoldable pub handle : Context → SnsMessage → World → World
handle ctx (notification (some p)) w = handle_notification ctx p w
handle ctx (notification none) w = w
handle ctx subscription_confirmation w = w
handle ctx unsubscribe_confirmation w = w
handle ctx unknown_type w = w
