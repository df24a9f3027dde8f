-- ===== src/Reputation.antt =====
-- src/reputation: the rates of a client, the sanction, and the daily limit that grows with trust.
--
-- A rate is a fraction `n / sent` of whole numbers. It is compared with the thresholds 0.05, 0.001
-- and their product with 0.6 by cross multiplication: for counts below 2 ^ 40 the division of
-- doubles gives the same answer.
pub mod Limits
pub mod Neutral
pub mod Sanction
use zendou_backend.Common.{
  ℕ, ◌+◌, ◌-◌, ◌*◌, Bool, true, false, not, ◌&&◌, ◌||◌, Option, none, some, List, [], ◌∷◌, ltb, leb,
  ◌==◌, if◌then◌else◌, find, count, update_where,
}
use zendou_backend.Text.{Text, text, text_eq, is_blank, trim, to_lower_case, starts_with}
use zendou_backend.Schema.{
  User, suspended, Email, EmailStatus, bounced, complained, World, find_user, was_sent,
  is_suspended,
}
use zendou_backend.Emails.Day.{day_ms}
use zendou_backend.Emails.Refusal.{Result, ok, err}
use zendou_backend.Emails.Checks.{Env}
use zendou_backend.Emails.Accept.{Fresh}
use zendou_backend.Emails.System.{SystemEmailPayload, AlertText, send_system}

abbrev pub reputation_window_days : ℕ
reputation_window_days = 30

abbrev pub min_volume_for_sanction : ℕ
min_volume_for_sanction = 50

abbrev pub default_daily_send_limit : ℕ
default_daily_send_limit = 200

abbrev pub hard_bounce_error_prefix : Text
hard_bounce_error_prefix = text "Bounce Permanent"

pub data Verdict : Type 0 where
  healthy warning suspend : Verdict

pub record Metrics : Type 0 where
  pub sent : ℕ
  pub bounces : ℕ
  pub hard_bounces : ℕ
  pub transient_bounces : ℕ
  pub complaints : ℕ
  pub verdict : Verdict

-- The later of the sliding window and the last reset.
abbrev later_reset : Option ℕ → ℕ → ℕ
later_reset none sliding = sliding
later_reset (some reset) sliding = if ltb sliding reset then reset else sliding

unfoldable pub window_start : ℕ → User → ℕ
window_start now user = later_reset user.reputation_reset_at (now - reputation_window_days * day_ms)

unfoldable pub resolve_verdict : (sent hard_bounces complaints : ℕ) → Verdict
resolve_verdict sent hard_bounces complaints =
    if ltb sent min_volume_for_sanction
    then healthy
    else if ltb (5 * sent) (100 * hard_bounces) || ltb sent (1000 * complaints)
    then suspend
    else if leb (3 * sent) (100 * hard_bounces) || leb (6 * sent) (10000 * complaints)
    then warning
    else healthy

-- The client's own emails of the window, system emails left out.
abbrev pub in_window : ℕ → ℕ → Email → Bool
in_window user since e = e.user_id == user && not e.system && leb since e.queued_at

abbrev pub is_bounced : EmailStatus → Bool
is_bounced bounced = true
is_bounced _ = false

abbrev pub is_complained : EmailStatus → Bool
is_complained complained = true
is_complained _ = false

abbrev pub starts_hard : Option Text → Bool
starts_hard none = false
starts_hard (some message) = starts_with message hard_bounce_error_prefix

unfoldable pub metrics_of : ℕ → User → World → Metrics
metrics_of now user w =
    let since = window_start now user in
    let sent = count (λ e. in_window user.id since e && was_sent e.status) w.emails in
    let bounces = count (λ e. in_window user.id since e && is_bounced e.status) w.emails in
    let complaints = count (λ e. in_window user.id since e && is_complained e.status) w.emails in
    let hard =
      count (λ e. in_window user.id since e && is_bounced e.status && starts_hard e.error_message)
        w.emails in
    record {
      sent = sent;
      bounces = bounces;
      hard_bounces = hard;
      transient_bounces = bounces - hard;
      complaints = complaints;
      verdict = resolve_verdict sent hard complaints;
    }

-- ALERTS_EMAIL_TO and ADMIN_EMAIL.
pub record AlertConfig : Type 0 where
  pub alerts_email_to : Option Text
  pub admin_email : Option Text

abbrev first_set : Option Text → Option Text → Option Text
first_set none b = b
first_set (some a) b = some a

abbrev normalized : Option Text → Option Text
normalized none = none
normalized (some raw) =
    if is_blank (to_lower_case (trim raw)) then none else some (to_lower_case (trim raw))

unfoldable pub resolve_alert_recipient : AlertConfig → Option Text
resolve_alert_recipient config = normalized (first_set config.alerts_email_to config.admin_email)

-- What a call needs besides the state: the instant, generated keys, the configuration, the reason
-- of a suspension (`buildSuspensionReason`, a text with the rates) and the text of the alert
-- (suspension-alert.template.ts).
pub record Context : Type 0 where
  pub env : Env
  pub fresh : Fresh
  pub config : AlertConfig
  pub reason : Text
  pub message : AlertText

abbrev alert_payload : Context → Text → User → SystemEmailPayload
alert_payload ctx to recipient = record {
  user_id = recipient.id;
  to = to;
  subject = ctx.message.subject;
  html = some ctx.message.html;
  body = some ctx.message.body;
}

abbrev notify : Context → Text → Option User → World → World
notify ctx to none w = w
notify ctx to (some recipient) w =
    (send_system ctx.env ctx.fresh (alert_payload ctx to recipient) w).1

-- Never rejects: an error is logged, and what was written stays.
unfoldable pub alert_administrator : Context → World → World
alert_administrator ctx w = elim (resolve_alert_recipient ctx.config) [
  | none ↦ w
  | some to ↦ notify ctx to (find (λ u. text_eq u.email to) w.users) w
]

abbrev pub suspend_row : ℕ → Text → User → User
suspend_row now reason u = record u {
  status = suspended;
  suspended_at = some now;
  suspension_reason = some reason;
}

abbrev pub write_suspension : ℕ → Text → ℕ → World → World
write_suspension now reason user w = record w {
  users = update_where (λ u. u.id == user) (suspend_row now reason) w.users;
}

unfoldable pub suspend_user : Context → User → World → World
suspend_user ctx user w =
    if is_suspended user.status
    then w
    else alert_administrator ctx (write_suspension ctx.env.now ctx.reason user.id w)

abbrev pub apply_verdict : Context → User → Verdict → World → World
apply_verdict ctx user suspend w = suspend_user ctx user w
apply_verdict ctx user warning w = w
apply_verdict ctx user healthy w = w

unfoldable pub evaluate_user : Context → User → World → Metrics × World
evaluate_user ctx user w =
    let metrics = metrics_of ctx.env.now user w in
    (metrics, apply_verdict ctx user metrics.verdict w)

-- `none` is the NotFoundException of `loadUser`.
unfoldable pub evaluate : Context → ℕ → World → Option Metrics × World
evaluate ctx user w = elim (find_user w user) [
  | none ↦ (none, w)
  | some u ↦ let (metrics, w') = evaluate_user ctx u w in (some metrics, w')
]

-- SEND_LIMIT_TIERS: minimal age in days, minimal sends, limit.
pub record Tier : Type 0 where
  pub min_age_days : ℕ
  pub min_lifetime_sends : ℕ
  pub daily_limit : ℕ

abbrev pub send_limit_tiers : List Tier
send_limit_tiers =
    record { min_age_days = 30; min_lifetime_sends = 10000; daily_limit = 20000 }
    ∷ record { min_age_days = 7; min_lifetime_sends = 1000; daily_limit = 5000 }
    ∷ record { min_age_days = 3; min_lifetime_sends = 100; daily_limit = 1000 }
    ∷ []

-- The age is in milliseconds; `ageDays >= n` is `age >= n` days of them.
abbrev pub reaches : ℕ → ℕ → Tier → Bool
reaches age_ms lifetime_sends t =
    leb (t.min_age_days * day_ms) age_ms && leb t.min_lifetime_sends lifetime_sends

abbrev limit_of : Option Tier → ℕ
limit_of none = default_daily_send_limit
limit_of (some t) = t.daily_limit

unfoldable pub resolve_daily_limit : ℕ → ℕ → ℕ
resolve_daily_limit age_ms lifetime_sends =
    limit_of (find (reaches age_ms lifetime_sends) send_limit_tiers)

abbrev is_healthy : Verdict → Bool
is_healthy healthy = true
is_healthy _ = false

abbrev pub lifetime_sends : ℕ → World → ℕ
lifetime_sends user w = count (λ e. e.user_id == user && not e.system && was_sent e.status) w.emails

abbrev pub raise : ℕ → ℕ → World → World
raise user target w = record w {
  users = update_where (λ u. u.id == user) (λ u. record u { daily_send_limit = target }) w.users;
}

-- With the verdict of the evaluation that has just run.
unfoldable pub raise_limit : ℕ → User → Verdict → World → ℕ × World
raise_limit now user verdict w =
    let target = resolve_daily_limit (now - user.created_at) (lifetime_sends user.id w) in
    if not (is_healthy verdict)
    then (user.daily_send_limit, w)
    else if leb target user.daily_send_limit
    then (user.daily_send_limit, w)
    else (target, raise user.id target w)

abbrev recompute_user : Context → Option User → World → Option ℕ × World
recompute_user ctx none w = (none, w)
recompute_user ctx (some user) w =
    let (metrics, w') = evaluate_user ctx user w in
    let (limit, w'') = raise_limit ctx.env.now user metrics.verdict w' in (some limit, w'')

-- `acquired`: this call has won the hourly slot (`SET NX EX` of Redis).
unfoldable pub recompute_daily_limit : Context → Bool → ℕ → World → Option ℕ × World
recompute_daily_limit ctx acquired user w =
    if acquired then recompute_user ctx (find_user w user) w else (none, w)
