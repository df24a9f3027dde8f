-- ===== src/SmtpRelay/Throttle.antt =====
-- src/smtp/smtp-throttle.service.ts: the counters against abuse. Those of a window stand in Redis,
-- under a key with an expiry (the two Lua scripts of the service); those of a connection in a map.
-- A message that is only logged is left out.
pub mod Bursts
use zendou_backend.Common.{
  ℕ, ◌+◌, Bool, true, false, ◌&&◌, ◌||◌, Option, none, some, List, [], ◌∷◌, ltb, leb, ◌==◌,
  if◌then◌else◌, length,
}
use zendou_backend.Text.{Text, text, text_eq, is_blank}
use zendou_backend.SmtpRelay.Replies.{
  SmtpReply, reply_too_many_connections, reply_too_many_auth_failures, reply_send_rate_exceeded,
  reply_too_many_messages, reply_too_many_refused_recipients,
}

-- What the code reads of an `SMTPServerSession`; the library keeps the envelope.
pub record Session : Type 0 where
  pub id : ℕ
  pub remote_address : Text
  pub mail_from : Text
  pub rcpt_to : List Text

-- The keys behind the prefix `smtp:`.
pub data CounterKey : Type 0 where
  conn_ip auth_fail_ip auth_fail_user : Text → CounterKey
  send_user : ℕ → CounterKey

unfoldable pub same_key : CounterKey → CounterKey → Bool
same_key (conn_ip a) (conn_ip b) = text_eq a b
same_key (auth_fail_ip a) (auth_fail_ip b) = text_eq a b
same_key (auth_fail_user a) (auth_fail_user b) = text_eq a b
same_key (send_user a) (send_user b) = a == b
same_key _ _ = false

pub record Window : Type 0 where
  pub hits : ℕ
  pub expires_at : ℕ

pub record Distinct : Type 0 where
  pub members : List Text
  pub expires_at : ℕ

pub record SmtpConnectionCounters : Type 0 where
  pub auth_failures : ℕ
  pub messages : ℕ
  pub refused_recipients : ℕ

pub record Throttle : Type 0 where
  pub windows : CounterKey → Option Window
  pub stuffing : Text → Option Distinct
  pub connections : ℕ → Option SmtpConnectionCounters
  pub redis_up : Bool

-- The variables of the environment; `none` stands for a value that is no whole number.
pub record RelayConfig : Type 0 where
  pub ip_limits_enabled : Bool
  pub connection_window_ms : Option ℕ
  pub max_connections_per_ip : Option ℕ
  pub auth_failure_window_ms : Option ℕ
  pub max_auth_failures_per_connection : Option ℕ
  pub emails_per_minute : Option ℕ
  pub max_messages_per_connection : Option ℕ
  pub max_refused_recipients_per_connection : Option ℕ
  pub max_message_bytes : Option ℕ
  pub max_recipients : Option ℕ

abbrev pub setting : Option ℕ → ℕ → ℕ
setting none fallback = fallback
setting (some value) fallback = if ltb 0 value then value else fallback

abbrev pub minute_window_ms : ℕ
minute_window_ms = 60000

abbrev pub default_emails_per_minute : ℕ
default_emails_per_minute = 60

abbrev pub send_limit : RelayConfig → ℕ
send_limit cfg = setting cfg.emails_per_minute default_emails_per_minute

abbrev pub no_counters : SmtpConnectionCounters
no_counters = record { auth_failures = 0; messages = 0; refused_recipients = 0 }

abbrev live : ℕ → Option Window → Option Window
live now none = none
live now (some window) = if ltb now window.expires_at then some window else none

-- `HIT_SCRIPT`: one more hit of the window that runs, or the first of a new one.
abbrev pub next_window : ℕ → ℕ → Option Window → Window
next_window now window_ms none = record { hits = 1; expires_at = now + window_ms }
next_window now window_ms (some window) = record window { hits = window.hits + 1 }

abbrev pub put_window : CounterKey → Window → Throttle → Throttle
put_window key window s = record s {
  windows = λ k. if same_key k key then some window else s.windows k;
}

-- 0 hits where Redis is silent: the limit is not applied.
unfoldable pub hit : CounterKey → ℕ → ℕ → Throttle → ℕ × Throttle
hit key window_ms now s =
    let window = next_window now window_ms (live now (s.windows key)) in
    if s.redis_up then (window.hits, put_window key window s) else (0, s)

abbrev counters_of : Option SmtpConnectionCounters → SmtpConnectionCounters
counters_of none = no_counters
counters_of (some counters) = counters

-- `countersFor`
abbrev pub counters_for : Session → Throttle → SmtpConnectionCounters
counters_for session s = counters_of (s.connections session.id)

abbrev pub put_counters : Session → SmtpConnectionCounters → Throttle → Throttle
put_counters session counters s = record s {
  connections = λ id. if id == session.id then some counters else s.connections id;
}

-- `session.remoteAddress || UNKNOWN_IP`
abbrev pub remote_address : Session → Text
remote_address session =
    if is_blank session.remote_address then text "unknown" else session.remote_address

-- A refusal where the test holds.
abbrev pub refuse_if : Bool → SmtpReply → Option SmtpReply
refuse_if true reply = some reply
refuse_if false reply = none

unfoldable pub register_connection :
    RelayConfig → ℕ → Session → Throttle → Option SmtpReply × Throttle
register_connection cfg now session s =
    let opened = put_counters session no_counters s in
    let window_ms = setting cfg.connection_window_ms 60000 in
    let (hits, s') = hit (conn_ip (remote_address session)) window_ms now opened in
    if cfg.ip_limits_enabled
    then (
      refuse_if (ltb (setting cfg.max_connections_per_ip 30) hits) reply_too_many_connections,
      s',
    )
    else (none, opened)

abbrev pub release_connection : Session → Throttle → Throttle
release_connection session s = record s {
  connections = λ id. if id == session.id then none else s.connections id;
}

-- `DISTINCT_SCRIPT`
has_member : List Text → Text → Bool
has_member [] t = false
has_member (u ∷ us) t = text_eq u t || has_member us t

abbrev live_members : ℕ → ℕ → Option Distinct → Distinct
live_members now window_ms none = record { members = []; expires_at = now + window_ms }
live_members now window_ms (some set) =
    if ltb now set.expires_at then set else record { members = []; expires_at = now + window_ms }

add_member : Text → Distinct → Distinct
unfolding has_member
add_member t set =
    if has_member set.members t then set else record set { members = t ∷ set.members }

-- `detectCredentialStuffing`: it only logs, but keeps its set.
abbrev detect_credential_stuffing : Text → Text → ℕ → ℕ → Throttle → Throttle
detect_credential_stuffing ip username window_ms now s =
    let set = add_member username (live_members now window_ms (s.stuffing ip)) in
    if is_blank username
    then s
    else if s.redis_up
    then record s { stuffing = λ k. if text_eq k ip then some set else s.stuffing k }
    else s

abbrev record_ip_failure : RelayConfig → ℕ → Text → Text → ℕ → Throttle → Throttle
record_ip_failure cfg now ip username window_ms s =
    if cfg.ip_limits_enabled
    then detect_credential_stuffing ip username window_ms now
        (hit (auth_fail_ip ip) window_ms now s).1
    else s

abbrev record_user_failure : ℕ → Text → ℕ → Throttle → Throttle
record_user_failure now username window_ms s =
    if is_blank username then s else (hit (auth_fail_user username) window_ms now s).1

unfoldable pub record_auth_failure :
    RelayConfig → ℕ → Session → Text → Throttle → Option SmtpReply × Throttle
unfolding add_member
record_auth_failure cfg now session username s =
    let before = counters_for session s in
    let counters = record before { auth_failures = before.auth_failures + 1 } in
    let window_ms = setting cfg.auth_failure_window_ms 900000 in
    let counted = put_counters session counters s in
    let by_ip = record_ip_failure cfg now (remote_address session) username window_ms counted in
    (
      refuse_if (ltb (setting cfg.max_auth_failures_per_connection 3) counters.auth_failures)
          reply_too_many_auth_failures,
      record_user_failure now username window_ms by_ip,
    )

unfoldable pub assert_send_burst_within_limit :
    RelayConfig → ℕ → ℕ → Throttle → Option SmtpReply × Throttle
assert_send_burst_within_limit cfg now user s =
    let (hits, s') = hit (send_user user) minute_window_ms now s in
    (refuse_if (ltb (send_limit cfg) hits) reply_send_rate_exceeded, s')

abbrev pub message_limit : RelayConfig → ℕ
message_limit cfg = setting cfg.max_messages_per_connection 100

unfoldable pub assert_message_count_within_limit :
    RelayConfig → Session → Throttle → Option SmtpReply × Throttle
assert_message_count_within_limit cfg session s =
    let counters = counters_for session s in
    (
      refuse_if (leb (message_limit cfg) counters.messages) reply_too_many_messages,
      put_counters session counters s,
    )

unfoldable pub record_message : Session → Throttle → Throttle
record_message session s =
    let before = counters_for session s in
    put_counters session (record before { messages = before.messages + 1 }) s

abbrev pub refused_limit : RelayConfig → ℕ
refused_limit cfg = setting cfg.max_refused_recipients_per_connection 10

unfoldable pub record_refused_recipient :
    RelayConfig → Session → Throttle → Option SmtpReply × Throttle
record_refused_recipient cfg session s =
    let before = counters_for session s in
    let counters = record before { refused_recipients = before.refused_recipients + 1 } in
    (
      refuse_if (ltb (refused_limit cfg) counters.refused_recipients)
          reply_too_many_refused_recipients,
      put_counters session counters s,
    )
