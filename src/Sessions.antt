-- ===== src/Sessions.antt =====
-- src/auth/session.service.ts: the sessions of the dashboard. A command of Redis on a key that has
-- expired finds nothing; the commands of one call run at one instant here.
pub mod Index
pub mod Kept
pub mod Revocation
use zendou_backend.Common.{
  ℕ, ◌+◌, ◌*◌, Bool, true, false, ◌||◌, Option, none, some, List, [], ◌∷◌, ltb, ◌==◌, if◌then◌else◌,
  remove_where,
}
use zendou_backend.Schema.{Session, SessionSet, World}

-- `SESSION_TTL_SECONDS`, in milliseconds.
abbrev pub session_ttl_ms : ℕ
session_ttl_ms = 60 * 60 * 24 * 7 * 1000

abbrev pub live_session : ℕ → Option Session → Option Session
live_session now none = none
live_session now (some session) = if ltb now session.expires_at then some session else none

abbrev pub live_set : ℕ → Option SessionSet → Option SessionSet
live_set now none = none
live_set now (some set) = if ltb now set.expires_at then some set else none

abbrev pub tokens_of : Option SessionSet → List ℕ
tokens_of none = []
tokens_of (some set) = set.tokens

unfoldable pub has_token : List ℕ → ℕ → Bool
has_token [] token = false
has_token (t ∷ ts) token = t == token || has_token ts token

abbrev pub put_session : ℕ → Option Session → World → World
put_session token session w = record w {
  sessions = λ t. if t == token then session else w.sessions t;
}

abbrev pub put_set : ℕ → Option SessionSet → World → World
put_set user set w = record w { session_sets = λ u. if u == user then set else w.session_sets u }

abbrev pub opened : ℕ → ℕ → Session
opened now user = record { user_id = user; expires_at = now + session_ttl_ms }

-- SADD and EXPIRE.
abbrev pub joined : ℕ → ℕ → Option SessionSet → SessionSet
joined now token set = record {
  tokens = token ∷ tokens_of (live_set now set);
  expires_at = now + session_ttl_ms;
}

unfoldable pub create_session : ℕ → ℕ → ℕ → World → World
create_session now token user w =
    put_set user (some (joined now token (w.session_sets user)))
      (put_session token (some (opened now user)) w)

-- EXPIRE on the set: without effect where it is not there.
abbrev pub refreshed : ℕ → Option SessionSet → Option SessionSet
refreshed now none = none
refreshed now (some set) =
    if ltb now set.expires_at then some (record set { expires_at = now + session_ttl_ms }) else none

abbrev resolved : ℕ → ℕ → World → Option Session → Option ℕ × World
resolved now token w none = (none, w)
resolved now token w (some session) = (
  some session.user_id,
  put_set session.user_id (refreshed now (w.session_sets session.user_id))
      (put_session token (some (opened now session.user_id)) w),
)

unfoldable pub resolve_session : ℕ → ℕ → World → Option ℕ × World
resolve_session now token w = resolved now token w (live_session now (w.sessions token))

abbrev owner : Option Session → Option ℕ
owner none = none
owner (some session) = some session.user_id

unfoldable pub peek_session : ℕ → ℕ → World → Option ℕ
peek_session now token w = owner (live_session now (w.sessions token))

-- SREM
abbrev pub without : ℕ → Option SessionSet → Option SessionSet
without token none = none
without token (some set) = some (record set { tokens = remove_where (λ t. t == token) set.tokens })

abbrev closed : ℕ → World → Option Session → World
closed token w none = put_session token none w
closed token w (some session) =
    put_set session.user_id (without token (w.session_sets session.user_id))
      (put_session token none w)

unfoldable pub destroy_session : ℕ → ℕ → World → World
destroy_session now token w = closed token w (live_session now (w.sessions token))

unfoldable pub destroy_all_for_user : ℕ → ℕ → World → World
unfolding has_token
destroy_all_for_user now user w =
    let tokens = tokens_of (live_set now (w.session_sets user)) in
    put_set user none
      (record w { sessions = λ t. if has_token tokens t then none else w.sessions t })
