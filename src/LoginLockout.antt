-- ===== src/LoginLockout.antt =====
-- src/auth/login-lockout.service.ts: the lock on an address that too many logins have failed for.
--
-- The keys of one address in Redis, each with its expiry. The name of a key is a digest of the
-- address, so that two addresses share none. Instants and durations are in seconds. An outage of
-- Redis lasts for the whole of a call.
pub mod Escalation
use zendou_backend.Common.{
  ℕ, ◌+◌, ◌-◌, ◌*◌, ◌^◌, min, Bool, true, false, Option, none, some, List, [], ◌∷◌, ltb, leb, ◌==◌,
  if◌then◌else◌,
}

-- The settings, which have the defaults 5, 60, 3600 and 900.
pub record Settings : Type 0 where
  pub threshold : ℕ
  pub base_seconds : ℕ
  pub max_seconds : ℕ
  pub window_seconds : ℕ

abbrev pub lockout_defaults : Settings
lockout_defaults = record {
  threshold = 5;
  base_seconds = 60;
  max_seconds = 3600;
  window_seconds = 900;
}

abbrev pub level_ttl_seconds : ℕ
level_ttl_seconds = 86400

-- A key that `incr` counts in; without an expiry it stays.
pub record Counter : Type 0 where
  pub value : ℕ
  pub expires : Option ℕ

-- The three keys of an address; of the block only the expiry matters.
pub record Keys : Type 0 where
  pub fail : Option Counter
  pub level : Option Counter
  pub block : Option ℕ

abbrev expired : ℕ → Option ℕ → Bool
expired now none = false
expired now (some at) = leb at now

-- INCR: an absent or expired key starts at one.
abbrev pub incr : ℕ → Option Counter → Counter
incr now none = record { value = 1; expires = none }
incr now (some c) =
    if expired now c.expires
    then record { value = 1; expires = none }
    else record c { value = c.value + 1 }

abbrev pub open_window : ℕ → ℕ → Counter → Counter
open_window now window c = if c.value == 1 then record c { expires = some (now + window) } else c

unfoldable pub block_seconds : Settings → ℕ → ℕ
block_seconds s level = min (s.base_seconds * 2 ^ (level - 1)) s.max_seconds

abbrev pub lock : Settings → ℕ → Keys → Keys
lock s now k =
    let level = (incr now k.level).value in
    record {
      fail = none;
      level = some (record { value = level; expires = some (now + level_ttl_seconds) });
      block = some (now + block_seconds s level);
    }

abbrev pub count_failure : Settings → ℕ → Keys → Counter → Keys
count_failure s now k c =
    if ltb c.value s.threshold then record k { fail = some c } else lock s now k

unfoldable pub record_failure : Settings → Bool → ℕ → Keys → Keys
record_failure s up now k =
    if up then count_failure s now k (open_window now s.window_seconds (incr now k.fail)) else k

unfoldable pub record_success : Bool → Keys → Keys
record_success up k = if up then record k { fail = none; level = none } else k

-- The seconds that are left: zero lets the attempt pass.
abbrev pub remaining : ℕ → Option ℕ → ℕ
remaining now none = 0
remaining now (some at) = at - now

-- `none` lets the attempt pass; otherwise the `retryAfter` of the refusal.
unfoldable pub assert_not_locked : Bool → ℕ → Keys → Option ℕ
assert_not_locked up now k =
    if up then (if remaining now k.block == 0 then none else some (remaining now k.block)) else none
