-- ===== src/RateLimit.antt =====
-- src/rate-limit/redis-throttler.storage.ts: the shared counters, on the two Redis keys of one
-- counter. A key that has expired is not there.
use zendou_backend.Common.{
  ℕ, ◌+◌, ◌-◌, ◌/◌, Bool, true, false, Option, none, some, ltb, if◌then◌else◌,
}

-- The counter of hits with the instant at which its window ends, and the end of a block.
pub record Window : Type 0 where
  pub count : ℕ
  pub expires : ℕ

pub record Hits : Type 0 where
  pub window : Option Window
  pub block : Option ℕ

pub record ThrottlerRecord : Type 0 where
  pub total_hits : ℕ
  pub time_to_expire : ℕ
  pub is_blocked : Bool
  pub time_to_block_expire : ℕ

-- INCR, and PEXPIRE on a window that is new.
abbrev pub opened : ℕ → ℕ → Option Window → Window
opened now ttl none = record { count = 1; expires = now + ttl }
opened now ttl (some w) =
    if ltb now w.expires
    then record w { count = w.count + 1 }
    else record { count = 1; expires = now + ttl }

abbrev seen : ℕ → Option Window → Window
seen now none = record { count = 0; expires = now }
seen now (some w) = if ltb now w.expires then w else record { count = 0; expires = now }

abbrev pub blocked_until : ℕ → Option ℕ → Option ℕ
blocked_until now none = none
blocked_until now (some end) = if ltb now end then some end else none

-- `Math.max(0, Math.ceil(ms / 1000))`
abbrev pub to_seconds : ℕ → ℕ
to_seconds milliseconds = (milliseconds + 999) / 1000

abbrev counted : (now limit block_duration : ℕ) → Window → ThrottlerRecord × Hits
counted now limit block_duration w =
    if ltb limit w.count
    then (
      record {
        total_hits = w.count;
        time_to_expire = w.expires - now;
        is_blocked = true;
        time_to_block_expire = block_duration;
      },
      record { window = some w; block = some (now + block_duration) },
    )
    else (
      record {
        total_hits = w.count;
        time_to_expire = w.expires - now;
        is_blocked = false;
        time_to_block_expire = 0;
      },
      record { window = some w; block = none },
    )

abbrev increment_with :
    (now ttl limit block_duration : ℕ) → Hits → Option ℕ → ThrottlerRecord × Hits
increment_with now ttl limit block_duration h none =
    counted now limit block_duration (opened now ttl h.window)
increment_with now ttl limit block_duration h (some end) = (
  record {
    total_hits = (seen now h.window).count;
    time_to_expire = (seen now h.window).expires - now;
    is_blocked = true;
    time_to_block_expire = end - now;
  },
  h,
)

-- The script, with its times in milliseconds.
unfoldable pub throttle_script : (now ttl limit block_duration : ℕ) → Hits → ThrottlerRecord × Hits
throttle_script now ttl limit block_duration h =
    increment_with now ttl limit block_duration h (blocked_until now h.block)

abbrev in_seconds : ThrottlerRecord → ThrottlerRecord
in_seconds r = record r {
  time_to_expire = to_seconds r.time_to_expire;
  time_to_block_expire = to_seconds r.time_to_block_expire;
}

-- A block of no duration lasts the window.
unfoldable pub increment : (now ttl limit block_duration : ℕ) → Hits → ThrottlerRecord × Hits
increment now ttl limit block_duration h =
    let (r, h') =
      throttle_script now ttl limit (if ltb 0 block_duration then block_duration else ttl) h in
    (in_seconds r, h')
