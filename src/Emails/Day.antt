-- ===== src/Emails/Day.antt =====
-- The window of the daily quota (emails.service.ts, end of the file). Times are milliseconds
-- since the epoch, and a day of UTC has 86,400,000 of them.
use zendou_backend.Common.{ℕ, ◌+◌, ◌-◌, ◌*◌, ◌/◌, ◌%◌, ◌≤◌, ◌<◌, ◌≡◌, max, arith}

abbrev pub day_ms : ℕ
day_ms = 24 * 60 * 60 * 1000

unfoldable pub start_of_utc_day : ℕ → ℕ
start_of_utc_day reference = reference - reference % day_ms

-- Math.max(1, Math.ceil((nextDay - reference) / 1000))
unfoldable pub seconds_until_next_utc_day : ℕ → ℕ
seconds_until_next_utc_day reference =
    let next_day = start_of_utc_day reference + day_ms in
    max 1 ((next_day - reference + 999) / 1000)

-- The announced wait is between 1 second and a day; a client that waits so long is in the next
-- window, and one that waits a second less is not past its start.
pub seconds_until_next_utc_day_exact :
    (reference : ℕ)
    → (1 ≤ seconds_until_next_utc_day reference)
      × (seconds_until_next_utc_day reference ≤ 86400)
      × (start_of_utc_day (reference + seconds_until_next_utc_day reference * 1000)
          ≡ start_of_utc_day reference + day_ms)
      × (reference + seconds_until_next_utc_day reference * 1000
          < start_of_utc_day reference + day_ms + 1000)
unfolding seconds_until_next_utc_day start_of_utc_day
seconds_until_next_utc_day_exact reference = (omega arith, omega arith, omega arith, omega arith)
