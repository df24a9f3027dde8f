-- ===== src/Tests/Jobs.antt =====
-- Runs of the worker, and custom headers.
use zendou_backend.Common.{◌≤◌, ◌≡◌, refl, none, some, List, [], ◌∷◌, length, All}
use zendou_backend.Text.{
  Text, text, text_eq, trim, trim_start, trim_end, is_space, to_lower_case, starts_with,
}
use zendou_backend.Schema.{World, Job, raw}
use zendou_backend.Emails.Checks.{is_address_suppressed}
use zendou_backend.EmailHeaders.{
  HeaderValue, string, is_allowed_name, contains, validate_custom_headers,
}
use zendou_backend.EmailHeaders.Laws.{IsSafeEntry, HasDistinctNames, validate_custom_headers_sound}
use zendou_backend.SendJob.{
  SendRequest, Attempt, delivered_as, temporary, request_of, idle, process,
}
use zendou_backend.SendJob.Replay.{IsSettled, process_replay}
use zendou_backend.SendJob.Retries.{attempts, send_job_attempts, attempts_settle}
use zendou_backend.Tests.{instant, office, outgoing}

abbrev posted : World
posted = record office { emails = outgoing ∷ [] }

abbrev job : Job
job = record { job_id = 600; email_id = 60; content = raw (text "raw") }

abbrev accepts : SendRequest → Attempt
accepts request = delivered_as 77

abbrev busy : SendRequest → Attempt
busy request = temporary (text "throttled")

run :
    ((process instant accepts job posted).handed ≡ some (request_of outgoing job))
    × ((process instant accepts job posted).thrown ≡ none)
unfolding process is_address_suppressed text_eq
run = (refl, refl)

process_replay_example :
    process instant busy job (process instant accepts job posted).world
    ≡ idle (process instant accepts job posted).world
process_replay_example = process_replay instant accepts job posted instant busy run.1

abbrev always_busy : List (SendRequest → Attempt)
always_busy = busy ∷ busy ∷ busy ∷ busy ∷ busy ∷ []

attempts_settle_example :
    IsSettled job (attempts instant job send_job_attempts 0 always_busy posted)
attempts_settle_example = attempts_settle instant job always_busy posted refl

abbrev headers : List (Text × HeaderValue)
headers =
    (text "List-Unsubscribe", string (text "<https://shop.gn/u>"))
    ∷ (text "X-Campaign", string (text "may"))
    ∷ []

headers_pass : validate_custom_headers (some headers) ≡ none
unfolding validate_custom_headers is_allowed_name contains text_eq trim trim_start trim_end is_space
    to_lower_case starts_with
headers_pass = refl

validate_custom_headers_sound_example :
    (length headers ≤ 20) × All IsSafeEntry headers × HasDistinctNames [] headers
validate_custom_headers_sound_example = validate_custom_headers_sound headers headers_pass
