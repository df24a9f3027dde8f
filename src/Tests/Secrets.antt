-- ===== src/Tests/Secrets.antt =====
-- Ann's key and her relay password, without a pepper.
use zendou_backend.Common.{◌≡◌, refl, true, none, some, ◌++◌, arith, all, not}
use zendou_backend.Text.{take, text, text_eq, split}
use zendou_backend.Schema.{Credential, World}
use zendou_backend.RateLimit.{Hits}
use zendou_backend.Credentials.Secrets.{Hashing, hash_for_storage, candidate_hashes}
use zendou_backend.Credentials.{find_owned, api_keys_table, given, revoke, rotate, rotate_row}
use zendou_backend.Credentials.Guard.{Attempt, passed, can_activate, extract_bearer_token}
use zendou_backend.Credentials.Lifetime.{by_api_key, IsOnly, IsFresh, is_known}
use zendou_backend.Credentials.Lifetime.Steps.{Cut, Step, Reach, IsRefused, closed_for_good}
use zendou_backend.Credentials.Lifetime.Renewed.{rotate-passes}
use zendou_backend.Tests.{instant, ann, key, office}

abbrev hashing : Hashing
hashing = record {
  pepper = none;
  hmac_sha256 = λ pepper s. text "hmac:" ++ s;
  sha256 = λ s. text "sha:" ++ s;
}

abbrev attempt : Attempt
attempt = record { now = instant; failures_per_minute = 20; redis_up = true; migrates = true }

abbrev calm : Hits
calm = record { window = none; block = none }

abbrev rotated : World
rotated = (rotate api_keys_table hashing instant (text "new") 1 4 office).1

rotated_key :
    (rotate api_keys_table hashing instant (text "new") 1 4 office).0
    ≡ given (rotate_row hashing instant (text "new") key)
unfolding rotate
rotated_key = refl

old-IsOnly : IsOnly hashing (text "old") 4 office.api_keys
unfolding candidate_hashes text_eq
old-IsOnly = record { found = refl; keyed = omega arith }

new-IsFresh : IsFresh hashing (text "old") (text "new")
unfolding candidate_hashes hash_for_storage text_eq
new-IsFresh = refl

old_header : extract_bearer_token (some (text "Bearer old")) ≡ some (text "old")
unfolding extract_bearer_token text_eq split
old_header = refl

-- The rotated key, then a revocation of it.
closed_for_good_example :
    IsRefused hashing
      (text "old")
      by_api_key
      attempt
      (some (text "Bearer old"))
      calm
      instant
      true
      none
      (revoke api_keys_table instant 1 4 rotated).1
closed_for_good_example =
    closed_for_good hashing (text "old") by_api_key 4 office rotated
      (revoke api_keys_table instant 1 4 rotated).1 attempt (some (text "Bearer old")) calm instant
      true none old-IsOnly
      (Cut.by_rotation instant 1 (text "new") (rotate_row hashing instant (text "new") key)
        new-IsFresh rotated_key)
      (Reach.next Reach.here (Step.revokes by_api_key instant 1 4 rotated)) old_header

new_unknown : all (λ c. not (is_known hashing (text "new") c)) office.api_keys ≡ true
unfolding candidate_hashes text_eq
new_unknown = refl

new_header : extract_bearer_token (some (text "Bearer new")) ≡ some (text "new")
unfolding extract_bearer_token text_eq split
new_header = refl

rotate-passes_example :
    (c : Credential) × (find_owned 1 4 office.api_keys ≡ some c)
    × (find_owned 1 4 rotated.api_keys
        ≡ some (record c {
          prefix = take 12 (text "new");
          secret_hash = hash_for_storage hashing (text "new");
          rotated_at = some instant;
        }))
    × ((can_activate hashing attempt
          (some (text "Bearer new"))
          (record { world = rotated; hits = calm })).0
        ≡ passed 1 4 c.can_read)
rotate-passes_example =
    rotate-passes hashing attempt instant (text "new") 1 4 office
      (rotate_row hashing instant (text "new") key) ann (some (text "Bearer new")) calm
      (omega arith) new_unknown rotated_key refl refl new_header
