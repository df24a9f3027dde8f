-- ===== src/Credentials/Guard.antt =====
-- src/api-keys/api-key-auth.guard.ts and src/smtp/smtp-auth.service.ts: who presents a secret. The
-- writes of `lastUsedAt` in the background are taken to be done, and the migration of a hash to be
-- done where the database takes it. The owner of a credential is a foreign key, so the case of no
-- owner does not occur; a hash is a text in hexadecimal, so two are equal as bytes just when they
-- are equal as texts.
use zendou_backend.Common.{
  ℕ, Bool, false, not, ◌&&◌, ◌||◌, Option, none, some, List, [], ◌∷◌, if◌then◌else◌, find, is_some,
  max,
}
use zendou_backend.Text.{Text, text, text_eq, is_blank, split}
use zendou_backend.Schema.{Credential, User, World, find_user, is_suspended}
use zendou_backend.RateLimit.{Hits, ThrottlerRecord, increment}
use zendou_backend.Credentials.Secrets.{Hashing, hash_for_storage, candidate_hashes, is_legacy}
use zendou_backend.Credentials.{Table, api_keys_table, smtp_credentials_table, update_by_id}

-- `extractBearerToken`; the parts of the header between its spaces.
abbrev second_part : List Text → Option Text
second_part [] = none
second_part (token ∷ rest) = if is_blank token then none else some token

unfoldable pub extract_bearer_token : Option Text → Option Text
extract_bearer_token none = none
extract_bearer_token (some header) =
    let (scheme, parts) = split 32 header in
    if is_blank header || not (text_eq scheme (text "Bearer")) then none else second_part parts

-- `findUnique({ where: { keyHash } })`
abbrev pub by_hash : List Credential → Text → Option Credential
by_hash rows hash = find (λ c. text_eq c.secret_hash hash) rows

-- The first row that one of the hashes finds.
abbrev pub first_found : List Credential → List Text → Option Credential
first_found rows [] = none
first_found rows (hash ∷ hashes) = elim (by_hash rows hash) [
  | some c ↦ some c
  | none ↦ first_found rows hashes
]

abbrev pub migrated_row : Text → Credential → Credential
migrated_row hash c = record c { secret_hash = hash }

abbrev pub used_row : ℕ → Credential → Credential
used_row now c = record c { last_used_at = some now }

-- Whether the database takes the migration of this request.
abbrev pub migrate : Table → Hashing → Bool → Text → Credential → World → World
migrate t h up secret c w =
    if is_legacy h c.secret_hash secret && up
    then update_by_id t c.id (migrated_row (hash_for_storage h secret)) w
    else w

pub data GuardReply : Type 0 where
  passed : (user_id key_id : ℕ) (can_read : Bool) → GuardReply
  unauthorized owner_suspended : GuardReply
  too_many_requests : (retry_after : ℕ) → GuardReply

abbrev pub api_key_failure_window_ms : ℕ
api_key_failure_window_ms = 60000

-- The counter of the address from which the failures come, where Redis answers.
pub record Attempt : Type 0 where
  pub now : ℕ
  pub failures_per_minute : ℕ
  pub redis_up : Bool
  pub migrates : Bool

abbrev reply_of_record : ThrottlerRecord → GuardReply
reply_of_record r =
    if not r.is_blocked then unauthorized else too_many_requests (max 1 r.time_to_block_expire)

unfoldable pub refusal : Attempt → Hits → GuardReply × Hits
refusal a hits =
    let (r, hits') =
      increment a.now api_key_failure_window_ms a.failures_per_minute api_key_failure_window_ms
        hits in
    if a.redis_up then (reply_of_record r, hits') else (unauthorized, hits)

-- The state of the guard.
pub record GuardState : Type 0 where
  pub world : World
  pub hits : Hits

abbrev pub refused_by : Attempt → GuardState → GuardReply × GuardState
refused_by a s = let (reply, hits) = refusal a s.hits in (reply, record s { hits = hits })

abbrev pub admit : Attempt → Credential → GuardState → Option User → GuardReply × GuardState
admit a c s none = (unauthorized, s)
admit a c s (some owner) = if is_suspended owner.status then (owner_suspended, s) else (
  passed owner.id c.id c.can_read,
  record s { world = update_by_id api_keys_table c.id (used_row a.now) s.world },
)

abbrev pub admit_migrated : Attempt → Credential → GuardState → World → GuardReply × GuardState
admit_migrated a c s w = admit a c (record s { world = w }) (find_user w c.user_id)

abbrev pub check_key :
    Hashing → Attempt → Text → GuardState → Option Credential → GuardReply × GuardState
check_key h a key s none = refused_by a s
check_key h a key s (some c) =
    if is_some c.revoked_at
    then refused_by a s
    else admit_migrated a c s (migrate api_keys_table h a.migrates key c s.world)

abbrev pub check_token : Hashing → Attempt → GuardState → Option Text → GuardReply × GuardState
check_token h a s none = refused_by a s
check_token h a s (some key) =
    check_key h a key s (first_found s.world.api_keys (candidate_hashes h key))

-- `canActivate`
unfoldable pub can_activate : Hashing → Attempt → Option Text → GuardState → GuardReply × GuardState
can_activate h a header s = check_token h a s (extract_bearer_token header)

-- `secretMatches`: every candidate is compared, and an empty one never.
unfoldable pub secret_matches : List Text → Text → Bool
secret_matches [] expected = false
secret_matches (candidate ∷ rest) expected =
    let matched = secret_matches rest expected in
    (not (is_blank candidate) && text_eq candidate expected) || matched

abbrev pub by_username : List Credential → Text → Option Credential
by_username rows username =
    find (λ c. elim c.username [ none ↦ false | some name ↦ text_eq name username ]) rows

-- `none` is SMTP_REPLY_AUTH_INVALID_CREDENTIALS; a suspended owner is not looked at.
abbrev pub check_smtp :
    Hashing → ℕ → Bool → Text → World → Option Credential → Option (ℕ × ℕ) × World
check_smtp h now up secret w none = (none, w)
check_smtp h now up secret w (some c) =
    if is_some c.revoked_at || not (secret_matches (candidate_hashes h secret) c.secret_hash)
    then (none, w)
    else (
      some (c.user_id, c.id),
      update_by_id smtp_credentials_table c.id (used_row now)
          (migrate smtp_credentials_table h up secret c w),
    )

unfoldable pub authenticate :
    Hashing → ℕ → Bool → Option Text → Option Text → World → Option (ℕ × ℕ) × World
authenticate h now up none secret w = (none, w)
authenticate h now up (some username) none w = (none, w)
authenticate h now up (some username) (some secret) w =
    if is_blank username || is_blank secret
    then (none, w)
    else check_smtp h now up secret w (by_username w.smtp_credentials username)
