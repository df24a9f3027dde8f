-- ===== src/Credentials.antt =====
-- src/api-keys/api-keys.service.ts and src/smtp-credentials/smtp-credentials.service.ts: the life
-- cycle of a credential, the same for both tables; secret-hashing.service.ts, and the scope of a
-- new credential (src/domains/credential-scope.ts). SHA-256 and HMAC are functions of the
-- platform, and arguments; so are the random secrets.
pub mod Secrets
pub mod Guard
pub mod Lifetime
use zendou_backend.Common.{
  ℕ, suc, Bool, true, false, not, ◌&&◌, ◌||◌, Option, none, some, List, [], ◌∷◌, ◌++◌, ◌==◌,
  if◌then◌else◌, length, find, count, update_where, remove_where, is_some,
}
use zendou_backend.Text.{Text, trim, take}
use zendou_backend.Schema.{
  Email, Credential, CredentialDomainScope, every, selected, Domain, World, is_verified,
}
use zendou_backend.Credentials.Secrets.{Hashing, hash_for_storage}

-- A table of credentials, and what the database does to the rows that refer to one it deletes.
pub record Table : Type 0 where
  pub rows : World → List Credential
  pub put : List Credential → World → World
  pub unlink : ℕ → World → World

abbrev pub api_keys_table : Table
api_keys_table = record {
  rows = λ w. w.api_keys;
  put = λ rows w. record w { api_keys = rows };
  unlink = λ id w. w;
}

abbrev pub sent_with : ℕ → Email → Bool
sent_with id e = elim e.smtp_credential_id [ none ↦ false | some c ↦ c == id ]

-- `onDelete: SetNull` of `Email.smtpCredentialId`.
abbrev pub forget_credential : Email → Email
forget_credential e = record e { smtp_credential_id = none }

abbrev pub smtp_credentials_table : Table
smtp_credentials_table = record {
  rows = λ w. w.smtp_credentials;
  put = λ rows w. record w { smtp_credentials = rows };
  unlink = λ id w. record w { emails = update_where (sent_with id) forget_credential w.emails };
}

-- What the services throw: 404, 409 and 400.
pub data CredentialError : Type 0 where
  credential_not_found not_revoked rotate_revoked domains_duplicate domains_invalid :
      CredentialError

pub data CredentialReply (A : Type 0) : Type 0 where
  given : A → CredentialReply A
  thrown : CredentialError → CredentialReply A

-- `findFirst({ where: { id, userId } })`
abbrev pub find_owned : ℕ → ℕ → List Credential → Option Credential
find_owned user id rows = find (λ c. c.id == id && c.user_id == user) rows

-- `update({ where: { id }, data })`
abbrev pub update_by_id : Table → ℕ → (Credential → Credential) → World → World
update_by_id t id f w = t.put (update_where (λ c. c.id == id) f (t.rows w)) w

abbrev pub revoke_row : ℕ → Credential → Credential
revoke_row now c = record c { revoked_at = some now }

abbrev revoke_found : Table → ℕ → ℕ → World → Option Credential → CredentialReply (Unit {0}) × World
revoke_found t now id w none = (thrown credential_not_found, w)
revoke_found t now id w (some c) =
    if is_some c.revoked_at then (given tt, w) else (given tt, update_by_id t id (revoke_row now) w)

unfoldable pub revoke : Table → ℕ → ℕ → ℕ → World → CredentialReply (Unit {0}) × World
revoke t now user id w = revoke_found t now id w (find_owned user id (t.rows w))

abbrev purge_found : Table → ℕ → World → Option Credential → CredentialReply (Unit {0}) × World
purge_found t id w none = (thrown credential_not_found, w)
purge_found t id w (some c) =
    if not (is_some c.revoked_at)
    then (thrown not_revoked, w)
    else (given tt, t.put (remove_where (λ c. c.id == id) (t.rows w)) (t.unlink id w))

unfoldable pub purge : Table → ℕ → ℕ → World → CredentialReply (Unit {0}) × World
purge t user id w = purge_found t id w (find_owned user id (t.rows w))

-- `API_KEY_DISPLAY_PREFIX_LENGTH`
abbrev pub display_prefix : Text → Text
display_prefix secret = take 12 secret

abbrev pub rotate_row : Hashing → ℕ → Text → Credential → Credential
rotate_row h now secret c = record c {
  prefix = display_prefix secret;
  secret_hash = hash_for_storage h secret;
  rotated_at = some now;
}

abbrev rotate_found :
    Table → Hashing → ℕ → Text → ℕ → World → Option Credential → CredentialReply Credential × World
rotate_found t h now secret id w none = (thrown credential_not_found, w)
rotate_found t h now secret id w (some c) =
    if is_some c.revoked_at
    then (thrown rotate_revoked, w)
    else (given (rotate_row h now secret c), update_by_id t id (rotate_row h now secret) w)

-- The answer carries the new secret in clear; here, the row.
unfoldable pub rotate :
    Table → Hashing → ℕ → Text → ℕ → ℕ → World → CredentialReply Credential × World
rotate t h now secret user id w = rotate_found t h now secret id w (find_owned user id (t.rows w))

abbrev pub has_id : List ℕ → ℕ → Bool
has_id [] id = false
has_id (x ∷ xs) id = x == id || has_id xs id

-- `new Set(ids).size`
abbrev pub distinct : List ℕ → ℕ
distinct [] = 0
distinct (x ∷ xs) = let rest = distinct xs in if has_id xs x then rest else suc rest

pub record Scope : Type 0 where
  pub domain_scope : CredentialDomainScope
  pub domain_ids : List ℕ

abbrev selectable : ℕ → List ℕ → Domain → Bool
selectable user ids d = has_id ids d.id && d.user_id == user && is_verified d.status

-- An absent list and an empty one are the same.
unfoldable pub resolve_credential_scope : ℕ → List ℕ → World → CredentialReply Scope
resolve_credential_scope user [] w = given (record { domain_scope = every; domain_ids = [] })
resolve_credential_scope user (id ∷ ids) w =
    if not (distinct (id ∷ ids) == length (id ∷ ids))
    then thrown domains_duplicate
    else if not (count (selectable user (id ∷ ids)) w.domains == length (id ∷ ids))
    then thrown domains_invalid
    else given (record { domain_scope = selected; domain_ids = id ∷ ids })

-- The body of a creation, and what is generated for it.
pub record CreateInput : Type 0 where
  pub name : Text
  pub domain_ids : List ℕ
  pub can_read : Bool
  pub id : ℕ
  pub username : Option Text
  pub secret : Text
  pub now : ℕ

abbrev pub created_row : Hashing → ℕ → CreateInput → Scope → Credential
created_row h user input scope = record {
  id = input.id;
  user_id = user;
  name = trim input.name;
  username = input.username;
  prefix = display_prefix input.secret;
  secret_hash = hash_for_storage h input.secret;
  last_used_at = none;
  revoked_at = none;
  rotated_at = none;
  created_at = input.now;
  can_read = input.can_read;
  domain_scope = scope.domain_scope;
  domains = scope.domain_ids;
}

abbrev create_scoped :
    Table
    → Hashing
    → ℕ
    → CreateInput
    → World
    → CredentialReply Scope
    → CredentialReply Credential × World
create_scoped t h user input w (thrown error) = (thrown error, w)
create_scoped t h user input w (given scope) = (
  given (created_row h user input scope),
  t.put (t.rows w ++ created_row h user input scope ∷ []) w,
)

unfoldable pub create :
    Table → Hashing → ℕ → CreateInput → World → CredentialReply Credential × World
create t h user input w =
    create_scoped t h user input w (resolve_credential_scope user input.domain_ids w)
