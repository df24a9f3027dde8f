-- ===== src/Emails/Accept/Request.antt =====
-- The part of `EmailsService.accept` that comes before any write: from the credential to the
-- reply-to addresses.
use zendou_backend.Common.{
  ℕ, ◌+◌, ◌*◌, Bool, true, false, not, ◌&&◌, ◌||◌, Option, none, some, List, [], ◌∷◌, ltb, leb,
  if◌then◌else◌, is_some,
}
use zendou_backend.Text.{Text, is_blank, trim}
use zendou_backend.Schema.{EmailChannel, api, smtp, World}
use zendou_backend.EmailAddress.{ParsedAddress, parse_email_address, has_oversized_display_name}
use zendou_backend.Emails.Refusal.{
  invalid_from, invalid_to, missing_body, body_too_large, domain_not_verified, Refusal, Result, ok,
  refuse,
}
use zendou_backend.Emails.Pure.{◌>>=◌, ◌>>◌}
use zendou_backend.Emails.Checks.{
  Env, AccountState, assert_account_may_send, require_verified_domain, CredentialRef,
  require_credential, assert_domain_in_credential_scope, require_verified_reply_to,
  is_test_sender_address, require_verified_test_sender_domain, require_own_address_as_recipient,
}

pub data SendContent : Type 0 where
  simple : (html body : Option Text) (headers : List (Text × Text)) → SendContent
  raw : Text → SendContent

pub record AcceptInput : Type 0 where
  pub from : Text
  pub to : Text
  pub subject : Text
  pub reply_to : List Text
  pub content : SendContent
  pub channel : EmailChannel
  pub smtp_credential_id : Option ℕ
  pub api_key_id : Option ℕ

abbrev pub max_body_bytes : ℕ
max_body_bytes = 500 * 1024

-- `Buffer.byteLength(value, 'utf8')`: a surrogate pair takes four bytes, a lone surrogate three.
unfoldable pub byte_length : Text → ℕ
byte_length [] = 0
byte_length (c ∷ []) = if ltb c 0x80 then 1 else if ltb c 0x800 then 2 else 3
byte_length (c ∷ d ∷ s) =
    let pair = byte_length s + 4 in
    let single = byte_length (d ∷ s) + (if ltb c 0x80 then 1 else if ltb c 0x800 then 2 else 3) in
    if (leb 0xD800 c && leb c 0xDBFF) && (leb 0xDC00 d && leb d 0xDFFF) then pair else single

unfoldable pub blank_to_undefined : Option Text → Option Text
blank_to_undefined none = none
blank_to_undefined (some value) = if is_blank (trim value) then none else some value

unfoldable pub exceeds_max_body : Option Text → Bool
unfolding byte_length
exceeds_max_body none = false
exceeds_max_body (some value) = ltb max_body_bytes (byte_length value)

-- What the checks hand to the writes.
pub record Checked : Type 0 where
  pub account : AccountState
  pub from : ParsedAddress
  pub to : ParsedAddress
  pub html : Option Text
  pub body : Option Text
  pub domain_id : Option ℕ
  pub reply_to : List Text

abbrev pub is_api : EmailChannel → Bool
is_api api = true
is_api smtp = false

-- An address of the request: it parses, and on the API its display name is not too long.
unfoldable pub check_address : Refusal → Bool → Option ParsedAddress → Result ParsedAddress
check_address reason cap_names none = refuse reason
check_address reason cap_names (some parsed) =
    if cap_names && has_oversized_display_name parsed then refuse reason else ok parsed

-- Presence and size of the bodies; a raw message has none of its own.
unfoldable pub check_body : SendContent → Result (Option Text × Option Text)
check_body (raw bytes) = ok (none, none)
check_body (simple html body headers) =
    let h = blank_to_undefined html in
    let b = blank_to_undefined body in
    if not (is_some h) && not (is_some b)
    then refuse missing_body
    else if exceeds_max_body h || exceeds_max_body b
    then refuse body_too_large
    else ok (h, b)

-- Sandbox mode, or a verified domain of the account within the credential's scope.
unfoldable pub check_sender :
    Env → ℕ → CredentialRef → ParsedAddress → Text → World → Result (Option ℕ)
check_sender env user credential from to_address w =
    if is_test_sender_address env from.address
    then (do
      require_verified_test_sender_domain from.domain w
      require_own_address_as_recipient user to_address w)
    else (do
      domain_id ← require_verified_domain domain_not_verified user from.domain w
      assert_domain_in_credential_scope credential domain_id w
      ok (some domain_id))

unfoldable pub check_request : Env → ℕ → AcceptInput → World → Result Checked
unfolding check_address
check_request env user input w = do
  credential ← require_credential input.channel input.api_key_id input.smtp_credential_id
  account ← assert_account_may_send user w
  from ← check_address invalid_from (is_api input.channel) (parse_email_address input.from)
  to ← check_address invalid_to (is_api input.channel) (parse_email_address input.to)
  bodies ← check_body input.content
  domain_id ← check_sender env user credential from to.address w
  reply_to ← require_verified_reply_to user input.reply_to (is_api input.channel) w
  ok (record {
    account = account;
    from = from;
    to = to;
    html = bodies.0;
    body = bodies.1;
    domain_id = domain_id;
    reply_to = reply_to;
  })
