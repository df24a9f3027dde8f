-- ===== src/Credentials/Secrets.antt =====
-- src/api-keys/secret-hashing.service.ts.
use zendou_backend.Common.{Bool, false, ◌||◌, Option, none, some, List, [], ◌∷◌, if◌then◌else◌}
use zendou_backend.Text.{Text, text_eq, is_blank}

-- The pepper, `undefined` where none or an empty one is configured, HMAC and SHA-256.
pub record Hashing : Type 0 where
  pub pepper : Option Text
  pub hmac_sha256 : Text → Text → Text
  pub sha256 : Text → Text

-- The constructor's reading of `API_KEY_PEPPER`.
abbrev pub pepper_of : Option Text → Option Text
pepper_of none = none
pepper_of (some configured) = if is_blank configured then none else some configured

abbrev stored_form : Hashing → Text → Option Text → Text
stored_form h secret none = h.sha256 secret
stored_form h secret (some pepper) = h.hmac_sha256 pepper secret

unfoldable pub hash_for_storage : Hashing → Text → Text
hash_for_storage h secret = stored_form h secret h.pepper

abbrev candidates_with : Hashing → Text → Option Text → List Text
candidates_with h secret none = h.sha256 secret ∷ []
candidates_with h secret (some pepper) = hash_for_storage h secret ∷ h.sha256 secret ∷ []

unfoldable pub candidate_hashes : Hashing → Text → List Text
candidate_hashes h secret = candidates_with h secret h.pepper

abbrev legacy_with : Hashing → Text → Text → Option Text → Bool
legacy_with h hash secret none = false
legacy_with h hash secret (some pepper) = text_eq hash (h.sha256 secret)

unfoldable pub is_legacy : Hashing → Text → Text → Bool
is_legacy h hash secret = legacy_with h hash secret h.pepper

abbrev pub has_hash : List Text → Text → Bool
has_hash [] hash = false
has_hash (x ∷ xs) hash = text_eq x hash || has_hash xs hash
