-- ===== src/Credentials/Lifetime.antt =====
-- A secret that is cut, by a revocation, a rotation or a purge, opens nothing any more.
pub mod Keeps
pub mod Presented
pub mod Steps
pub mod Renewed
use zendou_backend.Common.{
  ℕ, ◌+◌, ◌≤◌, ◌≡◌, ◌≢◌, ◌⊎◌, refl, sym, ap, ◌∙◌, inl, inr, Bool, true, false, not, ◌&&◌, ◌||◌,
  Option, none, some, List, [], ◌∷◌, ◌++◌, arith, ◌==◌, if◌then◌else◌, find, find_sound, count, all,
  update_where, remove_where, is_some, Bool-cases, Option-cases, and_left, and_right,
}
use zendou_backend.Text.{Text, text_eq}
use zendou_backend.Text.Laws.{text_eq_sound, text_eq_refl}
use zendou_backend.Schema.{Credential, World}
use zendou_backend.Credentials.Secrets.{Hashing, hash_for_storage, candidate_hashes, has_hash}
use zendou_backend.Credentials.{
  Table, api_keys_table, smtp_credentials_table, find_owned, update_by_id, revoke_row, rotate_row,
  CredentialReply, given, thrown, revoke, purge, rotate,
}

pub data Channel : Type 0 where
  by_api_key by_smtp : Channel

abbrev pub table_of : Channel → Table
table_of by_api_key = api_keys_table
table_of by_smtp = smtp_credentials_table

abbrev pub rows_of : Channel → World → List Credential
rows_of ch w = (table_of ch).rows w

pub rows-put :
    (ch : Channel) (rows : List Credential) (w : World)
    → rows_of ch ((table_of ch).put rows w) ≡ rows
rows-put by_api_key rows w = refl
rows-put by_smtp rows w = refl

-- The secret is found under one of its hashes.
abbrev pub is_known : Hashing → Text → Credential → Bool
is_known h secret c = has_hash (candidate_hashes h secret) c.secret_hash

abbrev pub is_dead_row : Hashing → Text → Credential → Bool
is_dead_row h secret c = not (is_known h secret c) || is_some c.revoked_at

-- Every row that the secret would find is revoked.
abbrev pub IsDead : Hashing → Text → Channel → World → Type 0
IsDead h secret ch w = all (is_dead_row h secret) (rows_of ch w) ≡ true

-- The secret finds at most the row of this id, which is a primary key.
pub record IsOnly (h : Hashing) (secret : Text) (id : ℕ) (rows : List Credential) : Type 0 where
  pub found : all (λ c. not (is_known h secret c) || c.id == id) rows ≡ true
  pub keyed : count (λ c. c.id == id) rows ≤ 1

-- Another secret is stored under another hash.
abbrev pub IsFresh : Hashing → Text → Text → Type 0
IsFresh h secret other = has_hash (candidate_hashes h secret) (hash_for_storage h other) ≡ false

module _ (p : Credential → Bool) where
  pub all-update :
      (q : Credential → Bool) (f : Credential → Credential)
      → ((c : Credential) → q c ≡ true → p c ≡ true → p (f c) ≡ true)
      → (rows : List Credential) → all p rows ≡ true
      → all p (update_where q f rows) ≡ true
  all-update q f keeps [] h = refl
  all-update q f keeps (c ∷ rows) h = ground (arith, h, keeps c, all-update q f keeps rows)

  pub all-remove :
      (q : Credential → Bool) (rows : List Credential)
      → all p rows ≡ true
      → all p (remove_where q rows) ≡ true
  all-remove q [] h = refl
  all-remove q (c ∷ rows) h = ground (arith, h, all-remove q rows)

  pub all-append :
      (rows : List Credential) (c : Credential)
      → all p rows ≡ true
      → p c ≡ true
      → all p (rows ++ c ∷ []) ≡ true
  all-append [] c h e = ground (arith, e)
  all-append (x ∷ rows) c h e = ground (arith, h, all-append rows c)

  pub all-find :
      (q : Credential → Bool) (rows : List Credential) (c : Credential)
      → all p rows ≡ true
      → find q rows ≡ some c
      → p c ≡ true
  all-find q [] c h e = cc
  all-find q (x ∷ rows) c h e = elim (Bool-cases (q x)) [
    | inl hit ↦ let same : x ≡ c = cc (rw hit at e) in cc (ap p same, and_left (p x) (all p rows) h)
    | inr miss ↦ all-find q rows c (and_right (p x) (all p rows) h) (rw miss at e)
  ]

module _ (h : Hashing) (secret : Text) (id : ℕ) where
  -- All the rows of this id are revoked, or gone, or known under another hash.
  cut-dead :
      (f : Credential → Credential)
      → ((c : Credential) → is_dead_row h secret (f c) ≡ true)
      → (rows : List Credential) → all (λ c. not (is_known h secret c) || c.id == id) rows ≡ true
      → all (is_dead_row h secret) (update_where (λ c. c.id == id) f rows) ≡ true
  cut-dead f dead [] only = refl
  cut-dead f dead (c ∷ rows) only = ground (arith, only, dead c, cut-dead f dead rows)

  purged-dead :
      (rows : List Credential)
      → all (λ c. not (is_known h secret c) || c.id == id) rows ≡ true
      → all (is_dead_row h secret) (remove_where (λ c. c.id == id) rows) ≡ true
  purged-dead [] only = refl
  purged-dead (c ∷ rows) only = ground (arith, only, purged-dead rows)

  none-dead :
      (rows : List Credential)
      → all (λ c. not (is_known h secret c) || c.id == id) rows ≡ true
      → count (λ c. c.id == id) rows ≡ 0
      → all (is_dead_row h secret) rows ≡ true
  none-dead [] only none_left = refl
  none-dead (c ∷ rows) only none_left = ground (arith, only, none_left, none-dead rows)

  pub none_owned :
      (user : ℕ) (rows : List Credential)
      → count (λ c. c.id == id) rows ≡ 0
      → find_owned user id rows ≡ none
  none_owned user [] none_left = refl
  none_owned user (c ∷ rows) none_left = ground (arith, none_left, none_owned user rows)

  -- The only row is revoked already.
  already-dead :
      (user : ℕ) (rows : List Credential) (c : Credential)
      → IsOnly h secret id rows
      → find_owned user id rows ≡ some c
      → is_some c.revoked_at ≡ true
      → all (is_dead_row h secret) rows ≡ true
  already-dead user [] c only e r = refl
  already-dead user (x ∷ rows) c only e r =
      let others : all (λ c. not (is_known h secret c) || c.id == id) rows ≡ true =
        and_right (not (is_known h secret x) || x.id == id) _ only.found in
      elim (Bool-cases (x.id == id)) [
        | inl hit ↦
            let none_left : count (λ (y : Credential). y.id == id) rows ≡ 0 =
              ground (arith, only.keyed, hit) in
            let rest = none-dead rows others none_left in
            elim (Bool-cases (x.user_id == user)) [
              | inl own ↦
                  let same : x ≡ c = cc (rw (hit, own) at e) in
                  let gone : is_some x.revoked_at ≡ true =
                    cc (ap (λ (y : Credential). is_some y.revoked_at) same, r) in
                  ground (arith, gone, rest)
              | inr theirs ↦ cc (none_owned user rows none_left, rw (hit, theirs) at e)
            ]
        | inr miss ↦
            let rest =
              already-dead user rows c
                (record { found = others; keyed = ground (arith, only.keyed, miss) }) (rw miss at e)
                r in
            ground (arith, only.found, miss, rest)
      ]
