-- ===== src/Credentials/Lifetime/Presented.antt =====
-- A dead secret is refused, and a presentation of another one does not revive it.
use zendou_backend.Common.{
  ℕ, ◌≡◌, ◌⊎◌, refl, ap, inl, inr, Bool, true, not, ◌&&◌, ◌||◌, Option, none, some, List, [], ◌∷◌,
  arith, find_sound, all, is_some, Bool-cases, Option-cases,
}
use zendou_backend.Text.{Text, text_eq}
use zendou_backend.Text.Laws.{text_eq_sound, text_eq_refl}
use zendou_backend.Schema.{Credential, User, World, find_user, is_suspended}
use zendou_backend.Credentials.Secrets.{
  Hashing, hash_for_storage, candidate_hashes, has_hash, is_legacy,
}
use zendou_backend.Credentials.{api_keys_table}
use zendou_backend.Credentials.Guard.{
  Attempt, GuardState, first_found, by_hash, migrated_row, used_row, migrate, check_key,
  can_activate, refused_by, admit, extract_bearer_token, secret_matches, check_smtp, by_username,
}
use zendou_backend.Credentials.Lifetime.{
  Channel, by_api_key, by_smtp, table_of, is_dead_row, IsDead, IsFresh, all-find,
}
use zendou_backend.Credentials.Lifetime.Keeps.{update-IsDead}

by_hash-known :
    (rows : List Credential) (hash : Text) (c : Credential)
    → by_hash rows hash ≡ some c
    → text_eq hash c.secret_hash ≡ true
by_hash-known rows hash c e =
    let same =
      text_eq_sound c.secret_hash hash
        (find_sound (λ (x : Credential). text_eq x.secret_hash hash) rows c e) in
    rw same (text_eq_refl hash)

first_found-known :
    (p : Credential → Bool) (rows : List Credential) (hashes : List Text) (c : Credential)
    → all p rows ≡ true
    → first_found rows hashes ≡ some c
    → (has_hash hashes c.secret_hash ≡ true) × (p c ≡ true)
first_found-known p rows [] c every e = cc
first_found-known p rows (hash ∷ hashes) c every e = elim (Option-cases (by_hash rows hash)) [
  | inl missing ↦
      let rest = first_found-known p rows hashes c every (rw (missing, first_found) at e) in
      (ground (arith, rest.0), rest.1)
  | inr (d, found) ↦
      let same : d ≡ c = cc (rw (found, first_found) at e) in
      let found_c : by_hash rows hash ≡ some c = cc (found, ap some same) in
      (
        ground (arith, by_hash-known rows hash c found_c),
        all-find p (λ x. text_eq x.secret_hash hash) rows c every found_c,
      )
]

secret_matches-known :
    (hashes : List Text) (hash : Text)
    → secret_matches hashes hash ≡ true
    → has_hash hashes hash ≡ true
unfolding secret_matches
secret_matches-known [] hash e = e
secret_matches-known (x ∷ xs) hash e = ground (arith, e, secret_matches-known xs hash)

module _ (h : Hashing) (secret : Text) where
  -- A presented secret is this one or has other hashes.
  abbrev pub IsApart : Text → Type 0
  IsApart other = (other ≡ secret) ⊎ IsFresh h secret other

  -- The guard refuses a key that is dead.
  pub key-refused :
      (a : Attempt) (s : GuardState)
      → IsDead h secret by_api_key s.world
      → check_key h a secret s (first_found s.world.api_keys (candidate_hashes h secret))
        ≡ refused_by a s
  key-refused a s dead =
      elim (Option-cases (first_found s.world.api_keys (candidate_hashes h secret))) [
        | inl missing ↦ rw missing refl
        | inr (c, found) ↦
            let known =
              first_found-known (is_dead_row h secret) s.world.api_keys (candidate_hashes h secret)
                c dead found in
            let revoked : is_some c.revoked_at ≡ true = ground (arith, known.0, known.1) in
            rw found (rw revoked refl)
      ]

  -- And the relay a dead secret.
  pub smtp-refused :
      (now : ℕ) (up : Bool) (w : World) (c : Credential)
      → is_dead_row h secret c ≡ true
      → check_smtp h now up secret w (some c) ≡ (none, w)
  smtp-refused now up w c dead =
      let matched = secret_matches-known (candidate_hashes h secret) c.secret_hash in
      let refuses : (is_some c.revoked_at
            || not (secret_matches (candidate_hashes h secret) c.secret_hash))
          ≡ true =
        ground (arith, dead, matched) in
      rw refuses refl

  pub username-refused :
      (now : ℕ) (up : Bool) (username : Text) (w : World)
      → IsDead h secret by_smtp w
      → check_smtp h now up secret w (by_username w.smtp_credentials username) ≡ (none, w)
  username-refused now up username w dead =
      elim (Option-cases (by_username w.smtp_credentials username)) [
        | inl missing ↦ rw missing refl
        | inr (c, found) ↦ rw found (
            smtp-refused now up w c
              (all-find (is_dead_row h secret) _ w.smtp_credentials c dead found))
      ]

  migrate-IsDead :
      (ch : Channel) (up : Bool) (other : Text) (c : Credential) (w : World)
      → IsFresh h secret other
      → IsDead h secret ch w
      → IsDead h secret ch (migrate (table_of ch) h up other c w)
  migrate-IsDead ch up other c w fresh dead =
      elim (Bool-cases (is_legacy h c.secret_hash other && up)) [
        | inl moves ↦ rw moves (
            update-IsDead h secret ch c.id (migrated_row (hash_for_storage h other)) w
              (λ d e. rw fresh refl) dead)
        | inr stays ↦ rw stays dead
      ]

  admit-IsDead :
      (a : Attempt) (c : Credential) (s : GuardState) (owner : Option User)
      → IsDead h secret by_api_key s.world
      → IsDead h secret by_api_key (admit a c s owner).1.world
  admit-IsDead a c s none dead = dead
  admit-IsDead a c s (some u) dead = elim (Bool-cases (is_suspended u.status)) [
    | inl suspended ↦ rw suspended dead
    | inr active ↦
        rw active (update-IsDead h secret by_api_key c.id (used_row a.now) s.world (λ d e. e) dead)
  ]

  check_key-IsDead :
      (a : Attempt) (other : Text) (s : GuardState) (found : Option Credential)
      → IsFresh h secret other
      → IsDead h secret by_api_key s.world
      → IsDead h secret by_api_key (check_key h a other s found).1.world
  check_key-IsDead a other s none fresh dead = dead
  check_key-IsDead a other s (some c) fresh dead = elim (Bool-cases (is_some c.revoked_at)) [
    | inl revoked ↦ rw revoked dead
    | inr active ↦ rw active (
        admit-IsDead a c _
          (find_user (migrate api_keys_table h a.migrates other c s.world) c.user_id)
          (migrate-IsDead by_api_key a.migrates other c s.world fresh dead))
  ]

  pub can_activate-IsDead :
      (a : Attempt) (header : Option Text) (s : GuardState)
      → ((key : Text) → extract_bearer_token header ≡ some key → IsApart key)
      → IsDead h secret by_api_key s.world
      → IsDead h secret by_api_key (can_activate h a header s).1.world
  unfolding can_activate
  can_activate-IsDead a header s apart dead = elim (Option-cases (extract_bearer_token header)) [
    | inl missing ↦ rw missing dead
    | inr (key, found) ↦ elim (apart key found) [
      | inl same ↦ rw found (rw same (rw (key-refused a s dead) dead))
      | inr fresh ↦ rw found (check_key-IsDead a key s _ fresh dead)
    ]
  ]

  pub check_smtp-IsDead :
      (now : ℕ) (up : Bool) (other : Text) (w : World) (found : Option Credential)
      → IsFresh h secret other
      → IsDead h secret by_smtp w
      → IsDead h secret by_smtp (check_smtp h now up other w found).1
  check_smtp-IsDead now up other w none fresh dead = dead
  check_smtp-IsDead now up other w (some c) fresh dead =
      elim (Bool-cases
        (is_some c.revoked_at || not (secret_matches (candidate_hashes h other) c.secret_hash))) [
          | inl refused ↦ rw refused dead
          | inr admitted ↦ rw admitted (
              update-IsDead h secret by_smtp c.id (used_row now)
                (migrate (table_of by_smtp) h up other c w) (λ d e. e)
                (migrate-IsDead by_smtp up other c w fresh dead))
        ]
