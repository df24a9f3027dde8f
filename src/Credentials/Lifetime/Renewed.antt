-- ===== src/Credentials/Lifetime/Renewed.antt =====
-- A key that is rotated opens with its new secret.
use zendou_backend.Common.{
  ℕ, Bool, find-update_any, find_sound, ==_iff, and_left, and_right, ◌≤◌, ◌≡◌, refl, ap, ◌∙◌, inl,
  inr, true, false, not, ◌&&◌, Option, some, List, [], ◌∷◌, arith, ◌==◌, count, all, update_where,
  is_some, Bool-cases, Option-cases,
}
use zendou_backend.Text.{take, Text, text_eq}
use zendou_backend.Text.Laws.{text_eq_sound, text_eq_refl}
use zendou_backend.Schema.{Credential, User, World, find_user, is_suspended}
use zendou_backend.RateLimit.{Hits}
use zendou_backend.Credentials.Secrets.{Hashing, hash_for_storage, candidate_hashes, is_legacy}
use zendou_backend.Credentials.{api_keys_table, find_owned, rotate_row, given, rotate}
use zendou_backend.Credentials.Guard.{
  Attempt, GuardState, passed, first_found, by_hash, migrate, admit, check_key, can_activate,
  extract_bearer_token,
}
use zendou_backend.Credentials.Lifetime.{is_known, none_owned}

-- The stored form is looked for first.
candidates-stored :
    (h : Hashing) (secret : Text)
    → (rest : List Text) × (candidate_hashes h secret ≡ hash_for_storage h secret ∷ rest)
unfolding candidate_hashes hash_for_storage
candidates-stored h secret = elim (Option-cases h.pepper) [
  | inl none_set ↦ ([], rw none_set refl)
  | inr (pepper, set) ↦ (h.sha256 secret ∷ [], rw set refl)
]

module _ (h : Hashing) (now : ℕ) (secret : Text) (id user : ℕ) where
  stored-known :
      (c : Credential)
      → is_known h secret c ≡ false
      → text_eq c.secret_hash (hash_for_storage h secret) ≡ false
  stored-known c unknown = elim (Bool-cases (text_eq c.secret_hash (hash_for_storage h secret))) [
    | inr differ ↦ differ
    | inl same ↦
        let own = text_eq_sound c.secret_hash (hash_for_storage h secret) same in
        let (rest, stored) = candidates-stored h secret in
        let known : is_known h secret c ≡ true =
          rw stored (rw own (ground (arith, text_eq_refl (hash_for_storage h secret)))) in
        cc (known, unknown)
  ]

  rotated-found :
      (rows : List Credential) (c : Credential)
      → find_owned user id rows ≡ some c
      → count (λ d. d.id == id) rows ≤ 1
      → all (λ d. not (is_known h secret d)) rows ≡ true
      → by_hash
          (update_where (λ d. d.id == id) (rotate_row h now secret) rows)
          (hash_for_storage h secret)
        ≡ some (rotate_row h now secret c)
  rotated-found [] c e keyed unknown = cc
  rotated-found (x ∷ rows) c e keyed unknown = elim (Bool-cases (x.id == id)) [
    | inl hit ↦ elim (Bool-cases (x.user_id == user)) [
      | inl own ↦
          let same : x ≡ c = cc (rw (hit, own) at e) in
          rw hit (
            rw (text_eq_refl (hash_for_storage h secret))
              (ap (λ (d : Credential). some (rotate_row h now secret d)) same))
      | inr theirs ↦
          cc (none_owned h secret id user rows (ground (arith, keyed, hit)), rw (hit, theirs) at e)
    ]
    | inr miss ↦
        let other = stored-known x (ground (arith, unknown)) in
        rw miss (
          rw other (
            rotated-found rows c (rw miss at e) (ground (arith, keyed, miss))
              (ground (arith, unknown))))
  ]

owned-keys :
    (user id : ℕ) (rows : List Credential) (c : Credential)
    → find_owned user id rows ≡ some c
    → (c.id ≡ id) × (c.user_id ≡ user)
owned-keys user id rows c owned =
    let both = find_sound (λ (d : Credential). d.id == id && d.user_id == user) rows c owned in
    (
      (==_iff c.id id).0 (and_left (c.id == id) (c.user_id == user) both),
      (==_iff c.user_id user).0 (and_right (c.id == id) (c.user_id == user) both),
    )

passed_as :
    {owner user key id : ℕ}
    → owner ≡ user
    → key ≡ id
    → (can_read : Bool) → passed owner key can_read ≡ passed user id can_read
passed_as same_owner same_key can_read = rw same_owner (rw same_key refl)

module _ (h : Hashing) (a : Attempt) where
  -- The row of a key after its rotation.
  rotated-owned :
      (now : ℕ) (secret : Text) (user id : ℕ) (rows : List Credential) (c : Credential)
      → find_owned user id rows ≡ some c
      → find_owned user id (update_where (λ d. d.id == id) (rotate_row h now secret) rows)
        ≡ some (rotate_row h now secret c)
  rotated-owned now secret user id rows c owned =
      let (same_id, _) = owned-keys user id rows c owned in
      let hit : (c.id == id) ≡ true = (==_iff c.id id).1 same_id in
      find-update_any (λ (d : Credential). d.id == id && d.user_id == user)
        (rotate_row h now secret) (λ d. d.id == id) rows c (λ d. refl) owned
      ∙ rw hit refl

  find_user-migrate :
      (secret : Text) (c : Credential) (w : World) (user : ℕ)
      → find_user (migrate api_keys_table h a.migrates secret c w) user ≡ find_user w user
  find_user-migrate secret c w user =
      elim (Bool-cases (is_legacy h c.secret_hash secret && a.migrates)) [
        | inl moves ↦ rw moves refl
        | inr stays ↦ rw stays refl
      ]

  admit-passes :
      (c : Credential) (s : GuardState) (owner : User)
      → find_user s.world c.user_id ≡ some owner
      → is_suspended owner.status ≡ false
      → (admit a c s (find_user s.world c.user_id)).0 ≡ passed owner.id c.id c.can_read
  admit-passes c s owner found active = rw found (rw active refl)

  check_key-passes :
      (secret : Text) (c : Credential) (s : GuardState) (owner : User)
      → is_some c.revoked_at ≡ false
      → find_user s.world c.user_id ≡ some owner
      → is_suspended owner.status ≡ false
      → (check_key h a secret s (some c)).0 ≡ passed owner.id c.id c.can_read
  check_key-passes secret c s owner live found active =
      rw live (admit-passes c _ owner (find_user-migrate secret c s.world c.user_id ∙ found) active)

  -- A key that is rotated is accepted with the secret of the answer, for the client that asked and
  -- with the id and the right to read that the key had before; its row differs from that of before
  -- in its prefix, its hash and the date of the rotation only, so that its domains are the same.
  -- This holds while the ids of the keys are unique, the new secret is known to no key before, and
  -- the client is not suspended.
  pub rotate-passes :
      (now : ℕ) (secret : Text) (user id : ℕ) (w : World) (row : Credential) (owner : User)
      (header : Option Text) (hits : Hits)
      → count (λ c. c.id == id) w.api_keys ≤ 1
      → all (λ c. not (is_known h secret c)) w.api_keys ≡ true
      → (rotate api_keys_table h now secret user id w).0 ≡ given row
      → find_user w user ≡ some owner
      → is_suspended owner.status ≡ false
      → extract_bearer_token header ≡ some secret
      → let w' = (rotate api_keys_table h now secret user id w).1 in
        (c : Credential) × (find_owned user id w.api_keys ≡ some c)
        × (find_owned user id w'.api_keys
            ≡ some (record c {
              prefix = take 12 secret;
              secret_hash = hash_for_storage h secret;
              rotated_at = some now;
            }))
        × ((can_activate h a header (record { world = w'; hits = hits })).0
            ≡ passed user id c.can_read)
  unfolding rotate can_activate
  rotate-passes now secret user id w row owner header hits keyed unknown done found active e =
      elim (Option-cases (find_owned user id w.api_keys)) [
        | inl missing ↦ cc (rw missing at done)
        | inr (c, owned) ↦ elim (Bool-cases (is_some c.revoked_at)) [
          | inl revoked ↦ cc (rw (owned, revoked) at done)
          | inr live ↦
              let (same_id, same_user) = owned-keys user id w.api_keys c owned in
              let owner_id : owner.id ≡ user =
                (==_iff owner.id user).0
                  (find_sound (λ (u : User). u.id == user) w.users owner found) in
              let stored = rotated-found h now secret id user w.api_keys c owned keyed unknown in
              let rows' = update_where (λ d. d.id == id) (rotate_row h now secret) w.api_keys in
              let (rest, candidates) = candidates-stored h secret in
              let renewed = rotate_row h now secret c in
              let presented : first_found rows' (candidate_hashes h secret) ≡ some renewed =
                rw candidates (rw (stored, first_found) refl) in
              let entry =
                check_key-passes secret renewed
                  (record { world = record w { api_keys = rows' }; hits = hits }) owner live
                  (ap (find_user w) same_user ∙ found) active in
              (
                c,
                owned,
                rw owned (rw live (rotated-owned now secret user id w.api_keys c owned)),
                rw owned
                    (rw live (rw e (rw presented (entry ∙ passed_as owner_id same_id c.can_read)))),
              )
        ]
      ]
