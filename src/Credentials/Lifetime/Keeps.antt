-- ===== src/Credentials/Lifetime/Keeps.antt =====
-- Each operation on credentials keeps a cut secret dead.
use zendou_backend.Common.{
  ℕ, ◌≡◌, ◌⊎◌, refl, inl, inr, true, arith, ◌==◌, is_some, Bool-cases, Option-cases,
}
use zendou_backend.Text.{Text}
use zendou_backend.Schema.{Credential, World}
use zendou_backend.Credentials.Secrets.{Hashing}
use zendou_backend.Credentials.{
  find_owned, update_by_id, revoke_row, rotate_row, CredentialReply, CredentialError, given, thrown,
  CreateInput, create, created_row, resolve_credential_scope, revoke, purge, rotate,
}
use zendou_backend.Credentials.Lifetime.{
  Channel, table_of, rows_of, rows-put, is_dead_row, IsDead, IsFresh, all-update, all-remove,
  all-append,
}

reply-cases :
    {A : Type 0} (r : CredentialReply A)
    → ((error : CredentialError) × (r ≡ thrown error)) ⊎ ((a : A) × (r ≡ given a))
reply-cases (thrown error) = inl (error, refl)
reply-cases (given a) = inr (a, refl)

module _ (h : Hashing) (secret : Text) (ch : Channel) where
  pub update-IsDead :
      (id : ℕ) (f : Credential → Credential) (w : World)
      → ((c : Credential) → is_dead_row h secret c ≡ true → is_dead_row h secret (f c) ≡ true)
      → IsDead h secret ch w
      → IsDead h secret ch (update_by_id (table_of ch) id f w)
  update-IsDead id f w keeps dead =
      rw (rows-put ch) (
        all-update (is_dead_row h secret) (λ c. c.id == id) f (λ c hit. keeps c) (rows_of ch w)
          dead)

  pub revoke-IsDead :
      (now user id : ℕ) (w : World)
      → IsDead h secret ch w
      → IsDead h secret ch (revoke (table_of ch) now user id w).1
  unfolding revoke
  revoke-IsDead now user id w dead = elim (Option-cases (find_owned user id (rows_of ch w))) [
    | inl missing ↦ rw missing dead
    | inr (c, found) ↦ elim (Bool-cases (is_some c.revoked_at)) [
      | inl already ↦ rw found (rw already dead)
      | inr active ↦
          rw found (rw active (update-IsDead id (revoke_row now) w (λ c d. ground (arith, d)) dead))
    ]
  ]

  pub purge-IsDead :
      (user id : ℕ) (w : World)
      → IsDead h secret ch w
      → IsDead h secret ch (purge (table_of ch) user id w).1
  unfolding purge
  purge-IsDead user id w dead = elim (Option-cases (find_owned user id (rows_of ch w))) [
    | inl missing ↦ rw missing dead
    | inr (c, found) ↦ elim (Bool-cases (is_some c.revoked_at)) [
      | inl already ↦
          rw found (
            rw already (rw (rows-put ch) (all-remove (is_dead_row h secret) _ (rows_of ch w) dead)))
      | inr active ↦ rw found (rw active dead)
    ]
  ]

  pub rotate-IsDead :
      (now : ℕ) (other : Text) (user id : ℕ) (w : World)
      → IsFresh h secret other
      → IsDead h secret ch w
      → IsDead h secret ch (rotate (table_of ch) h now other user id w).1
  unfolding rotate
  rotate-IsDead now other user id w fresh dead =
      elim (Option-cases (find_owned user id (rows_of ch w))) [
        | inl missing ↦ rw missing dead
        | inr (c, found) ↦ elim (Bool-cases (is_some c.revoked_at)) [
          | inl already ↦ rw found (rw already dead)
          | inr active ↦
              rw found (
                rw active (update-IsDead id (rotate_row h now other) w (λ c d. rw fresh refl) dead))
        ]
      ]

  pub create-IsDead :
      (user : ℕ) (input : CreateInput) (w : World)
      → IsFresh h secret input.secret
      → IsDead h secret ch w
      → IsDead h secret ch (create (table_of ch) h user input w).1
  unfolding create
  create-IsDead user input w fresh dead =
      elim (reply-cases (resolve_credential_scope user input.domain_ids w)) [
        | inl (error, e) ↦ rw e dead
        | inr (scope, e) ↦ rw e (
            rw (rows-put ch) (
              all-append (is_dead_row h secret) (rows_of ch w) (created_row h user input scope) dead
                (rw fresh refl)))
      ]
