-- ===== src/Credentials/Lifetime/Steps.antt =====
-- The operations on credentials, in any order, after a secret has been cut.
use zendou_backend.Common.{
  ℕ, ◌≡◌, refl, inl, inr, Bool, ◌||◌, Option, none, some, arith, is_some, Bool-cases, Option-cases,
}
use zendou_backend.Text.{Text, is_blank}
use zendou_backend.Schema.{Credential, World}
use zendou_backend.RateLimit.{Hits}
use zendou_backend.Credentials.Secrets.{Hashing}
use zendou_backend.Credentials.{
  find_owned, revoke_row, rotate_row, given, CreateInput, create, revoke, purge, rotate,
}
use zendou_backend.Credentials.Guard.{
  Attempt, GuardState, can_activate, refused_by, extract_bearer_token, authenticate,
}
use zendou_backend.Credentials.Lifetime.{
  Channel, by_api_key, by_smtp, table_of, rows_of, rows-put, IsDead, IsOnly, IsFresh, cut-dead,
  purged-dead, already-dead,
}
use zendou_backend.Credentials.Lifetime.Keeps.{
  revoke-IsDead, purge-IsDead, rotate-IsDead, create-IsDead,
}
use zendou_backend.Credentials.Lifetime.Presented.{
  IsApart, key-refused, username-refused, can_activate-IsDead, check_smtp-IsDead,
}

module _ (h : Hashing) (secret : Text) where
  authenticate-IsDead :
      (now : ℕ) (up : Bool) (username other : Option Text) (w : World)
      → ((s : Text) → other ≡ some s → IsApart h secret s)
      → IsDead h secret by_smtp w
      → IsDead h secret by_smtp (authenticate h now up username other w).1
  unfolding authenticate
  authenticate-IsDead now up none other w apart dead = dead
  authenticate-IsDead now up (some username) none w apart dead = dead
  authenticate-IsDead now up (some username) (some other) w apart dead =
      elim (Bool-cases (is_blank username || is_blank other)) [
        | inl blank ↦ rw blank dead
        | inr full ↦ elim (apart other refl) [
          | inl same ↦
              rw full (rw same (rw (username-refused h secret now up username w dead) dead))
          | inr fresh ↦ rw full (check_smtp-IsDead h secret now up other w _ fresh dead)
        ]
      ]

  -- An operation on the credentials of a channel, and what leaves its table alone. Every new secret
  -- is another one, and so is every secret presented, or it is this one again.
  pub data Step : Channel → World → World → Type 0 where
    creates :
        (ch : Channel) (user : ℕ) (input : CreateInput) (w : World)
        → IsFresh h secret input.secret
        → Step ch w (create (table_of ch) h user input w).1
    revokes :
        (ch : Channel) (now user id : ℕ) (w : World)
        → Step ch w (revoke (table_of ch) now user id w).1
    rotates :
        (ch : Channel) (now : ℕ) (other : Text) (user id : ℕ) (w : World)
        → IsFresh h secret other
        → Step ch w (rotate (table_of ch) h now other user id w).1
    purges : (ch : Channel) (user id : ℕ) (w : World) → Step ch w (purge (table_of ch) user id w).1
    activates :
        (a : Attempt) (header : Option Text) (s : GuardState)
        → ((key : Text) → extract_bearer_token header ≡ some key → IsApart h secret key)
        → Step by_api_key s.world (can_activate h a header s).1.world
    authenticates :
        (now : ℕ) (up : Bool) (username other : Option Text) (w : World)
        → ((s : Text) → other ≡ some s → IsApart h secret s)
        → Step by_smtp w (authenticate h now up username other w).1
    elsewhere : (ch : Channel) (w w' : World) → rows_of ch w' ≡ rows_of ch w → Step ch w w'

  pub data Reach (ch : Channel) (w : World) : World → Type 0 where
    here : Reach ch w w
    next : {u v : World} → Reach ch w u → Step ch u v → Reach ch w v

  Step-IsDead :
      (ch : Channel) (v w : World) → Step ch v w → IsDead h secret ch v → IsDead h secret ch w
  Step-IsDead ch v w (creates c user input u fresh) dead =
      create-IsDead h secret c user input u fresh dead
  Step-IsDead ch v w (revokes c now user id u) dead = revoke-IsDead h secret c now user id u dead
  Step-IsDead ch v w (rotates c now other user id u fresh) dead =
      rotate-IsDead h secret c now other user id u fresh dead
  Step-IsDead ch v w (purges c user id u) dead = purge-IsDead h secret c user id u dead
  Step-IsDead ch v w (activates a header s apart) dead =
      can_activate-IsDead h secret a header s apart dead
  Step-IsDead ch v w (authenticates now up username other u apart) dead =
      authenticate-IsDead now up username other u apart dead
  Step-IsDead ch v w (elsewhere c u u' same) dead = rw same dead

  Reach-IsDead :
      (ch : Channel) (v w : World) → Reach ch v w → IsDead h secret ch v → IsDead h secret ch w
  Reach-IsDead ch v w here dead = dead
  Reach-IsDead ch v w (next {u} reach step) dead =
      Step-IsDead ch u w step (Reach-IsDead ch v u reach dead)

  -- A revocation, a rotation to another secret or a purge that is answered without an error.
  pub data Cut (ch : Channel) (id : ℕ) (w : World) : World → Type 0 where
    by_revocation :
        (now user : ℕ)
        → (revoke (table_of ch) now user id w).0 ≡ given tt
        → Cut ch id w (revoke (table_of ch) now user id w).1
    by_rotation :
        (now user : ℕ) (other : Text) (row : Credential)
        → IsFresh h secret other
        → (rotate (table_of ch) h now other user id w).0 ≡ given row
        → Cut ch id w (rotate (table_of ch) h now other user id w).1
    by_purge :
        (user : ℕ)
        → (purge (table_of ch) user id w).0 ≡ given tt
        → Cut ch id w (purge (table_of ch) user id w).1

  Cut-IsDead :
      (ch : Channel) (id : ℕ) (w w' : World)
      → Cut ch id w w'
      → IsOnly h secret id (rows_of ch w)
      → IsDead h secret ch w'
  unfolding revoke rotate purge
  Cut-IsDead ch id w w' (by_revocation now user e) only =
      elim (Option-cases (find_owned user id (rows_of ch w))) [
        | inl missing ↦ cc (rw missing at e)
        | inr (c, found) ↦ elim (Bool-cases (is_some c.revoked_at)) [
          | inl already ↦
              rw found
                (rw already (already-dead h secret id user (rows_of ch w) c only found already))
          | inr active ↦ rw found (
              rw active (
                rw (rows-put ch) (
                  cut-dead h secret id (revoke_row now) (λ d. ground arith) (rows_of ch w)
                    only.found)))
        ]
      ]
  Cut-IsDead ch id w w' (by_rotation now user other row fresh e) only =
      elim (Option-cases (find_owned user id (rows_of ch w))) [
        | inl missing ↦ cc (rw missing at e)
        | inr (c, found) ↦ elim (Bool-cases (is_some c.revoked_at)) [
          | inl already ↦ cc (rw (found, already) at e)
          | inr active ↦ rw found (
              rw active (
                rw (rows-put ch) (
                  cut-dead h secret id (rotate_row h now other) (λ d. rw fresh refl) (rows_of ch w)
                    only.found)))
        ]
      ]
  Cut-IsDead ch id w w' (by_purge user e) only =
      elim (Option-cases (find_owned user id (rows_of ch w))) [
        | inl missing ↦ cc (rw missing at e)
        | inr (c, found) ↦ elim (Bool-cases (is_some c.revoked_at)) [
          | inl revoked ↦
              rw found
                (rw revoked (rw (rows-put ch) (purged-dead h secret id (rows_of ch w) only.found)))
          | inr active ↦ cc (rw (found, active) at e)
        ]
      ]

  -- The presentation of the secret on its channel is refused; only the counter of failures moves.
  pub IsRefused : Channel → Attempt → Option Text → Hits → ℕ → Bool → Option Text → World → Type 0
  IsRefused by_api_key a header hits now up username w =
      can_activate h a header (record { world = w; hits = hits })
      ≡ refused_by a (record { world = w; hits = hits })
  IsRefused by_smtp a header hits now up username w =
      authenticate h now up username (some secret) w ≡ (none, w)

  -- A secret that is revoked, rotated to another one or purged opens nothing any more: while the
  -- secret finds one row only and other secrets have other hashes, after any sequence of creations,
  -- revocations, rotations, purges and presentations of any secrets, an API key is refused by the
  -- guard and a password by the relay, whatever the user name, and nothing is written but the
  -- counter of failures.
  pub closed_for_good :
      (ch : Channel) (id : ℕ) (v u w : World) (a : Attempt) (header : Option Text) (hits : Hits)
      (now : ℕ) (up : Bool) (username : Option Text)
      → IsOnly h secret id (rows_of ch v)
      → Cut ch id v u
      → Reach ch u w
      → extract_bearer_token header ≡ some secret
      → IsRefused ch a header hits now up username w
  unfolding IsRefused can_activate authenticate
  closed_for_good by_api_key id v u w a header hits now up username only cut reach e = rw e (
      key-refused h secret a (record { world = w; hits = hits })
        (Reach-IsDead by_api_key u w reach (Cut-IsDead by_api_key id v u cut only)))
  closed_for_good by_smtp id v u w a header hits now up none only cut reach e = refl
  closed_for_good by_smtp id v u w a header hits now up (some username) only cut reach e =
      elim (Bool-cases (is_blank username || is_blank secret)) [
        | inl blank ↦ rw blank refl
        | inr full ↦ rw full (
            username-refused h secret now up username w
              (Reach-IsDead by_smtp u w reach (Cut-IsDead by_smtp id v u cut only)))
      ]
