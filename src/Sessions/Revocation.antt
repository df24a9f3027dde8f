-- ===== src/Sessions/Revocation.antt =====
-- The sessions of a client through time, and their revocation.
use zendou_backend.Common.{
  ℕ, ◌≤◌, ◌<◌, ◌≡◌, ◌≢◌, refl, sym, ap, inl, inr, true, Option, none, some, arith, ltb, ◌==◌,
  Bool-cases, Option-cases,
}
use mathlib.Core.Path.{subst}
use zendou_backend.Schema.{Session, World}
use zendou_backend.Sessions.{
  live_session, live_set, tokens_of, has_token, opened, put_session, create_session,
  resolve_session, peek_session, destroy_session, destroy_all_for_user,
}
use zendou_backend.Sessions.Index.{IsIndexed, aged, live_runs, destroy_all_for_user-ends}
use zendou_backend.Sessions.Kept.{
  fewer-IsIndexed, create_session-IsIndexed, resolve_session-IsIndexed, destroy_session-IsIndexed,
  destroy_all_for_user-IsIndexed,
}

-- An operation at an instant, with the client for which it opens a session, if it does. The other
-- parts of the program leave the sessions alone.
pub data Step (now : ℕ) : Option ℕ → World → World → Type 0 where
  creates : (token user : ℕ) (w : World) → Step now (some user) w (create_session now token user w)
  resolves : (token : ℕ) (w : World) → Step now none w (resolve_session now token w).1
  destroys : (token : ℕ) (w : World) → Step now none w (destroy_session now token w)
  revokes : (user : ℕ) (w : World) → Step now none w (destroy_all_for_user now user w)
  elsewhere :
      (w w' : World)
      → w'.sessions ≡ w.sessions
      → w'.session_sets ≡ w.session_sets
      → Step now none w w'

-- What has run up to an instant, from a store without sessions.
pub data Ran : ℕ → World → Type 0 where
  start : (now : ℕ) (w : World) → ((t : ℕ) → w.sessions t ≡ none) → Ran now w
  next :
      {now later : ℕ} {who : Option ℕ} {w w' : World}
      → Ran now w
      → now ≤ later
      → Step later who w w'
      → Ran later w'

-- What runs from one instant to another without opening a session for this client.
pub data Without (user now : ℕ) (w : World) : ℕ → World → Type 0 where
  here : Without user now w now w
  next :
      {at later : ℕ} {who : Option ℕ} {v v' : World}
      → Without user now w at v
      → at ≤ later
      → who ≢ some user
      → Step later who v v'
      → Without user now w later v'

Step-IsIndexed :
    (now : ℕ) (who : Option ℕ) (w w' : World)
    → Step now who w w'
    → IsIndexed now w
    → IsIndexed now w'
Step-IsIndexed now who w w' (creates token user v) h = create_session-IsIndexed now v h token user
Step-IsIndexed now who w w' (resolves token v) h = resolve_session-IsIndexed now v h token
Step-IsIndexed now who w w' (destroys token v) h = destroy_session-IsIndexed now v h token
Step-IsIndexed now who w w' (revokes user v) h = destroy_all_for_user-IsIndexed now v h user
Step-IsIndexed now who w w' (elsewhere v v' same sets) h =
    fewer-IsIndexed now v h v' (λ t s at. rw (sym same) at) sets

Ran-IsIndexed : (now : ℕ) (w : World) → Ran now w → IsIndexed now w
unfolding IsIndexed
Ran-IsIndexed now w (start now' w' empty) = λ t s at runs. cc (empty t, at)
Ran-IsIndexed now w (next {now = before} {who} {w = v} ran after step) =
    Step-IsIndexed now who v w step (aged before now v after (Ran-IsIndexed before v ran))

-- No session that runs is of this client.
abbrev pub IsEnded : ℕ → ℕ → World → Type 0
IsEnded user now w =
    (t : ℕ) (s : Session) → w.sessions t ≡ some s → now < s.expires_at → s.user_id ≢ user

put-IsEnded :
    (user now token : ℕ) (session : Option Session) (w : World)
    → ((s : Session) → session ≡ some s → s.user_id ≢ user)
    → IsEnded user now w
    → IsEnded user now (put_session token session w)
put-IsEnded user now token session w news h t s at runs = elim (Bool-cases (t == token)) [
  | inl same ↦ news s (rw same at at)
  | inr other ↦ h t s (rw other at at) runs
]

opened-differs :
    (user now other : ℕ) (s : Session)
    → other ≢ user
    → some (opened now other) ≡ some s
    → s.user_id ≢ user
opened-differs user now other s differ e =
    let same : opened now other ≡ s = cc in subst (λ (x : Session). x.user_id ≢ user) same differ

resolve-IsEnded :
    (user now token : ℕ) (w : World)
    → IsEnded user now w
    → IsEnded user now (resolve_session now token w).1
unfolding resolve_session
resolve-IsEnded user now token w h = elim (Option-cases (live_session now (w.sessions token))) [
  | inl absent ↦ rw absent h
  | inr (s, live) ↦
      let running = live_runs now (w.sessions token) s live in
      rw live (
        put-IsEnded user now token _ w
          (λ s' e. opened-differs user now s.user_id s' (h token s running.0 running.1) e) h)
]

destroy-IsEnded :
    (user now token : ℕ) (w : World)
    → IsEnded user now w
    → IsEnded user now (destroy_session now token w)
unfolding destroy_session
destroy-IsEnded user now token w h = elim (Option-cases (live_session now (w.sessions token))) [
  | inl absent ↦ rw absent (put-IsEnded user now token none w (λ s' e. cc) h)
  | inr (s, live) ↦ rw live (put-IsEnded user now token none w (λ s' e. cc) h)
]

revoke-IsEnded :
    (user now other : ℕ) (w : World)
    → IsEnded user now w
    → IsEnded user now (destroy_all_for_user now other w)
unfolding destroy_all_for_user
revoke-IsEnded user now other w h t s at =
    elim (Bool-cases (has_token (tokens_of (live_set now (w.session_sets other))) t)) [
      | inl revoked ↦ cc (rw revoked at at)
      | inr kept ↦ h t s (rw kept at at)
    ]

Step-IsEnded :
    (user now : ℕ) (who : Option ℕ) (w w' : World)
    → who ≢ some user
    → Step now who w w'
    → IsEnded user now w
    → IsEnded user now w'
unfolding create_session
Step-IsEnded user now who w w' differ (creates token other v) h =
    put-IsEnded user now token _ v
      (λ s e. opened-differs user now other s (λ same. differ (ap some same)) e) h
Step-IsEnded user now who w w' differ (resolves token v) h = resolve-IsEnded user now token v h
Step-IsEnded user now who w w' differ (destroys token v) h = destroy-IsEnded user now token v h
Step-IsEnded user now who w w' differ (revokes other v) h = revoke-IsEnded user now other v h
Step-IsEnded user now who w w' differ (elsewhere v v' same sets) h =
    λ t s at. h t s (rw (sym same) at)

Without-IsEnded :
    (user now : ℕ) (w : World) (later : ℕ) (w' : World)
    → Without user now w later w'
    → IsEnded user now w
    → IsEnded user later w'
Without-IsEnded user now w later w' here h = h
Without-IsEnded user now w later w' (next {at} {who} {v} run after differ step) h =
    let before = Without-IsEnded user now w at v run h in
    Step-IsEnded user later who v w' differ step
      (λ t s e runs. before t s e (omega (arith, after, runs)))

-- A session that runs is one that is read.
peek-IsEnded :
    (user now : ℕ) (w : World) → ((t : ℕ) → peek_session now t w ≢ some user) → IsEnded user now w
unfolding peek_session
peek-IsEnded user now w none_read t s at runs own =
    let running : ltb now s.expires_at ≡ true = ground arith in
    none_read t (rw (at, running) (ap some own))

IsEnded-peek : (user now t : ℕ) (w : World) → IsEnded user now w → peek_session now t w ≢ some user
unfolding peek_session
IsEnded-peek user now t w h e = elim (Option-cases (live_session now (w.sessions t))) [
  | inl absent ↦ cc (rw absent at e)
  | inr (s, live) ↦
      let running = live_runs now (w.sessions t) s live in
      h t s running.0 running.1 (cc (rw live at e))
]

-- A resolution answers what a reading answers.
resolve_session-peek : (now t : ℕ) (w : World) → (resolve_session now t w).0 ≡ peek_session now t w
unfolding resolve_session peek_session
resolve_session-peek now t w = elim (Option-cases (live_session now (w.sessions t))) [
  | inl absent ↦ rw absent refl
  | inr (s, live) ↦ rw live refl
]

-- The revocation of a client's sessions is complete and lasting: in a store that had no session at
-- first, whatever operations on sessions of any clients have run at instants that do not go back,
-- once all sessions of a client are destroyed, and until one is opened for it again, no token is
-- resolved to that client.
pub revoked_for_good :
    (user now later token : ℕ) (w w' : World)
    → Ran now w
    → Without user now (destroy_all_for_user now user w) later w'
    → ((resolve_session later token w').0 ≢ some user) × (peek_session later token w' ≢ some user)
revoked_for_good user now later token w w' ran run =
    let ended =
      peek-IsEnded user now (destroy_all_for_user now user w)
        (λ t. destroy_all_for_user-ends now now user t w (Ran-IsIndexed now w ran) (omega arith)) in
    let unread =
      IsEnded-peek user later token w'
        (Without-IsEnded user now (destroy_all_for_user now user w) later w' run ended) in
    (rw (resolve_session-peek later token w') unread, unread)
