-- ===== src/Sessions/Index.antt =====
-- The index of a client's tokens, and what its revocation ends.
use zendou_backend.Common.{
  ℕ, ◌+◌, ◌≤◌, ◌<◌, ◌≡◌, ◌≢◌, refl, inl, inr, true, Option, none, some, List, [], ◌∷◌, arith, ltb,
  ◌==◌, Bool-cases, Option-cases, remove_where,
}
use mathlib.Core.Path.{subst}
use zendou_backend.Schema.{Session, SessionSet, World}
use zendou_backend.Sessions.{
  session_ttl_ms, live_session, live_set, tokens_of, has_token, opened, peek_session,
  destroy_all_for_user,
}

-- A session that runs has at most its full duration left, and stands in the set of its client, which
-- expires no earlier.
pub record IsListed (now : ℕ) (w : World) (token : ℕ) (session : Session) : Type 0 where
  pub set : SessionSet
  pub at : w.session_sets session.user_id ≡ some set
  pub member : has_token set.tokens token ≡ true
  pub outlives : session.expires_at ≤ set.expires_at
  pub soon : session.expires_at ≤ now + session_ttl_ms

unfoldable pub IsIndexed : ℕ → World → Type 0
IsIndexed now w =
    (token : ℕ) (session : Session)
    → w.sessions token ≡ some session
    → now < session.expires_at
    → IsListed now w token session

pub has_token-remove_other :
    (ts : List ℕ) (token t : ℕ)
    → t ≢ token
    → has_token ts t ≡ true
    → has_token (remove_where (λ x. x == token) ts) t ≡ true
unfolding has_token
has_token-remove_other [] token t other h = h
has_token-remove_other (x ∷ xs) token t other h =
    let rest = has_token-remove_other xs token t other in ground (arith, rest)

pub aged : (now later : ℕ) (w : World) → now ≤ later → IsIndexed now w → IsIndexed later w
unfolding IsIndexed
aged now later w after h token session at runs =
    let listed = h token session at (omega (arith, after, runs)) in
    record {
      set = listed.set;
      at = listed.at;
      member = listed.member;
      outlives = listed.outlives;
      soon = omega (arith, after, listed.soon);
    }

-- A session that is read runs.
pub live_runs :
    (now : ℕ) (kept : Option Session) (s : Session)
    → live_session now kept ≡ some s
    → (kept ≡ some s) × (now < s.expires_at)
live_runs now none s live = cc
live_runs now (some s') s live = elim (Bool-cases (ltb now s'.expires_at)) [
  | inl runs ↦
      let same : s' ≡ s = cc (rw runs at live) in
      (cc, subst (λ (x : Session). now < x.expires_at) same (ground arith))
  | inr over ↦ cc (rw over at live)
]

-- What a session must fulfil to stand in this set.
pub record Fits (now user : ℕ) (set : SessionSet) (token : ℕ) (session : Session) : Type 0 where
  pub own : session.user_id ≡ user
  pub member : has_token set.tokens token ≡ true
  pub outlives : session.expires_at ≤ set.expires_at
  pub soon : session.expires_at ≤ now + session_ttl_ms

pub opened-Fits :
    (now user token : ℕ) (set : SessionSet) (s : Session)
    → has_token set.tokens token ≡ true
    → now + session_ttl_ms ≤ set.expires_at
    → some (opened now user) ≡ some s
    → Fits now user set token s
opened-Fits now user token set s member late e =
    let same : opened now user ≡ s = cc in
    subst (λ (s' : Session). Fits now user set token s') same
      (record { own = refl; member = member; outlives = late; soon = omega arith })

-- After the revocation, no token of the client is resolved any more.
pub destroy_all_for_user-ends :
    (now later user token : ℕ) (w : World)
    → IsIndexed now w
    → now ≤ later
    → peek_session later token (destroy_all_for_user now user w) ≢ some user
unfolding IsIndexed peek_session destroy_all_for_user
destroy_all_for_user-ends now later user token w indexed after e =
    elim (Bool-cases (has_token (tokens_of (live_set now (w.session_sets user))) token)) [
      | inl revoked ↦ cc (rw revoked at e)
      | inr kept ↦ elim (Option-cases (w.sessions token)) [
        | inl absent ↦ cc (rw (kept, absent) at e)
        | inr (session, at) ↦ elim (Bool-cases (ltb later session.expires_at)) [
          | inr over ↦ cc (rw (kept, at, over) at e)
          | inl running ↦
              let own : session.user_id ≡ user = cc (rw (kept, at, running) at e) in
              let listed = indexed token session at (ground arith) in
              let set_at : w.session_sets user ≡ some listed.set =
                subst (λ (u : ℕ). w.session_sets u ≡ some listed.set) own listed.at in
              let live : ltb now listed.set.expires_at ≡ true = ground (arith, listed.outlives) in
              cc (listed.member, rw (set_at, live) at kept)
        ]
      ]
    ]
