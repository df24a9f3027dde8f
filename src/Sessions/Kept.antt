-- ===== src/Sessions/Kept.antt =====
-- The index through the operations on sessions.
use zendou_backend.Common.{
  ℕ, ◌+◌, ◌≤◌, ◌<◌, ◌≡◌, ◌≢◌, refl, inl, inr, true, Option, none, some, arith, ltb, ◌==◌,
  Bool-cases, Option-cases,
}
use mathlib.Core.Path.{subst}
use zendou_backend.Schema.{Session, SessionSet, World}
use zendou_backend.Sessions.{
  session_ttl_ms, live_session, live_set, tokens_of, has_token, put_session, put_set, joined,
  create_session, resolve_session, destroy_session, destroy_all_for_user,
}
use zendou_backend.Sessions.Index.{
  IsListed, IsIndexed, has_token-remove_other, live_runs, Fits, opened-Fits,
}

module _ (now : ℕ) (w : World) (h : IsIndexed now w) where
  -- One session and one set rewritten.
  put-IsIndexed :
      (token user : ℕ) (session : Option Session) (set : SessionSet)
      → ((s : Session) → session ≡ some s → Fits now user set token s)
      → ((t : ℕ) (s : Session)
          → t ≢ token
          → s.user_id ≡ user
          → IsListed now w t s
          → now < s.expires_at
          → Fits now user set t s)
      → IsIndexed now (put_set user (some set) (put_session token session w))
  unfolding IsIndexed
  put-IsIndexed token user session set news olds t s at runs = elim (Bool-cases (t == token)) [
    | inl same ↦
        let fit = news s (rw same at at) in
        let mine : (s.user_id == user) ≡ true = ground (arith, fit.own) in
        record {
          set = set;
          at = rw mine refl;
          member = ground (arith, fit.member);
          outlives = fit.outlives;
          soon = fit.soon;
        }
    | inr other ↦
        let listed = h t s (rw other at at) runs in
        elim (Bool-cases (s.user_id == user)) [
          | inl mine ↦
              let fit = olds t s (λ e. ground arith) (ground arith) listed runs in
              record {
                set = set;
                at = rw mine refl;
                member = fit.member;
                outlives = fit.outlives;
                soon = fit.soon;
              }
          | inr theirs ↦ record {
            set = listed.set;
            at = rw theirs listed.at;
            member = listed.member;
            outlives = listed.outlives;
            soon = listed.soon;
          }
        ]
  ]

  pub create_session-IsIndexed : (token user : ℕ) → IsIndexed now (create_session now token user w)
  unfolding create_session has_token
  create_session-IsIndexed token user =
      put-IsIndexed token user _ (joined now token (w.session_sets user))
        (λ s e. opened-Fits now user token _ s (ground arith) (omega arith) e)
        (λ t s other own listed runs.
          let at : w.session_sets user ≡ some listed.set =
            subst (λ (u : ℕ). w.session_sets u ≡ some listed.set) own listed.at in
          let live : ltb now listed.set.expires_at ≡ true = ground (arith, listed.outlives) in
          record {
            own = own;
            member = rw at (rw live (ground (arith, listed.member)));
            outlives = listed.soon;
            soon = listed.soon;
          })

  -- Sessions dropped, and the sets as they are.
  pub fewer-IsIndexed :
      (w' : World)
      → ((t : ℕ) (s : Session) → w'.sessions t ≡ some s → w.sessions t ≡ some s)
      → w'.session_sets ≡ w.session_sets
      → IsIndexed now w'
  unfolding IsIndexed
  fewer-IsIndexed w' kept sets t s at runs =
      let listed = h t s (kept t s at) runs in
      record {
        set = listed.set;
        at = rw sets listed.at;
        member = listed.member;
        outlives = listed.outlives;
        soon = listed.soon;
      }

  live-IsListed :
      (token : ℕ) (s : Session)
      → live_session now (w.sessions token) ≡ some s
      → IsListed now w token s × (now < s.expires_at)
  unfolding IsIndexed
  live-IsListed token s live =
      let running = live_runs now (w.sessions token) s live in
      (h token s running.0 running.1, running.1)

  -- The set of a client is the one in which its sessions stand.
  same_set :
      (user t : ℕ) (s : Session) (set : SessionSet)
      → s.user_id ≡ user
      → w.session_sets user ≡ some set
      → IsListed now w t s
      → (has_token set.tokens t ≡ true) × (s.expires_at ≤ set.expires_at)
  same_set user t s set own at listed =
      let here : w.session_sets user ≡ some listed.set =
        subst (λ (u : ℕ). w.session_sets u ≡ some listed.set) own listed.at in
      let one : listed.set ≡ set = cc (here, at) in
      subst (λ (x : SessionSet). (has_token x.tokens t ≡ true) × (s.expires_at ≤ x.expires_at)) one
        (listed.member, listed.outlives)

  pub resolve_session-IsIndexed : (token : ℕ) → IsIndexed now (resolve_session now token w).1
  unfolding resolve_session
  resolve_session-IsIndexed token = elim (Option-cases (live_session now (w.sessions token))) [
    | inl absent ↦ rw absent h
    | inr (s, live) ↦
        let own = live-IsListed token s live in
        let alive : ltb now own.0.set.expires_at ≡ true = ground (arith, own.0.outlives, own.1) in
        let set : SessionSet = record own.0.set { expires_at = now + session_ttl_ms } in
        rw live (
          rw own.0.at (
            rw alive (
              put-IsIndexed token s.user_id _ set
                (λ s' e. opened-Fits now s.user_id token set s' own.0.member (omega arith) e)
                (λ t s' other mine listed runs.
                  let stands = same_set s.user_id t s' own.0.set mine own.0.at listed in
                  record {
                    own = mine;
                    member = stands.0;
                    outlives = listed.soon;
                    soon = listed.soon;
                  }))))
  ]

  pub destroy_session-IsIndexed : (token : ℕ) → IsIndexed now (destroy_session now token w)
  unfolding destroy_session
  destroy_session-IsIndexed token = elim (Option-cases (live_session now (w.sessions token))) [
    | inl absent ↦ rw absent (
        fewer-IsIndexed (put_session token none w)
          (λ t s at. elim (Bool-cases (t == token)) [
            | inl hit ↦ cc (rw hit at at)
            | inr other ↦ rw other at at
          ])
          refl)
    | inr (s, live) ↦
        let own = live-IsListed token s live in
        rw live (
          rw own.0.at (
            put-IsIndexed token s.user_id none _ (λ s' e. cc)
              (λ t s' other mine listed runs.
                let stands = same_set s.user_id t s' own.0.set mine own.0.at listed in
                record {
                  own = mine;
                  member = has_token-remove_other own.0.set.tokens token t other stands.0;
                  outlives = stands.1;
                  soon = listed.soon;
                })))
  ]

  pub destroy_all_for_user-IsIndexed : (user : ℕ) → IsIndexed now (destroy_all_for_user now user w)
  unfolding destroy_all_for_user IsIndexed
  destroy_all_for_user-IsIndexed user t s at runs =
      elim (Bool-cases (has_token (tokens_of (live_set now (w.session_sets user))) t)) [
        | inl revoked ↦ cc (rw revoked at at)
        | inr kept ↦
            let listed = h t s (rw kept at at) runs in
            elim (Bool-cases (s.user_id == user)) [
              | inl mine ↦
                  let set_at : w.session_sets user ≡ some listed.set =
                    subst (λ (u : ℕ). w.session_sets u ≡ some listed.set) (ground arith)
                      listed.at in
                  let live : ltb now listed.set.expires_at ≡ true =
                    ground (arith, listed.outlives) in
                  cc (listed.member, rw (set_at, live) at kept)
              | inr theirs ↦ record {
                set = listed.set;
                at = rw theirs listed.at;
                member = listed.member;
                outlives = listed.outlives;
                soon = listed.soon;
              }
            ]
      ]
