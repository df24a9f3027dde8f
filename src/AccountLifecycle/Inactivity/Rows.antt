-- ===== src/AccountLifecycle/Inactivity/Rows.antt =====
-- What becomes of the row of an account when a passage rewrites it.
use zendou_backend.Common.{
  ℕ, ◌≡◌, ◌⊎◌, refl, sym, ap, inl, inr, Bool, true, not, ◌&&◌, none, some, List, [], ◌∷◌, arith,
  ◌==◌, if◌then◌else◌, find, find-update_any, count, update_where, is_some, Bool-cases,
  Option-cases,
}
use zendou_backend.Schema.{User, World, find_user}
use zendou_backend.AccountLifecycle.{has_purchased_credits, marked_before, inactive_since}
use zendou_backend.AccountLifecycle.Anonymization.{is_admin}
use zendou_backend.AccountLifecycle.Inactivity.{
  unmark, is_awake, is_marked, matching, is_warned, update_users, lift_one, lift_protected,
  lift_warnings,
}

-- A client asleep since the cutoff who was warned by the other date.
abbrev pub is_noticed : ℕ → ℕ → User → Bool
is_noticed cutoff before u =
    not (is_admin u.role)
    && marked_before before u.inactivity_warning_sent_at
    && inactive_since cutoff u

find-update_none :
    (q : User → Bool) (f : User → User) (id : ℕ) (users : List User)
    → ((u : User) → (f u).id ≡ u.id)
    → find (λ u. u.id == id) users ≡ none
    → find (λ u. u.id == id) (update_where q f users) ≡ none
find-update_none q f id [] keeps h = refl
find-update_none q f id (u ∷ users) keeps h =
    ground (arith, h, keeps u, find-update_none q f id users keeps)

module _ (cutoff before : ℕ) where
  -- A row that is rewritten: it is noticed, or erased, only if it was, or was noticed.
  pub record RowStep (u v : User) : Type 0 where
    pub noticed : is_noticed cutoff before v ≡ true → is_noticed cutoff before u ≡ true
    pub erased :
        is_some v.anonymized_at ≡ true
        → (is_some u.anonymized_at ≡ true) ⊎ (is_noticed cutoff before u ≡ true)

  -- The account was there before, and its row was rewritten so.
  unfoldable pub IsTraced : ℕ → World → World → Type 0
  IsTraced id w w' =
      (v : User) → find_user w' id ≡ some v → (u : User) × (find_user w id ≡ some u) × RowStep u v

  pub same-IsTraced : (id : ℕ) (w w' : World) → w'.users ≡ w.users → IsTraced id w w'
  unfolding IsTraced
  same-IsTraced id w w' same v found =
      (v, rw (sym same) found, record { noticed = λ h. h; erased = λ h. inl h })

  pub then-IsTraced : (id : ℕ) (u v w : World) → IsTraced id u v → IsTraced id v w → IsTraced id u w
  unfolding IsTraced
  then-IsTraced id u v w first second z found =
      let (y, found_y, later) = second z found in
      let (x, found_x, sooner) = first y found_y in
      (
        x,
        found_x,
        record {
          noticed = λ h. sooner.noticed (later.noticed h);
          erased = λ h. elim (later.erased h) [
            | inl already ↦ sooner.erased already
            | inr due ↦ inr (sooner.noticed due)
          ];
        },
      )

  pub update-IsTraced :
      (id : ℕ) (w w' : World) (q : User → Bool) (f : User → User)
      → ((u : User) → (f u).id ≡ u.id)
      → ((u : User) → q u ≡ true → RowStep u (f u))
      → w'.users ≡ update_where q f w.users
      → IsTraced id w w'
  unfolding IsTraced
  update-IsTraced id w w' q f keeps steps same v found = elim (Option-cases (find_user w id)) [
    | inl missing ↦
        let gone = find-update_none q f id w.users keeps missing in cc (rw same at found, gone)
    | inr (u, row) ↦
        let now_is =
          find-update_any (λ (u : User). u.id == id) f q w.users u
            (λ u. ap (λ (n : ℕ). n == id) (keeps u)) row in
        let rewritten : (if q u then f u else u) ≡ v = cc (rw same at found, now_is) in
        (
          u,
          row,
          elim (Bool-cases (q u)) [
            | inl hit ↦ rw (sym (rw hit at rewritten)) (steps u hit)
            | inr missed ↦
                rw (sym (rw missed at rewritten)) (record { noticed = λ h. h; erased = λ h. inl h })
          ],
        )
  ]

  -- A marker that is taken off notices nobody.
  pub unmark-IsTraced :
      (id : ℕ) (w : World) (q : User → Bool) → IsTraced id w (update_users q unmark w)
  unmark-IsTraced id w q =
      update-IsTraced id w _ q unmark (λ u. refl)
        (λ u hit. record { noticed = λ h. ground (arith, h); erased = λ h. inl h }) refl

  lift_one-IsTraced : (id : ℕ) (u : User) (n : ℕ) (w : World) → IsTraced id w (lift_one u (n, w)).1
  lift_one-IsTraced id u n w = elim (Bool-cases (has_purchased_credits w u.id)) [
    | inl protected ↦ rw protected (unmark-IsTraced id w (is_marked u.id))
    | inr exposed ↦ rw exposed (same-IsTraced id w w refl)
  ]

  lift_protected-IsTraced :
      (id : ℕ) (us : List User) (state : ℕ × World)
      → IsTraced id state.1 (lift_protected us state).1
  lift_protected-IsTraced id [] state = same-IsTraced id state.1 state.1 refl
  lift_protected-IsTraced id (u ∷ us) state =
      then-IsTraced id state.1 (lift_one u state).1 _ (lift_one-IsTraced id u state.0 state.1)
        (lift_protected-IsTraced id us (lift_one u state))

  pub lift_warnings-IsTraced :
      (id : ℕ) (limit : ℕ) (w : World) → IsTraced id w (lift_warnings limit w).1
  unfolding lift_warnings
  lift_warnings-IsTraced id limit w =
      let awake = update_users (is_awake limit) unmark w in
      then-IsTraced id w awake _ (unmark-IsTraced id w (is_awake limit)) (
        lift_protected-IsTraced id (matching is_warned awake.users)
          (count (is_awake limit) w.users, awake))
