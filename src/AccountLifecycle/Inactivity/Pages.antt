-- ===== src/AccountLifecycle/Inactivity/Pages.antt =====
-- The pages of the warnings come to an end.
use zendou_backend.Common.{
  ℕ, zero, suc, ◌∙◌, ap, Bool, update_where, count, ◌+◌, ◌≤◌, ◌≡◌, refl, Bool-cases, inl, inr, List,
  [], ◌∷◌, some, arith, length, take, ltb, not, ◌==◌,
}
use zendou_backend.Common.Slices.{drop}
use zendou_backend.Schema.{User, World}
use zendou_backend.AccountLifecycle.{inactivity_sweep_batch_size, has_purchased_credits}
use zendou_backend.AccountLifecycle.Inactivity.{
  Sweep, keep_page, candidates_from, matching, is_to_warn, is_warned, is_awake, is_marked, unmark,
  update_users, lift_one, lift_protected, lift_warnings,
}

drop_past : (n : ℕ) (rows : List User) → length rows ≤ n → drop n rows ≡ []
drop_past zero [] h = refl
drop_past (suc n) [] h = refl
drop_past zero (u ∷ us) h = ground (arith, h)
drop_past (suc n) (u ∷ us) h = drop_past n us (omega (arith, h))

-- As many pages as the rows that are left, and one more.
pub candidates_from_ends :
    (pages : ℕ) (w : World) (rows : List User) (skip : ℕ) (found : List User)
    → length rows ≤ skip + pages
    → (kept : List User) × (candidates_from (suc pages) w rows skip found ≡ some kept)
unfolding candidates_from
candidates_from_ends zero w rows skip found enough =
    rw (drop_past skip rows (omega (arith, enough)))
      (elim (Bool-cases (not (ltb (length found) inactivity_sweep_batch_size))) [
        | inl full ↦ (found, rw full refl)
        | inr room ↦ (found, rw room refl)
      ])
candidates_from_ends (suc n) w rows skip found enough =
    let page = take inactivity_sweep_batch_size (drop skip rows) in
    let (kept, rest) =
      candidates_from_ends n w rows (skip + inactivity_sweep_batch_size) (keep_page w page found)
        (omega (arith, enough)) in
    elim (Bool-cases (not (ltb (length found) inactivity_sweep_batch_size))) [
      | inl full ↦ (found, rw full refl)
      | inr room ↦ elim (Bool-cases (length page == 0)) [
        | inl last ↦ (found, rw room (rw last refl))
        | inr more ↦ (kept, rw room (rw more rest))
      ]
    ]

length-matching : (p : User → Bool) (us : List User) → length (matching p us) ≤ length us
length-matching p [] = ground arith
length-matching p (u ∷ us) = ground (arith, length-matching p us)

length-update :
    (p : User → Bool) (f : User → User) (us : List User) → length (update_where p f us) ≡ length us
length-update p f [] = refl
length-update p f (u ∷ us) = ap suc (length-update p f us)

length-lift_one :
    (u : User) (n : ℕ) (w : World) → length (lift_one u (n, w)).1.users ≡ length w.users
length-lift_one u n w = elim (Bool-cases (has_purchased_credits w u.id)) [
  | inl protected ↦ rw protected (length-update (is_marked u.id) unmark w.users)
  | inr exposed ↦ rw exposed refl
]

length-lift_protected :
    (us : List User) (state : ℕ × World)
    → length (lift_protected us state).1.users ≡ length state.1.users
length-lift_protected [] state = refl
length-lift_protected (u ∷ us) state =
    length-lift_protected us (lift_one u state) ∙ length-lift_one u state.0 state.1

length-lift_warnings :
    (limit : ℕ) (w : World) → length (lift_warnings limit w).1.users ≡ length w.users
unfolding lift_warnings
length-lift_warnings limit w =
    let awake = update_users (is_awake limit) unmark w in
    length-lift_protected (matching is_warned awake.users) (count (is_awake limit) w.users, awake)
    ∙ length-update (is_awake limit) unmark w.users

-- The candidates of a passage are read within one page more than the accounts.
pub candidates_read :
    (s : Sweep) (w : World)
    → ((us : List User) → length (s.order us) ≡ length us)
    → let w' = (lift_warnings s.warning_cutoff w).1 in
      (kept : List User) × (candidates_from
          (suc (length w.users))
          w'
          (s.order (matching (is_to_warn s.warning_cutoff) w'.users))
          0
          []
        ≡ some kept)
candidates_read s w keeps =
    let w' = (lift_warnings s.warning_cutoff w).1 in
    let rows = matching (is_to_warn s.warning_cutoff) w'.users in
    candidates_from_ends (length w.users) w' (s.order rows) 0 [] (
      omega (
        arith,
        keeps rows,
        length-matching (is_to_warn s.warning_cutoff) w'.users,
        length-lift_warnings s.warning_cutoff w,
      ))
