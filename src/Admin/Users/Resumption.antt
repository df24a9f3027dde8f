-- ===== src/Admin/Users/Resumption.antt =====
-- A suspension stops the sends; a reactivation opens them again, and closes the account's past.
use zendou_backend.Common.{
  ℕ, ◌≤◌, ◌<◌, ◌≡◌, refl, ap, ◌∙◌, inl, inr, Bool, true, not, ◌&&◌, Option, none, some, arith, leb,
  ◌==◌, Bool-cases, is_some, find-update_where, count, count_mono, ==_iff, find_sound, sym,
}
use zendou_backend.Text.{Text}
use zendou_backend.Schema.{active, User, Email, World, find_user, was_sent}
use zendou_backend.Emails.Refusal.{account_suspended, refused, ok, err}
use zendou_backend.Emails.Checks.{
  Env, AccountState, CredentialRef, assert_account_may_send, check_account, require_credential,
}
use zendou_backend.Emails.Accept.{Fresh, accept}
use zendou_backend.Emails.Accept.Request.{AcceptInput}
use zendou_backend.Reputation.{Context, window_start, metrics_of, evaluate}
use zendou_backend.Reputation.Sanction.{refused_of_suspended, evaluate_small}
use zendou_backend.Admin.{refuse_self, self_suspend, AdminReply, performed}
use zendou_backend.Admin.Users.{
  Call, suspend, suspend_row, suspendable, reactivate, reactivate_row, reactivable,
}
use zendou_backend.Admin.Audit.{commit-performed}

module _ (call : Call) (w : World) where
  suspendable-performed :
      (o : Option User) (u : User)
      → refuse_self call.admin call.target self_suspend (suspendable o) ≡ performed u
      → o ≡ some u
  suspendable-performed none u e = elim (Bool-cases (call.admin == call.target)) [
    | inl self ↦ cc (rw self at e)
    | inr differ ↦ cc (rw differ at e)
  ]
  suspendable-performed (some u') u e = ground arith

  reactivable-performed : (o : Option User) (u : User) → reactivable o ≡ performed u → o ≡ some u
  reactivable-performed none u e = cc
  reactivable-performed (some u') u e = ground arith

  -- Once an account has been suspended by an administrator, every acceptance for it is refused as
  -- suspended and writes nothing.
  pub suspend_stops_sends :
      (reason : Text) (v : User) (env : Env) (fresh : Fresh) (input : AcceptInput)
      (r : CredentialRef)
      → (suspend call reason w).0 ≡ performed v
      → require_credential input.channel input.api_key_id input.smtp_credential_id ≡ ok r
      → accept env fresh call.target input (suspend call reason w).1
        ≡ (err (refused account_suspended none), (suspend call reason w).1)
  unfolding suspend
  suspend_stops_sends reason v env fresh input r e credential =
      let (u, guard, writes) = commit-performed w _ _ v e in
      let row = suspendable-performed (find_user w call.target) u guard in
      refused_of_suspended env fresh call.target input (suspend call reason w).1 r
        (suspend_row call.now reason u) credential
        (ap (λ (x : AdminReply User × World). find_user x.1 call.target) writes
          ∙ find-update_where (λ (u : User). u.id == call.target) (suspend_row call.now reason)
              w.users u (λ u. refl) row)
        refl

  -- The client's own emails that have left since the call.
  abbrev pub left_since : Email → Bool
  left_since e =
      (e.user_id == call.target && not e.system && leb call.now e.queued_at) && was_sent e.status

  abbrev pub sent_since : World → ℕ
  sent_since w' = count left_since w'.emails

  window-after :
      (later : ℕ) (u : User) (w' : World)
      → u.id ≡ call.target
      → u.reputation_reset_at ≡ some call.now
      → (metrics_of later u w').sent ≤ sent_since w'
  unfolding metrics_of window_start
  window-after later u w' own reset = rw reset (count_mono _ _ w'.emails (λ e passes. ground arith))

  reactivated_row :
      (why : Option Text) (v : User)
      → (reactivate call why w).0 ≡ performed v
      → (u : User) × (find_user w call.target ≡ some u)
        × (v ≡ reactivate_row call.now u)
        × (find_user (reactivate call why w).1 call.target ≡ some (reactivate_row call.now u))
        × ((reactivate call why w).1.emails ≡ w.emails)
  unfolding reactivate
  reactivated_row why v e =
      let (u, guard, writes) = commit-performed w _ _ v e in
      let row = reactivable-performed (find_user w call.target) u guard in
      (
        u,
        row,
        cc (ap (λ (x : AdminReply User × World). x.0) writes),
        ap (λ (x : AdminReply User × World). find_user x.1 call.target) writes
            ∙ find-update_where (λ (u : User). u.id == call.target) (reactivate_row call.now)
                w.users u (λ u. refl) row,
        ap (λ (x : AdminReply User × World). x.1.emails) writes,
      )

  may_send :
      (u : User) (w' : World)
      → find_user w' call.target ≡ some u
      → u.status ≡ active
      → is_some u.email_verified_at ≡ true
      → (a : AccountState) × (assert_account_may_send call.target w' ≡ ok a)
  unfolding assert_account_may_send check_account
  may_send u w' row open_ confirmed = rw (row, open_, confirmed) (_, refl)

  not_sanctioned :
      (ctx : Context) (u : User) (w' : World)
      → find_user w' call.target ≡ some u
      → u.reputation_reset_at ≡ some call.now
      → sent_since w' < 50
      → (evaluate ctx call.target w').1 ≡ w'
  unfolding evaluate
  not_sanctioned ctx u w' row reset few =
      let own : u.id ≡ call.target =
        (==_iff u.id call.target).0
          (find_sound (λ (u : User). u.id == call.target) w'.users u row) in
      rw (row, evaluate)
        (evaluate_small ctx u w' (omega (arith, window-after ctx.env.now u w' own reset)))

  -- A reactivated account starts afresh. The reactivation leaves the row that it answers, and in
  -- any later state in which the account's row still has the status and the date of the fresh start
  -- of that row, its address is confirmed, and fewer than 50 of its own emails have left since the
  -- reactivation, an evaluation, whenever it comes and whatever the account did before, neither
  -- sanctions it nor writes anything, and the account may send.
  pub reactivate_starts_afresh :
      (why : Option Text) (v : User) (ctx : Context) (w' : World) (u : User)
      → (reactivate call why w).0 ≡ performed v
      → find_user w' call.target ≡ some u
      → u.reputation_reset_at ≡ v.reputation_reset_at
      → u.status ≡ v.status
      → is_some u.email_verified_at ≡ true
      → sent_since w' < 50
      → (find_user (reactivate call why w).1 call.target ≡ some v)
        × ((evaluate ctx call.target w').1 ≡ w')
        × (a : AccountState) × (assert_account_may_send call.target w' ≡ ok a)
  reactivate_starts_afresh why v ctx w' u e found reset status verified few =
      let (before, row, is_v, row', emails) = reactivated_row why v e in
      let (a, account) = may_send u w' found (status ∙ ap (λ (x : User). x.status) is_v) verified in
      (
        row' ∙ ap some (sym is_v),
        not_sanctioned ctx u w' found (reset ∙ ap (λ (x : User). x.reputation_reset_at) is_v) few,
        a,
        account,
      )
