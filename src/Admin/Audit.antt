-- ===== src/Admin/Audit.antt =====
-- The audit journal: a transaction that writes says so, and one that does not says nothing.
use zendou_backend.Common.{
  ℕ, ◌≡◌, refl, inl, inr, Bool-cases, Option, none, some, List, [], ◌∷◌, ◌++◌, ◌==◌, count, is_some,
  update_where,
}
use zendou_backend.Common.Int.{ℤ}
use zendou_backend.Text.{Text}
use zendou_backend.Schema.{
  User, AdminAction, AdminActionType, ActionDetails, suspend_user, reactivate_user, adjust_quota,
  grant_credits, delete_user, anonymize_user, World, find_user,
}
use zendou_backend.Sessions.{destroy_all_for_user}
use zendou_backend.Admin.{Denial, AdminReply, performed, denied, commit}
use zendou_backend.Admin.Users.{Call, action_of, suspend, reactivate, update_quota, grant}
use zendou_backend.Admin.Deletion.{is_target, forget_target, delete_account}
use zendou_backend.Admin.Deletion.Complete.{
  DeletionOutcome, refuses, deletes, line_left, delete_account-DeletionOutcome,
}
use zendou_backend.AccountLifecycle.Anonymization.{
  by_admin, Erasing, is_admin, may_rewrite, decide, carry_out, anonymize, write_erasure, revoke,
}

-- The line of a call: who, on which account, what and when.
pub record IsLine (call : Call) (type : AdminActionType) (target : Option ℕ) (line : AdminAction)
    : Type 0 where
  pub key : line.id ≡ call.key
  pub author : line.admin_id ≡ call.admin
  pub account : line.target_user_id ≡ target
  pub kind : line.action ≡ type
  pub date : line.created_at ≡ call.now

-- Either nothing is written, or the journal has one line more, of this call.
pub data IsAudited (call : Call) (type : AdminActionType) (target : Option ℕ)
    (before : List AdminAction) (w : World) {A : Type 0} : AdminReply A → World → Type 0 where
  unwritten : {reason : Denial} → IsAudited call type target before w (denied reason) w
  records :
      {a : A} {w' : World} (line : AdminAction)
      → IsLine call type target line
      → w'.admin_actions ≡ before ++ line ∷ []
      → IsAudited call type target before w (performed a) w'

-- The account named, and the journal as it was.
abbrev pub IsNamed : Call → AdminActionType → World → {A : Type 0} → AdminReply A × World → Type 0
IsNamed call type w (reply, w') = IsAudited call type (some call.target) w.admin_actions w reply w'

own-IsLine :
    (call : Call) (type : AdminActionType) (reason : Option Text) (what : ActionDetails)
    → IsLine call type (some call.target) (action_of call type reason what)
own-IsLine call type reason what = record {
  key = refl;
  author = refl;
  account = refl;
  kind = refl;
  date = refl;
}

commit-IsAudited :
    {A B : Type 0} (call : Call) (type : AdminActionType) (w : World) (guard : AdminReply A)
    (write : A → AdminReply B × World)
    → ((a : A) → IsNamed call type w (write a))
    → IsNamed call type w (commit guard write w)
commit-IsAudited call type w (denied reason) write writes = unwritten
commit-IsAudited call type w (performed a) write writes = writes a

-- A deletion takes the account out of the lines that name it, its own included.
abbrev pub forgotten : Call → World → List AdminAction
forgotten call w =
    update_where (λ a. is_target call.target a.target_user_id) forget_target w.admin_actions

deleted-IsAudited :
    (call : Call) (w : World) {reply : AdminReply ℕ} {w' : World}
    → DeletionOutcome call w reply w'
    → IsAudited call delete_user none (forgotten call w) w reply w'
deleted-IsAudited call w (refuses _) = unwritten
deleted-IsAudited call w (deletes user _ _ _) =
    records _ (record { key = refl; author = refl; account = refl; kind = refl; date = refl })
      (line_left call w user)

module _ (ctx : Erasing) (admin target : ℕ) (w : World) where
  -- The call of an erasure.
  abbrev pub erasing_call : Call
  erasing_call = record { now = ctx.now; key = ctx.key; admin = admin; target = target }

  revoke-actions : (v : World) → (revoke ctx target v).admin_actions ≡ v.admin_actions
  unfolding destroy_all_for_user
  revoke-actions v = elim (Bool-cases ctx.redis_up) [
    | inl up ↦ rw up refl
    | inr down ↦ rw down refl
  ]

  decided-IsAudited :
      (o : Option User)
      → IsNamed erasing_call anonymize_user w
          (carry_out ctx (by_admin admin) target w (decide (by_admin admin) target w o))
  decided-IsAudited none = unwritten
  decided-IsAudited (some u) = elim (Bool-cases (is_admin u.role)) [
    | inl administrator ↦ rw administrator unwritten
    | inr client ↦ elim (Bool-cases (is_some u.anonymized_at)) [
      | inl already ↦ rw client (rw already unwritten)
      | inr fresh ↦ elim (Bool-cases (count (may_rewrite (by_admin admin) target) w.users == 0)) [
        | inl raced ↦ rw client (rw fresh (rw raced unwritten))
        | inr free ↦ rw client (
            rw fresh (
              rw free (
                records _ (own-IsLine erasing_call anonymize_user _ _)
                  (revoke-actions (write_erasure ctx (by_admin admin) target w)))))
      ]
    ]
  ]

  anonymize-IsAudited :
      IsNamed erasing_call anonymize_user w (anonymize ctx target (by_admin admin) w)
  unfolding anonymize
  anonymize-IsAudited = elim (Bool-cases (admin == target)) [
    | inl self ↦ rw self unwritten
    | inr other ↦ rw other (decided-IsAudited (find_user w target))
  ]

-- Each administrative operation on an account, the erasure and the deletion included, either
-- refuses and writes nothing, or adds to the journal exactly one line, which bears the key and the
-- date of the call, the administrator, the kind of operation and the account; after a deletion
-- neither this line nor an older one names the account as its target any more.
pub operations-IsAudited :
    (call : Call) (reason : Text) (why : Option Text) (limit : ℕ) (delta : ℤ) (ctx : Erasing)
    (w : World)
    → IsNamed call suspend_user w (suspend call reason w)
      × IsNamed call reactivate_user w (reactivate call why w)
      × IsNamed call adjust_quota w (update_quota call limit w)
      × IsNamed call grant_credits w (grant call delta reason w)
      × IsNamed
          (erasing_call ctx call.admin call.target w)
          anonymize_user
          w
          (anonymize ctx call.target (by_admin call.admin) w)
      × IsAudited call delete_user none
          (forgotten call w)
          w
          (delete_account call w).0
          (delete_account call w).1
unfolding suspend reactivate update_quota grant
operations-IsAudited call reason why limit delta ctx w = (
  commit-IsAudited call suspend_user w _ _ (λ u. records _ (own-IsLine call _ _ _) refl),
  commit-IsAudited call reactivate_user w _ _ (λ u. records _ (own-IsLine call _ _ _) refl),
  commit-IsAudited call adjust_quota w _ _ (λ u. records _ (own-IsLine call _ _ _) refl),
  commit-IsAudited call grant_credits w _ _ (λ u. records _ (own-IsLine call _ _ _) refl),
  anonymize-IsAudited ctx call.admin call.target w,
  deleted-IsAudited call w (delete_account-DeletionOutcome call w),
)

-- A transaction that succeeds has passed its guards and done its writes.
pub commit-performed :
    {A B : Type 0} (w : World) (guard : AdminReply A) (write : A → AdminReply B × World) (b : B)
    → (commit guard write w).0 ≡ performed b
    → (a : A) × (guard ≡ performed a) × (commit guard write w ≡ write a)
commit-performed w (denied reason) write b e = cc
commit-performed w (performed a) write b e = (a, refl, refl)
