-- ===== src/Admin/Deletion/Complete.antt =====
-- A deletion is complete or does not happen.
use zendou_backend.Common.{
  ℕ, ◌≡◌, ◌≢◌, refl, ◌∙◌, inl, inr, false, not, none, List, [], ◌∷◌, arith, ◌==◌, Bool-cases,
  Option-cases, count, count-append, count-update_where, count-update_self, find-remove_self,
  find-remove_other, remove_where, remove_where_absorb, update_where, update_where-append, some,
  ◌++◌,
}
use zendou_backend.Schema.{
  delete_user, deleted, User, Email, CreditEntry, AdminAction, World, find_user,
}
use zendou_backend.Ledger.{balance_of, is_of}
use zendou_backend.Ledger.Laws.{sum_delta-remove_other}
use zendou_backend.Sessions.{destroy_all_for_user}
use zendou_backend.Admin.{
  Blocker, invariant_violated, Denial, AdminReply, performed, denied, commit,
}
use zendou_backend.Admin.Users.{Call, action_of}
use zendou_backend.Admin.Deletion.{
  is_system_email, is_welcome_entry, delete_blockers, write_cascade, remove_user, leaves_rows,
  finish_deletion, delete_account, unblocked, is_target, is_welcome, forget_target,
}
use zendou_backend.Admin.Deletion.Blockers.{
  remaining-zero, IsUnblocked, delete_blockers-IsUnblocked,
}

module _ (call : Call) (w : World) where
  -- What is left of an account that has been deleted: no row that refers to it, and the line of the
  -- deletion, which keeps its address and its name; the suppressions are as they were.
  pub record IsGone (w' : World) : Type 0 where
    pub no_user : find_user w' call.target ≡ none
    pub no_domains : count (λ d. d.user_id == call.target) w'.domains ≡ 0
    pub no_keys : count (λ k. k.user_id == call.target) w'.api_keys ≡ 0
    pub no_credentials : count (λ k. k.user_id == call.target) w'.smtp_credentials ≡ 0
    pub no_emails : count (λ e. e.user_id == call.target) w'.emails ≡ 0
    pub no_entries : count (λ e. e.user_id == call.target) w'.credit_entries ≡ 0
    pub no_requests : count (λ r. r.user_id == call.target) w'.topup_requests ≡ 0
    pub no_actions : count (λ a. a.admin_id == call.target) w'.admin_actions ≡ 0
    pub no_target : count (λ a. is_target call.target a.target_user_id) w'.admin_actions ≡ 0
    pub before : User
    pub was : find_user w call.target ≡ some before
    pub trace :
        w'.admin_actions
        ≡ update_where (λ a. is_target call.target a.target_user_id) forget_target w.admin_actions
          ++ record {
            id = call.key;
            admin_id = call.admin;
            target_user_id = none;
            action = delete_user;
            reason = none;
            details = deleted before.email before.name;
            created_at = call.now;
          }
            ∷ []
    pub same_suppressions : w'.suppressions ≡ w.suppressions

  abbrev pub after_deletion : User → World
  after_deletion user =
      destroy_all_for_user call.now call.target
        (remove_user call.target (write_cascade call user w))

  -- The two ways in which a deletion ends.
  pub data DeletionOutcome : AdminReply ℕ → World → Type 0 where
    refuses : {reason : Denial} → reason ≢ invariant_violated → DeletionOutcome (denied reason) w
    deletes :
        (user : User)
        → find_user w call.target ≡ some user
        → call.admin ≢ call.target
        → IsUnblocked call.target w
        → DeletionOutcome (performed call.key) (after_deletion user)

  nothing_left :
      (user : User)
      → IsUnblocked call.target w
      → leaves_rows call.target (write_cascade call user w) ≡ false
  nothing_left user free =
      let emails =
        remaining-zero (λ (e : Email). e.user_id == call.target) (λ (e : Email). e.system) w.emails
          free.no_emails in
      let entries =
        remaining-zero (λ (e : CreditEntry). e.user_id == call.target)
          (λ (e : CreditEntry). is_welcome e.reason) w.credit_entries free.no_entries in
      rw (emails, entries) refl

  finish_cases :
      (user : User) (blockers : List Blocker)
      → find_user w call.target ≡ some user
      → call.admin ≢ call.target
      → delete_blockers call.target w ≡ blockers
      → DeletionOutcome
          (commit (unblocked user blockers) (λ u. finish_deletion call u w) w).0
          (commit (unblocked user blockers) (λ u. finish_deletion call u w) w).1
  finish_cases user (b ∷ bs) row differ e = refuses (λ f. cc)
  finish_cases user [] row differ e =
      let free = delete_blockers-IsUnblocked call.target w e in
      rw (nothing_left user free) (deletes user row differ free)

  pub delete_account-DeletionOutcome :
      DeletionOutcome (delete_account call w).0 (delete_account call w).1
  unfolding delete_account
  delete_account-DeletionOutcome = elim (Bool-cases (call.admin == call.target)) [
    | inl self ↦ rw self (refuses (λ f. cc))
    | inr differ ↦ elim (Option-cases (find_user w call.target)) [
      | inl missing ↦ rw (differ, missing) (refuses (λ f. cc))
      | inr (user, row) ↦
          rw (differ, row)
            (finish_cases user (delete_blockers call.target w) row (ground arith) refl)
    ]
  ]

  -- A deletion that is refused has written nothing; the refusal is never that of the invariant
  -- "rows are left after the cascade": the list of blockers has no hole.
  pub delete_account-unchanged_of_denied :
      (denial : Denial)
      → (delete_account call w).0 ≡ denied denial
      → ((delete_account call w).1 ≡ w) × (denial ≢ invariant_violated)
  delete_account-unchanged_of_denied denial e = denied_unchanged delete_account-DeletionOutcome e
    where
      denied_unchanged :
          {reply : AdminReply ℕ} {w' : World}
          → DeletionOutcome reply w'
          → reply ≡ denied denial
          → (w' ≡ w) × (denial ≢ invariant_violated)
      denied_unchanged (refuses {reason} h) e = (refl, λ f. h (cc))
      denied_unchanged (deletes _ _ _ _) e = cc

  no_actions_left :
      (user : User)
      → call.admin ≢ call.target
      → IsUnblocked call.target w
      → count (λ a. a.admin_id == call.target) (after_deletion user).admin_actions ≡ 0
  unfolding destroy_all_for_user
  no_actions_left user differ free =
      let other : (call.admin == call.target) ≡ false = ground arith in
      count-update_where (λ (a : AdminAction). a.admin_id == call.target) _ forget_target
        (write_cascade call user w).admin_actions (λ a. refl)
      ∙ count-append (λ (a : AdminAction). a.admin_id == call.target) w.admin_actions _
      ∙ rw (free.no_actions, other) refl

  pub line_left :
      (user : User)
      → (after_deletion user).admin_actions
        ≡ update_where (λ a. is_target call.target a.target_user_id) forget_target w.admin_actions
          ++ record (action_of call delete_user none (deleted user.email user.name)) {
            target_user_id = none;
          }
            ∷ []
  unfolding destroy_all_for_user
  line_left user =
      update_where-append (λ (a : AdminAction). is_target call.target a.target_user_id)
        forget_target w.admin_actions
        (action_of call delete_user none (deleted user.email user.name) ∷ [])
      ∙ ground arith

  after_deletion-IsGone :
      (user : User)
      → find_user w call.target ≡ some user
      → call.admin ≢ call.target
      → IsUnblocked call.target w
      → IsGone (after_deletion user)
  unfolding destroy_all_for_user
  after_deletion-IsGone user row differ free = record {
    before = user;
    was = row;
    trace = line_left user;
    same_suppressions = refl;
    no_user = find-remove_self (λ (u : User). u.id == call.target) w.users;
    no_domains = free.no_domains;
    no_keys = free.no_keys;
    no_credentials = free.no_credentials;
    no_emails =
        remaining-zero (λ (e : Email). e.user_id == call.target) (λ (e : Email). e.system) w.emails
          free.no_emails;
    no_entries =
        remaining-zero (λ (e : CreditEntry). e.user_id == call.target)
          (λ (e : CreditEntry). is_welcome e.reason) w.credit_entries free.no_entries;
    no_requests = free.no_requests;
    no_actions = no_actions_left user differ free;
    no_target =
        count-update_self (λ (a : AdminAction). is_target call.target a.target_user_id)
          forget_target (write_cascade call user w).admin_actions (λ a. refl);
  }

  -- A deletion that succeeds leaves no row that refers to the account in the tables with such a
  -- key: no account, domain, key, credential, email, credit entry or top-up request of it, and no
  -- line of the journal as its author or its target. The journal has one line more, the deletion's,
  -- which keeps the address and the name of the account; the suppressions are as they were.
  pub delete_account-IsGone :
      (key : ℕ) → (delete_account call w).0 ≡ performed key → IsGone (delete_account call w).1
  delete_account-IsGone key e = gone delete_account-DeletionOutcome e
    where
      gone :
          {reply : AdminReply ℕ} {w' : World}
          → DeletionOutcome reply w'
          → reply ≡ performed key
          → IsGone w'
      gone (refuses _) e = cc
      gone (deletes user row differ free) e = after_deletion-IsGone user row differ free

  -- What a deletion keeps of another account.
  pub record IsKept (other : ℕ) (w' : World) : Type 0 where
    pub same_user : find_user w' other ≡ find_user w other
    pub same_balance : balance_of w'.credit_entries other ≡ balance_of w.credit_entries other
    pub same_entries :
        remove_where (λ e. not (e.user_id == other)) w'.credit_entries
        ≡ remove_where (λ e. not (e.user_id == other)) w.credit_entries
    pub same_emails :
        remove_where (λ e. not (e.user_id == other)) w'.emails
        ≡ remove_where (λ e. not (e.user_id == other)) w.emails
    pub same_keys : w'.api_keys ≡ w.api_keys
    pub same_credentials : w'.smtp_credentials ≡ w.smtp_credentials
    pub same_domains : w'.domains ≡ w.domains
    pub same_requests : w'.topup_requests ≡ w.topup_requests

  -- Whatever it answers, a deletion leaves the other accounts as they are: their row, their balance,
  -- the entries of their ledger and their emails, one for one, and every key, credential, domain and
  -- top-up request.
  pub delete_account-IsKept :
      (other : ℕ) → other ≢ call.target → IsKept other (delete_account call w).1
  unfolding destroy_all_for_user balance_of
  delete_account-IsKept other differ = kept delete_account-DeletionOutcome
    where
      kept : {reply : AdminReply ℕ} {w' : World} → DeletionOutcome reply w' → IsKept other w'
      kept (refuses _) = record {
        same_user = refl;
        same_balance = refl;
        same_entries = refl;
        same_emails = refl;
        same_keys = refl;
        same_credentials = refl;
        same_domains = refl;
        same_requests = refl;
      }
      kept (deletes user _ _ _) = record {
        same_user =
            find-remove_other (λ (u : User). u.id == call.target) (λ (u : User). u.id == other)
              (λ u e. ground arith) w.users;
        same_balance =
            sum_delta-remove_other (is_of other) (is_welcome_entry call.target) w.credit_entries
              (λ e h. ground arith);
        same_entries =
            remove_where_absorb (is_welcome_entry call.target)
              (λ (e : CreditEntry). not (e.user_id == other)) w.credit_entries
              (λ e m h. ground arith);
        same_emails =
            remove_where_absorb (is_system_email call.target)
              (λ (e : Email). not (e.user_id == other)) w.emails (λ e m h. ground arith);
        same_keys = refl;
        same_credentials = refl;
        same_domains = refl;
        same_requests = refl;
      }
