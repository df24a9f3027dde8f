-- ===== src/AccountLifecycle/Anonymization/Traces.antt =====
-- What is left of an erased account: its payments, and nothing that names its holder.
use zendou_backend.Common.{
  ℕ, ◌≤◌, ◌≡◌, refl, ◌⊎◌, ◌∙◌, inl, inr, true, false, Option, none, some, List, ◌++◌, ap, all, ◌==◌,
  Bool-cases, find_sound, count, find-update_any, update_where, count-remove_self, leb→le, and_left,
  and_right,
}
use zendou_backend.Schema.{
  suspended, User, Email, Credential, Domain, Suppression, AdminAction, World, find_user,
}
use zendou_backend.Text.{text}
use zendou_backend.AccountLifecycle.Masking.{is_hidden, masked-hidden}
use zendou_backend.Sessions.{destroy_all_for_user}
use zendou_backend.Admin.{AdminReply, performed}
use zendou_backend.AccountLifecycle.{
  mask_phone_number, has_purchased_credits, marked_before, last_activity,
}
use zendou_backend.AccountLifecycle.Anonymization.{
  Origin, by_admin, by_inactivity, Erasing, AnonymizationResult, is_admin, anonymize_row,
  may_rewrite, owned_by, log_erasure, erased, revoke, anonymize,
}
use zendou_backend.AccountLifecycle.Anonymization.Erasure.{
  IsKey, IsErasable, after_erasure, ErasureOutcome, refuses, skips, erases,
  anonymize-ErasureOutcome,
}

module _ (ctx : Erasing) (user : ℕ) (origin : Origin) (w : World) where
  -- A table that neither the journal nor the sessions touch.
  module _ {X : Type 0} (table : World → X)
      (journal_keeps : (v : World) (actions : List AdminAction)
        → table (record v { admin_actions = actions }) ≡ table v)
      (sessions_keep : (v : World) → table (destroy_all_for_user ctx.now user v) ≡ table v) where
    log-same : (o : Origin) (v : World) → table (log_erasure ctx o user v) ≡ table v
    log-same (by_inactivity _ _) v = refl
    log-same (by_admin _) v = journal_keeps v _

    revoke-same : (v : World) → table (revoke ctx user v) ≡ table v
    revoke-same v = elim (Bool-cases ctx.redis_up) [
      | inl up ↦ rw up (sessions_keep v)
      | inr down ↦ rw down refl
    ]

    pub after-same : table (after_erasure ctx user origin w) ≡ table (erased ctx origin user w)
    after-same = revoke-same _ ∙ log-same origin _

  -- The row of an erased account, of which the name, the address and every other trace of its holder
  -- are gone, and the rows that went with it; its payments stay, to the unit.
  pub record IsErased (w' : World) : Type 0 where
    pub before : User
    pub was : find_user w user ≡ some before
    pub after : User
    pub now_is : find_user w' user ≡ some after
    pub email : after.email ≡ text "anonymise-" ++ ctx.spell before.id ++ text "@anonymise.invalid"
    pub name : after.name ≡ text "Compte anonymisé"
    pub no_company : after.company ≡ none
    pub no_usage : after.declared_usage ≡ none
    pub no_password : after.password_hash ≡ none
    pub no_google : after.google_sub ≡ none
    pub no_token : after.email_verification_token_hash ≡ none
    pub no_pending : after.email_verification_sent_to ≡ none
    pub closed : after.status ≡ suspended
    pub closed_at : after.suspended_at ≡ some ctx.now
    pub erased_at : after.anonymized_at ≡ some ctx.now
    pub whole : after ≡ anonymize_row ctx origin before
    pub no_emails : count (λ e. e.user_id == user) w'.emails ≡ 0
    pub no_keys : count (λ k. k.user_id == user) w'.api_keys ≡ 0
    pub no_credentials : count (λ k. k.user_id == user) w'.smtp_credentials ≡ 0
    pub no_domains : count (λ d. d.user_id == user) w'.domains ≡ 0
    pub no_suppressions : count (λ s. owned_by user s.user_id) w'.suppressions ≡ 0
    pub same_entries : w'.credit_entries ≡ w.credit_entries
    pub requests :
        w'.topup_requests
        ≡ update_where
            (λ r. r.user_id == user)
            (λ r. record r {
              phone_number = mask_phone_number r.phone_number;
              rejection_reason = none;
            })
            w.topup_requests
    pub few_digits : all (is_hidden user) w'.topup_requests ≡ true

  erased_row :
      (u : User)
      → IsErasable ctx user origin w u
      → find_user (erased ctx origin user w) user ≡ some (anonymize_row ctx origin u)
  erased_row u fine =
      let own : (u.id == user) ≡ true =
        find_sound (λ (u : User). u.id == user) w.users u fine.row in
      find-update_any (λ (u : User). u.id == user) (anonymize_row ctx origin)
        (may_rewrite origin user) w.users u (λ u. refl) fine.row
      ∙ rw (own, fine.not_erased, fine.is_client, fine.eligible) refl

  after-IsErased :
      (u : User) → IsErasable ctx user origin w u → IsErased (after_erasure ctx user origin w)
  unfolding destroy_all_for_user
  after-IsErased u fine = record {
    before = u;
    was = fine.row;
    after = anonymize_row ctx origin u;
    email = refl;
    name = refl;
    no_company = refl;
    no_usage = refl;
    no_password = refl;
    no_google = refl;
    no_token = refl;
    no_pending = refl;
    closed = refl;
    closed_at = refl;
    erased_at = refl;
    whole = refl;
    now_is = after-same (λ v. find_user v user) (λ v a. refl) (λ v. refl) ∙ erased_row u fine;
    no_emails =
        after-same (λ v. count (λ (e : Email). e.user_id == user) v.emails) (λ v a. refl)
          (λ v. refl)
        ∙ count-remove_self (λ (e : Email). e.user_id == user) w.emails;
    no_keys =
        after-same (λ v. count (λ (k : Credential). k.user_id == user) v.api_keys) (λ v a. refl)
          (λ v. refl)
        ∙ count-remove_self (λ (k : Credential). k.user_id == user) w.api_keys;
    no_credentials =
        after-same (λ v. count (λ (k : Credential). k.user_id == user) v.smtp_credentials)
          (λ v a. refl) (λ v. refl)
        ∙ count-remove_self (λ (k : Credential). k.user_id == user) w.smtp_credentials;
    no_domains =
        after-same (λ v. count (λ (d : Domain). d.user_id == user) v.domains) (λ v a. refl)
          (λ v. refl)
        ∙ count-remove_self (λ (d : Domain). d.user_id == user) w.domains;
    no_suppressions =
        after-same (λ v. count (λ (s : Suppression). owned_by user s.user_id) v.suppressions)
          (λ v a. refl) (λ v. refl)
        ∙ count-remove_self (λ (s : Suppression). owned_by user s.user_id) w.suppressions;
    same_entries = after-same (λ v. v.credit_entries) (λ v a. refl) (λ v. refl);
    requests = after-same (λ v. v.topup_requests) (λ v a. refl) (λ v. refl);
    few_digits =
        ap (all (is_hidden user)) (after-same (λ v. v.topup_requests) (λ v a. refl) (λ v. refl))
        ∙ masked-hidden user w.topup_requests;
  }

  -- An anonymization that goes through, of an account whose key is its own: its row has the name and
  -- the address of an erased account, and no company, use, password, Google account or pending
  -- confirmation; it is suspended and bears the date; no email, key, credential, domain or
  -- suppression of it is left; of its payments, every credit entry stays as it was, and the top-up
  -- requests lose only the reason of a refusal and the number, of which seven digits at most are
  -- left.
  pub anonymize-IsErased :
      (result : AnonymizationResult)
      → IsKey user w
      → (anonymize ctx user origin w).0 ≡ performed (some result)
      → IsErased (anonymize ctx user origin w).1
  anonymize-IsErased result key e = outcome (anonymize-ErasureOutcome ctx user origin w key) e
    where
      outcome :
          {reply : AdminReply (Option AnonymizationResult)} {w' : World}
          → ErasureOutcome ctx user origin w reply w'
          → reply ≡ performed (some result)
          → IsErased w'
      outcome refuses e = cc
      outcome skips e = cc
      outcome (erases u fine) e = after-IsErased u fine

  -- Any other end of an anonymization, a refusal or an account passed over, has written nothing.
  pub anonymize_or_unchanged :
      IsKey user w
      → ((result : AnonymizationResult) × ((anonymize ctx user origin w).0
            ≡ performed (some result)))
        ⊎ ((anonymize ctx user origin w).1 ≡ w)
  anonymize_or_unchanged key = outcome (anonymize-ErasureOutcome ctx user origin w key)
    where
      outcome :
          {given : AdminReply (Option AnonymizationResult)} {w' : World}
          → ErasureOutcome ctx user origin w given w'
          → ((result : AnonymizationResult) × (given ≡ performed (some result))) ⊎ (w' ≡ w)
      outcome refuses = inr refl
      outcome skips = inr refl
      outcome (erases {result} u fine) = inl (result, refl)

-- The account that the treatment of inactive accounts may erase.
pub record IsDue (cutoff before user : ℕ) (w : World) : Type 0 where
  pub account : User
  pub row : find_user w user ≡ some account
  pub is_client : is_admin account.role ≡ false
  pub asleep : last_activity account ≤ cutoff
  pub warned : marked_before before account.inactivity_warning_sent_at ≡ true
  pub unprotected : has_purchased_credits w user ≡ false

-- The treatment of inactive accounts erases only a client's account without activity since the
-- cutoff, warned no later than the other date, and without purchased credits.
pub anonymize_inactive-IsDue :
    (ctx : Erasing) (user cutoff before : ℕ) (w : World) (result : AnonymizationResult)
    → IsKey user w
    → (anonymize ctx user (by_inactivity cutoff before) w).0 ≡ performed (some result)
    → IsDue cutoff before user w
anonymize_inactive-IsDue ctx user cutoff before w result key e =
    outcome (anonymize-ErasureOutcome ctx user (by_inactivity cutoff before) w key) e
  where
    outcome :
        {reply : AdminReply (Option AnonymizationResult)} {w' : World}
        → ErasureOutcome ctx user (by_inactivity cutoff before) w reply w'
        → reply ≡ performed (some result)
        → IsDue cutoff before user w
    outcome refuses e = cc
    outcome skips e = cc
    outcome (erases u fine) e = record {
      account = u;
      row = fine.row;
      is_client = fine.is_client;
      asleep = leb→le _ _ (and_right _ _ fine.eligible);
      warned = and_left _ _ fine.eligible;
      unprotected = fine.unprotected;
    }
