-- ===== src/Tests/Accounts.antt =====
-- Accounts suspended, deleted and erased on the small installation.
use zendou_backend.Common.{◌<◌, ℕ, ◌≡◌, refl, true, none, some, [], ◌∷◌, ◌++◌, arith}
use zendou_backend.Common.Int.{pos}
use zendou_backend.Text.{text}
use zendou_backend.Sessions.{destroy_all_for_user}
use zendou_backend.Schema.{
  delete_user, anonymize_user, find_user, User, Email, suspended, suspend_user, reactivate_user,
  adjust_quota, grant_credits, World,
}
use zendou_backend.Emails.Checks.{
  AccountState, api_key, assert_account_may_send, require_credential,
}
use zendou_backend.Emails.Refusal.{ok, err, refused, account_suspended}
use zendou_backend.Emails.Accept.{accept}
use zendou_backend.Reputation.{evaluate}
use zendou_backend.Admin.{Blocker, delete_blocked, performed, denied}
use zendou_backend.Admin.Users.{Call, suspend, reactivate, reactivate_row, update_quota, grant}
use zendou_backend.Admin.Users.Resumption.{sent_since, reactivate_starts_afresh}
use zendou_backend.Admin.Audit.{IsAudited, IsNamed, erasing_call, forgotten, operations-IsAudited}
use zendou_backend.Admin.Deletion.{delete_account, delete_blockers}
use zendou_backend.Admin.Deletion.Complete.{
  IsGone, IsKept, delete_account-IsGone, delete_account-IsKept,
}
use zendou_backend.AccountLifecycle.{has_purchased_credits}
use zendou_backend.AccountLifecycle.Anonymization.{
  Erasing, by_admin, by_inactivity, AnonymizationResult, anonymize,
}
use zendou_backend.AccountLifecycle.Anonymization.Traces.{IsErased, anonymize-IsErased}
use zendou_backend.AccountLifecycle.Permanence.{IsClosed}
use zendou_backend.AccountLifecycle.Permanence.Steps.{Step, Reach, erased_for_good}
use zendou_backend.Tests.{instant, env, fresh, ann, office, bonus, letter, outgoing}
use zendou_backend.Tests.Sanctions.{ctx}

-- Jean mistyped his address: a confirmation that bounced, a bonus, and nothing else.
abbrev jean : User
jean = record ann { id = 3; email = text "jean@gmial.com" }

abbrev confirmation : Email
confirmation = record outgoing { id = 61; user_id = 3; domain_id = some 11; system = true }

abbrev town : World
town = record office {
  users = office.users ++ jean ∷ [];
  emails = outgoing ∷ confirmation ∷ [];
  credit_entries = office.credit_entries ++ record bonus { user_id = 3 } ∷ [];
}

-- Calls of the administrator.
abbrev call_on : ℕ → Call
call_on target = record { now = instant; key = 90; admin = 2; target = target }

deletions :
    ((delete_account (call_on 3) town).0 ≡ performed 90)
    × ((delete_account (call_on 1) town).0
        ≡ denied (
            delete_blocked (
              Blocker.domains 1
              ∷ Blocker.api_keys 1
              ∷ Blocker.smtp_credentials 1
              ∷ Blocker.emails 1
              ∷ Blocker.topup_requests 1
              ∷ [])))
unfolding delete_account delete_blockers
deletions = (refl, refl)

delete_account-IsGone_example : IsGone (call_on 3) town (delete_account (call_on 3) town).1
delete_account-IsGone_example = delete_account-IsGone (call_on 3) town 90 deletions.0

delete_account-IsKept_example : IsKept (call_on 3) town 1 (delete_account (call_on 3) town).1
delete_account-IsKept_example = delete_account-IsKept (call_on 3) town 1 (λ e. cc)

-- Every identity at SES is destroyed, and keys are spelled by one letter.
abbrev pub erasing : Erasing
erasing = record {
  now = instant;
  key = 91;
  spell = λ id. text "x";
  deletes_identity = λ name. true;
  redis_up = true;
}

operations-IsAudited_example :
    IsNamed (call_on 1) suspend_user town (suspend (call_on 1) (text "abuse") town)
    × IsNamed (call_on 1) reactivate_user town (reactivate (call_on 1) none town)
    × IsNamed (call_on 1) adjust_quota town (update_quota (call_on 1) 500 town)
    × IsNamed (call_on 1) grant_credits town (grant (call_on 1) (pos 10) (text "abuse") town)
    × IsNamed
        (erasing_call erasing 2 1 town)
        anonymize_user
        town
        (anonymize erasing 1 (by_admin 2) town)
    × IsAudited
        (call_on 1)
        delete_user
        none
        (forgotten (call_on 1) town)
        town
        (delete_account (call_on 1) town).0
        (delete_account (call_on 1) town).1
operations-IsAudited_example =
    operations-IsAudited (call_on 1) (text "abuse") none 500 (pos 10) erasing town

abbrev stopped : World
stopped = record town { users = record ann { status = suspended } ∷ [] }

reopened :
    (reactivate (call_on 1) none stopped).0
    ≡ performed (reactivate_row instant (record ann { status = suspended }))
unfolding reactivate
reopened = refl

-- A later state, with a send of the account that has left, and its activity noted.
abbrev resumed : World
resumed =
    let w = (reactivate (call_on 1) none stopped).1 in
    record w {
      emails = w.emails ++ outgoing ∷ [];
      users =
          record (reactivate_row instant (record ann { status = suspended })) {
            last_activity_at = some instant;
          }
          ∷ [];
    }

few_left : sent_since (call_on 1) stopped resumed < 50
unfolding reactivate
few_left = omega arith

reactivate_starts_afresh_example :
    (find_user (reactivate (call_on 1) none stopped).1 1
      ≡ some (reactivate_row instant (record ann { status = suspended })))
    × ((evaluate ctx 1 resumed).1 ≡ resumed)
    × (a : AccountState) × (assert_account_may_send 1 resumed ≡ ok a)
reactivate_starts_afresh_example =
    reactivate_starts_afresh (call_on 1) stopped none _ ctx resumed _ reopened refl refl refl refl
      few_left

abbrev erasure : AnonymizationResult
erasure = record { anonymized_at = instant; remaining_actions = [] }

-- Two years asleep, and warned.
abbrev asleep : World
asleep = record town {
  users = record ann { last_activity_at = some 5000; inactivity_warning_sent_at = some 6000 } ∷ [];
}

erasures :
    ((anonymize erasing 1 (by_admin 2) town).0 ≡ performed (some erasure))
    × ((anonymize erasing 1 (by_inactivity 5000 7000) asleep).0 ≡ performed (some erasure))
unfolding anonymize has_purchased_credits
erasures = (refl, refl)

anonymize-IsErased_example :
    IsErased erasing 1 (by_admin 2) town (anonymize erasing 1 (by_admin 2) town).1
anonymize-IsErased_example = anonymize-IsErased erasing 1 (by_admin 2) town erasure refl erasures.0

-- Ann erased, and a reactivation of her account asked for.
abbrev emptied : World
emptied = (anonymize erasing 1 (by_admin 2) town).1

emptied-IsClosed : IsClosed 1 emptied
unfolding anonymize has_purchased_credits destroy_all_for_user
emptied-IsClosed = record { account = _; row = refl; closed = (refl, refl) }

letter_key :
    require_credential letter.channel letter.api_key_id letter.smtp_credential_id ≡ ok (api_key 4)
unfolding require_credential
letter_key = refl

erased_for_good_example :
    IsClosed 1 (reactivate (call_on 1) none emptied).1
    × (accept env fresh 1 letter (reactivate (call_on 1) none emptied).1
        ≡ (err (refused account_suspended none), (reactivate (call_on 1) none emptied).1))
erased_for_good_example =
    erased_for_good 1 emptied (reactivate (call_on 1) none emptied).1 env fresh letter (api_key 4)
      emptied-IsClosed (Reach.next Reach.here (Step.reactivates (call_on 1) none emptied))
      letter_key
