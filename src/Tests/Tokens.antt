-- ===== src/Tests/Tokens.antt =====
-- Two sessions of Ann and one of the administrator, and the revocation of Ann's.
use zendou_backend.Common.{◌+◌, ◌≡◌, ◌≢◌, refl, some, arith}
use zendou_backend.Schema.{World}
use zendou_backend.Sessions.{create_session, resolve_session, peek_session, destroy_all_for_user}
use zendou_backend.Sessions.Revocation.{Step, Ran, Without, revoked_for_good}
use zendou_backend.Tests.{instant, office}

abbrev first : World
first = create_session instant 501 1 office

abbrev second : World
second = create_session (instant + 10) 502 1 first

abbrev third : World
third = create_session (instant + 20) 503 2 second

abbrev revoked : World
revoked = destroy_all_for_user (instant + 20) 1 third

visits : Ran (instant + 20) third
visits =
    Ran.next
      (Ran.next
        (Ran.next (Ran.start instant office (λ t. refl)) (omega arith) (Step.creates 501 1 office))
        (omega arith) (Step.creates 502 1 first))
      (omega arith) (Step.creates 503 2 second)

-- The second session was read, and the third still is after the revocation.
read_before :
    (peek_session (instant + 20) 502 third ≡ some 1)
    × (peek_session (instant + 20) 503 revoked ≡ some 2)
unfolding peek_session create_session destroy_all_for_user
read_before = (refl, refl)

after_visit :
    Without 1 (instant + 20) revoked (instant + 30) (resolve_session (instant + 30) 503 revoked).1
after_visit = Without.next Without.here (omega arith) (λ e. cc) (Step.resolves 503 revoked)

revoked_for_good_example :
    ((resolve_session (instant + 30) 502 (resolve_session (instant + 30) 503 revoked).1).0 ≢ some 1)
    × (peek_session (instant + 30) 502 (resolve_session (instant + 30) 503 revoked).1 ≢ some 1)
revoked_for_good_example =
    revoked_for_good 1 (instant + 20) (instant + 30) 502 third
      (resolve_session (instant + 30) 503 revoked).1 visits after_visit
