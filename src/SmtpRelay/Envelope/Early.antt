-- ===== src/SmtpRelay/Envelope/Early.antt =====
-- The early checks of the relay only refuse: what they let through, and what they leave alone.
use zendou_backend.Common.{
  ℕ, ◌+◌, ◌≤◌, ◌≡◌, refl, ◌∙◌, inl, inr, Option, none, some, arith, ltb, Bool-cases, is_some,
}
use zendou_backend.Common.Int.{pos, ◌≤ℤ◌}
use zendou_backend.Text.{Text}
use zendou_backend.Schema.{User, find_user}
use zendou_backend.EmailAddress.{normalize_email_address}
use zendou_backend.Ledger.{balance_of}
use zendou_backend.Emails.Refusal.{Result, ok, err, send_refusal_reason}
use zendou_backend.Emails.Checks.{Env, sent_today}
use zendou_backend.Emails.Precheck.{precheck_smtp_envelope, precheck_smtp_recipients}
use zendou_backend.Emails.Precheck.Recipients.{precheck_smtp_recipients-covers}
use zendou_backend.SmtpRelay.Replies.{SmtpReply, reply_size_exceeded}
use zendou_backend.SmtpRelay.Throttle.{
  Session, RelayConfig, refuse_if, assert_message_count_within_limit,
  assert_send_burst_within_limit,
}
use zendou_backend.SmtpRelay.Conversation.{
  Answer, done, replied, thrown, RelayState, refusal_of, answer_of, Handler, ◌>>◌, consult,
  reply_if, throttle,
}
use zendou_backend.SmtpRelay.Conversation.Keeps.{>>=-KeepsStore}
use zendou_backend.SmtpRelay.Envelope.{
  SmtpSessionUser, max_recipients, recipient_total_with, rcpt_to, mail_from, answer_or, refusing,
  announces_too_much, as_too_many, counted, check_recipient, assert_recipients_covered,
}

module _ (cfg : RelayConfig) (env : Env) (session : Session) (user : SmtpSessionUser)
    (s : RelayState) where
  throttled-refused :
      (x : Option SmtpReply) (refusal : Answer (Unit {0}))
      → answer_or (refusal_of x) refusal ≡ done tt
      → refusal ≡ done tt
  throttled-refused none refusal e = e
  throttled-refused (some reply) refusal e = cc

  counted-done :
      (x : Answer (Unit {0})) (s' : RelayState)
      → (counted cfg session (x, s')).0 ≡ done tt
      → x ≡ done tt
  counted-done (done tt) s' e = refl
  counted-done (replied reply) s' e = throttled-refused _ _ e
  counted-done (thrown f) s' e = throttled-refused _ _ e

  passed : (r : Result (Unit {0})) → as_too_many (answer_of r) ≡ done tt → r ≡ ok tt
  passed (ok tt) e = refl
  passed (err f) e = elim (Bool-cases (is_some (send_refusal_reason f))) [
    | inl refused ↦ cc (rw refused at e)
    | inr other ↦ cc (rw other at e)
  ]

  abbrev total : Text → ℕ
  total recipient = recipient_total_with session recipient

  -- The two checks of a recipient that can be read.
  total-passed :
      (recipient : Text)
      → (check_recipient cfg env (some recipient) session user s).0 ≡ done tt
      → (total recipient ≤ max_recipients cfg)
        × (precheck_smtp_recipients env user.user_id (total recipient) s.world ≡ ok tt)
  total-passed recipient e = elim (Bool-cases (ltb (max_recipients cfg) (total recipient))) [
    | inl too_many ↦ cc (rw too_many at e)
    | inr fine ↦ (
      ground arith,
      passed (precheck_smtp_recipients env user.user_id (total recipient) s.world) (rw fine at e),
    )
  ]

  abbrev pub rcpt_answer : Text → Answer (Unit {0})
  rcpt_answer address = (rcpt_to cfg env address session user s).0

  -- What a recipient that is let through has passed.
  pub record IsCovered (address : Text) (u : User) : Type 0 where
    pub recipient : Text
    pub readable : normalize_email_address address ≡ some recipient
    pub within : recipient_total_with session recipient ≤ max_recipients cfg
    pub affordable :
        pos (recipient_total_with session recipient)
        ≤ℤ balance_of s.world.credit_entries user.user_id
    pub in_limit :
        sent_today env user.user_id s.world + recipient_total_with session recipient
        ≤ u.daily_send_limit

  check-IsCovered :
      (address : Text) (u : User) (o : Option Text)
      → find_user s.world user.user_id ≡ some u
      → normalize_email_address address ≡ o
      → (check_recipient cfg env o session user s).0 ≡ done tt
      → IsCovered address u
  check-IsCovered address u none found readable e = cc
  check-IsCovered address u (some recipient) found readable e =
      let (within, enough) = total-passed recipient e in
      let (credits, limit) =
        precheck_smtp_recipients-covers env user.user_id (total recipient) u s.world found enough in
      record {
        recipient = recipient;
        readable = readable;
        within = within;
        affordable = credits;
        in_limit = limit;
      }

  -- A recipient that the relay lets through is an address that can be read; counted with those
  -- before it, a repeated address once, it is within the limit of recipients, the balance covers a
  -- credit for each, and the day's limit all of them.
  pub rcpt_to-IsCovered :
      (address : Text) (u : User)
      → find_user s.world user.user_id ≡ some u
      → rcpt_answer address ≡ done tt
      → IsCovered address u
  unfolding rcpt_to
  rcpt_to-IsCovered address u found e =
      check-IsCovered address u (normalize_email_address address) found refl (
        counted-done (check_recipient cfg env (normalize_email_address address) session user s).0 _
          e)

  counted-same :
      (x : Answer (Unit {0})) (s' : RelayState) → (counted cfg session (x, s')).1.world ≡ s'.world
  counted-same (done tt) s' = refl
  counted-same (replied reply) s' = refl
  counted-same (thrown f) s' = refl

  check-same : (o : Option Text) → (check_recipient cfg env o session user s).1.world ≡ s.world
  check-same none = refl
  check-same (some recipient) =
      >>=-KeepsStore (reply_if _)
        (λ _. assert_recipients_covered env user.user_id (total recipient)) (λ s'. refl)
        (λ _ s'. refl) s

  mail_from-same :
      (address : Text) (announced : Option ℕ)
      → (mail_from cfg env address announced session user s).1.world ≡ s.world
  unfolding mail_from
  mail_from-same address announced =
      let size : Handler (Unit {0}) =
        reply_if (refuse_if (announces_too_much cfg announced) reply_size_exceeded) in
      let count : Handler (Unit {0}) = throttle (assert_message_count_within_limit cfg session) in
      let burst : Handler (Unit {0}) =
        throttle (assert_send_burst_within_limit cfg env.now user.user_id) in
      let envelope : Handler (Unit {0}) =
        refusing (consult (precheck_smtp_envelope env user.user_id address user.credential_id)) in
      >>=-KeepsStore envelope (λ _. burst >> (count >> size)) (λ s'. refl)
        (λ _.
          >>=-KeepsStore burst (λ _. count >> size) (λ s'. refl)
            (λ _. >>=-KeepsStore count (λ _. size) (λ s'. refl) (λ _ s'. refl)))
        s

  -- Neither early check writes anything to the store, whatever it answers.
  pub early-unchanged :
      (address : Text) (announced : Option ℕ)
      → ((mail_from cfg env address announced session user s).1.world ≡ s.world)
        × ((rcpt_to cfg env address session user s).1.world ≡ s.world)
  unfolding rcpt_to
  early-unchanged address announced = (
    mail_from-same address announced,
    counted-same _ _ ∙ check-same (normalize_email_address address),
  )
