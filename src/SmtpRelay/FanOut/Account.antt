-- ===== src/SmtpRelay/FanOut/Account.antt =====
-- A message to several recipients: what is charged and queued, against what is answered.
use zendou_backend.Common.{
  ℕ, ◌+◌, ◌≤◌, ◌/◌, ◌≡◌, refl, ◌∙◌, inl, inr, Bool, true, false, not, Option, none, some, List, [],
  ◌∷◌, arith, length, length-append, count, all, All, Bool-cases, and_left, and_right,
}
use zendou_backend.Common.Int.{ℤ, pos, ◌+ℤ◌, int_laws, parts_of_eq}
use zendou_backend.Text.{Text}
use zendou_backend.Schema.{World}
use zendou_backend.Ledger.{balance_of}
use zendou_backend.Emails.Refusal.{Failure, Result}
use zendou_backend.Emails.Checks.{Env}
use zendou_backend.Emails.Accept.{Fresh, SendEmailResponse, smtp_input, accept_smtp}
use zendou_backend.Emails.Accept.Request.{AcceptInput}
use zendou_backend.Emails.Accept.Charge.{
  Outcome, refuses, blocks, loses, charges, accept-Outcome, after_debit,
}
use zendou_backend.SmtpRelay.Replies.{SmtpReply}
use zendou_backend.SmtpRelay.Throttle.{Session}
use zendou_backend.SmtpRelay.Conversation.{Answer, done, replied, RelayState}
use zendou_backend.SmtpRelay.Envelope.{SmtpSessionUser}
use zendou_backend.SmtpRelay.FanOut.{
  Recipient, Message, SmtpRecipientOutcome, queued, is_refused, outcome_of, deliver, fan_out,
  smtp_accept_input, reply_of_refusal,
}
use zendou_backend.SmtpRelay.Reply.Classes.{smtp_reply_for_error-IsOfClass}
use mathlib.Core.Path.{subst}

abbrev pub is_queued : SmtpRecipientOutcome → Bool
is_queued (queued _ _) = true
is_queued _ = false

abbrev pub is_taken : SmtpRecipientOutcome → Bool
is_taken outcome = not (is_refused outcome)

-- Every recipient has an outcome; each one queued has cost a credit and left a row and a job, each
-- one suppressed a row alone, each one refused nothing.
pub record IsAccounted (user : ℕ) (w : World) (outcomes : List SmtpRecipientOutcome) (w' : World)
    : Type 0 where
  pub balance :
      balance_of w'.credit_entries user +ℤ pos (count is_queued outcomes)
      ≡ balance_of w.credit_entries user
  pub emails : length w'.emails ≡ length w.emails + count is_taken outcomes
  pub jobs : length w'.jobs ≡ length w.jobs + count is_queued outcomes

zero_more : (a : ℤ) → a +ℤ pos 0 ≡ a
zero_more a = omega int_laws

module _ (user : ℕ) where
  one-IsAccounted :
      (env : Env) (fresh : Fresh) (input : AcceptInput) (address : Text) {w w' : World}
      {r : Result SendEmailResponse}
      → Outcome env fresh user input w r w'
      → fresh.queue_up ≡ true
      → IsAccounted user w (outcome_of address r ∷ []) w'
  one-IsAccounted env fresh input address {w} refuses up = record {
    balance = zero_more (balance_of w.credit_entries user);
    emails = omega arith;
    jobs = omega arith;
  }
  one-IsAccounted env fresh input address {w} (blocks _ _) up = record {
    balance = zero_more (balance_of w.credit_entries user);
    emails = length-append w.emails _;
    jobs = omega arith;
  }
  one-IsAccounted env fresh input address (loses _ down _ _) up = cc
  one-IsAccounted env fresh input address {w} (charges _ _ _ _) up = record {
    balance = after_debit env fresh user input w;
    emails = length-append w.emails _;
    jobs = length-append w.jobs _;
  }

  both-IsAccounted :
      {w w₁ w₂ : World} {outcome : SmtpRecipientOutcome} {others : List SmtpRecipientOutcome}
      → IsAccounted user w (outcome ∷ []) w₁
      → IsAccounted user w₁ others w₂
      → IsAccounted user w (outcome ∷ others) w₂
  both-IsAccounted a b = record {
    balance = omega (int_laws, parts_of_eq _ _ a.balance, parts_of_eq _ _ b.balance);
    emails = omega (arith, a.emails, b.emails);
    jobs = omega (arith, a.jobs, b.jobs);
  }

  -- Everything that a recipient's turn refuses is undone by nothing: it has written nothing.
  one-unchanged :
      (env : Env) (fresh : Fresh) (input : AcceptInput) (address : Text) {w w' : World}
      {r : Result SendEmailResponse}
      → Outcome env fresh user input w r w'
      → fresh.queue_up ≡ true
      → is_refused (outcome_of address r) ≡ true
      → w' ≡ w
  one-unchanged env fresh input address refuses up e = refl
  one-unchanged env fresh input address (blocks _ _) up e = cc
  one-unchanged env fresh input address (loses _ down _ _) up e = cc
  one-unchanged env fresh input address (charges _ _ _ _) up e = cc

reply-refuses : (refusal : Option Failure) → 4 ≤ (reply_of_refusal refusal).code / 100
reply-refuses none = omega arith
reply-refuses (some error) =
    let (code, _) = smtp_reply_for_error-IsOfClass error in ground (arith, code)

abbrev pub QueueUp : Recipient → Type 0
QueueUp recipient = recipient.fresh.queue_up ≡ true

module _ (env : Env) (user : SmtpSessionUser) (message : Message) where
  abbrev turn_env : Recipient → Env
  turn_env recipient = record env { now = recipient.now }

  abbrev turn : Recipient → World → Result SendEmailResponse × World
  turn recipient w =
      accept_smtp (turn_env recipient) recipient.fresh user.user_id
        (smtp_accept_input user message recipient.address) w

  turn-Outcome :
      (recipient : Recipient) (w : World)
      → Outcome
          (turn_env recipient)
          recipient.fresh
          user.user_id
          (smtp_input (smtp_accept_input user message recipient.address))
          w
          (turn recipient w).0
          (turn recipient w).1
  unfolding accept_smtp
  turn-Outcome recipient w = accept-Outcome _ _ _ _ w

  deliver-IsAccounted :
      (recipients : List Recipient) (w : World)
      → All QueueUp recipients
      → IsAccounted user.user_id w
          (deliver env user message recipients w).outcomes
          (deliver env user message recipients w).world
  unfolding deliver
  deliver-IsAccounted [] w up = record {
    balance = zero_more (balance_of w.credit_entries user.user_id);
    emails = omega arith;
    jobs = omega arith;
  }
  deliver-IsAccounted (recipient ∷ others) w (up, later) =
      both-IsAccounted user.user_id
        (one-IsAccounted user.user_id _ _ _ recipient.address (turn-Outcome recipient w) up)
        (deliver-IsAccounted others (turn recipient w).1 later)

  deliver-unchanged :
      (recipients : List Recipient) (w : World)
      → All QueueUp recipients
      → all is_refused (deliver env user message recipients w).outcomes ≡ true
      → (deliver env user message recipients w).world ≡ w
  unfolding deliver
  deliver-unchanged [] w up e = refl
  deliver-unchanged (recipient ∷ others) w (up, later) e =
      deliver-unchanged others (turn recipient w).1 later (and_right _ _ e)
      ∙ one-unchanged user.user_id _ _ _ recipient.address (turn-Outcome recipient w) up
          (and_left _ _ e)

  deliver-length :
      (recipients : List Recipient) (w : World)
      → length (deliver env user message recipients w).outcomes ≡ length recipients
  unfolding deliver
  deliver-length [] w = refl
  deliver-length (recipient ∷ others) w = omega (arith, deliver-length others (turn recipient w).1)

  taken-some :
      (outcomes : List SmtpRecipientOutcome)
      → all is_refused outcomes ≡ false
      → 1 ≤ count is_taken outcomes
  taken-some [] e = cc
  taken-some (outcome ∷ others) e = ground (arith, taken-some others)

  module _ (session : Session) (recipients : List Recipient) (s : RelayState) where
    abbrev pub answer : Answer (List SmtpRecipientOutcome)
    answer = (fan_out env session user message recipients s).0

    abbrev pub after : World
    after = (fan_out env session user message recipients s).1.world

    abbrev delivered : List SmtpRecipientOutcome
    delivered = (deliver env user message recipients s.world).outcomes

    answer-replied :
        all is_refused delivered ≡ true
        → answer ≡ replied (reply_of_refusal (deliver env user message recipients s.world).refusal)
    unfolding fan_out
    answer-replied e = rw e refl

    answer-done : all is_refused delivered ≡ false → answer ≡ done delivered
    unfolding fan_out
    answer-done e = rw e refl

    -- While the queue can be reached: an answer that takes the message takes it for a recipient at
    -- least, and lists an outcome for each; a credit has been debited and a job added for each
    -- recipient that the answer says is queued, and a row for each that it does not refuse.
    pub fan_out-IsAccounted :
        (outcomes : List SmtpRecipientOutcome)
        → All QueueUp recipients
        → answer ≡ done outcomes
        → IsAccounted user.user_id s.world outcomes after
          × (length outcomes ≡ length recipients)
          × (1 ≤ count is_taken outcomes)
    unfolding fan_out
    fan_out-IsAccounted outcomes up e = elim (Bool-cases (all is_refused delivered)) [
      | inl none_taken ↦ cc (answer-replied none_taken)
      | inr some_taken ↦
          subst
            (λ (os : List SmtpRecipientOutcome).
              IsAccounted user.user_id s.world os after
              × (length os ≡ length recipients)
              × (1 ≤ count is_taken os))
            (cc (answer-done some_taken))
            (
              deliver-IsAccounted recipients s.world up,
              deliver-length recipients s.world,
              taken-some delivered some_taken,
            )
    ]

    -- While the queue can be reached: a message that is not taken has written nothing for any
    -- recipient, so that the client may send it again, and the reply is a refusal.
    pub fan_out-unchanged_of_replied :
        (reply : SmtpReply)
        → All QueueUp recipients
        → answer ≡ replied reply
        → (after ≡ s.world) × (4 ≤ reply.code / 100)
    unfolding fan_out
    fan_out-unchanged_of_replied reply up e = elim (Bool-cases (all is_refused delivered)) [
      | inl none_taken ↦
          let given : reply_of_refusal (deliver env user message recipients s.world).refusal
              ≡ reply =
            cc (answer-replied none_taken) in
          (
            deliver-unchanged recipients s.world up none_taken,
            subst (λ (r : SmtpReply). 4 ≤ r.code / 100) given
                (reply-refuses (deliver env user message recipients s.world).refusal),
          )
      | inr some_taken ↦ cc (answer-done some_taken)
    ]
