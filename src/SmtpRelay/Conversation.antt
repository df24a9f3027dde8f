-- ===== src/SmtpRelay/Conversation.antt =====
-- The monad of the relay's handlers: the store and the counters, and what a handler throws.
pub mod Keeps
use zendou_backend.Common.{Option, none, some}
use zendou_backend.Schema.{World}
use zendou_backend.Emails.Refusal.{Failure, Result, ok, err}
use zendou_backend.SmtpRelay.Replies.{SmtpReply}
use zendou_backend.SmtpRelay.Throttle.{Throttle}

pub record RelayState : Type 0 where
  pub world : World
  pub throttle : Throttle

-- An answer, a reply thrown on purpose (`smtpReplyToError`), or another error.
pub data Answer (A : Type 0) : Type 0 where
  done : A → Answer A
  replied : SmtpReply → Answer A
  thrown : Failure → Answer A

abbrev pub Handler : Type 0 → Type 0
Handler A = RelayState → Answer A × RelayState

abbrev pub next : {A B : Type 0} → Answer A → RelayState → (A → Handler B) → Answer B × RelayState
next (done a) s k = k a s
next (replied reply) s k = (replied reply, s)
next (thrown f) s k = (thrown f, s)

infixl 5 ◌>>=◌ ◌>>◌
abbrev pub ◌>>=◌ : {A B : Type 0} → Handler A → (A → Handler B) → Handler B
◌>>=◌ m k s = next (m s).0 (m s).1 k

abbrev pub ◌>>◌ : {A B : Type 0} → Handler A → Handler B → Handler B
m >> k = m >>= λ _. k

abbrev pub give : {A : Type 0} → A → Handler A
give a s = (done a, s)

abbrev pub answer_of : {A : Type 0} → Result A → Answer A
answer_of (ok a) = done a
answer_of (err f) = thrown f

-- A call of the emails service that only reads.
abbrev pub consult : {A : Type 0} → (World → Result A) → Handler A
consult f s = (answer_of (f s.world), s)

abbrev pub refusal_of : Option SmtpReply → Answer (Unit {0})
refusal_of none = done tt
refusal_of (some reply) = replied reply

-- A call of the throttle that may refuse.
abbrev pub throttle : (Throttle → Option SmtpReply × Throttle) → Handler (Unit {0})
throttle f s = let (refusal, t) = f s.throttle in (refusal_of refusal, record s { throttle = t })

abbrev pub reply_if : Option SmtpReply → Handler (Unit {0})
reply_if refusal s = (refusal_of refusal, s)
