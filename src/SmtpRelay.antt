-- ===== src/SmtpRelay.antt =====
-- src/smtp: the conversation of the submission relay, from `MAIL FROM` to the reply at the end of
-- `DATA`.
pub mod Replies
pub mod Reply
pub mod Throttle
pub mod Conversation
pub mod Envelope
pub mod Mime
pub mod FanOut
pub mod Data
