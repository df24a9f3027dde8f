-- ===== src/Emails.antt =====
-- src/emails/emails.service.ts: the one place where an email is accepted, charged and queued.
pub mod Refusal
pub mod Day
pub mod Pure
pub mod Stateful
pub mod Checks
pub mod Accept
pub mod Precheck
pub mod System
