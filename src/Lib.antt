-- ===== src/Lib.antt =====
-- Zendou, a backend that sends email for its clients: an HTTP API and an SMTP relay accept a
-- message, charge a prepaid credit for it, and queue it for a worker that hands it to Amazon SES;
-- SES reports back through SNS. All paths are from the repository's root.
--
-- The parts and their files.
--   Schema: the tables (prisma/schema.prisma) as records, and `World`, the whole state: the tables,
--   the queue of jobs, and the promises that the code starts without awaiting them (`tasks`).
--   Text: JavaScript strings as lists of UTF-16 code units, with the string methods in use.
--   EmailAddress (src/emails/email-address.ts) and EmailHeaders (src/emails/email-headers.ts): the
--   parsing of addresses and the white list of custom headers.
--   Ledger: the sums over `CreditEntry`. A balance is never stored; it is a sum of deltas.
--   Emails (src/emails/emails.service.ts): `Checks` holds the private methods that may refuse,
--   `Accept` the point of acceptance with its callers `send` (here `send_email`) and `acceptSmtp`,
--   `Accept/Request` the part of it that comes before any write, `Precheck` the early checks of the
--   relay, `System` the messages that Zendou sends in its own name and the two started promises,
--   `Refusal` what is thrown, `Day` the quota's day.
--   SendJob (src/emails/email-send.processor.ts): the worker, and the attempts of the queue.
--   Billing (src/billing/billing.service.ts, packs.ts): balance and top-up requests; `Review`
--   (src/billing/admin/admin-billing.service.ts): their approval and rejection.
--   Reputation (src/reputation): rates, verdict, suspension, daily limit.
--   SnsWebhook (src/sns-webhook/sns-webhook.service.ts): deliveries, bounces and complaints.
--   SmtpRelay (src/smtp): `Replies` and `Reply` what the relay answers to an error, `Throttle`
--   (smtp-throttle.service.ts) the counters against abuse, `Conversation` the monad of the
--   handlers, `Mime` (mime-headers.ts) the reading and the rewriting of a message's headers,
--   `Envelope`, `Data` and `FanOut` (smtp-pipeline.service.ts) `mailFrom` and `rcptTo`, `data`, and
--   the acceptance of one message for each of its recipients.
--   Admin (src/admin/admin-users.service.ts): suspension, reactivation, quota, grants, and
--   `Deletion`, the hard deletion of an account. AccountLifecycle (src/account-lifecycle): the
--   erasure of an account, on request or for inactivity, and `Inactivity` the daily passage over
--   the accounts that sleep. Sessions (src/auth/session.service.ts): the
--   tokens in Redis and their index by client, which both revoke.
--   Retention (src/retention/retention.service.ts): the purge of the journal of sends, page by page.
--   LoginLockout (src/auth/login-lockout.service.ts): the lock on an address after failed logins, on
--   the keys of Redis.
--   Credentials (src/api-keys, src/smtp-credentials, src/domains/credential-scope.ts): the life of a
--   key and of a password of the relay, the same on both tables; `Secrets` their hashes, `Guard` who
--   presents one (api-key-auth.guard.ts and src/smtp/smtp-auth.service.ts). RateLimit
--   (src/rate-limit/redis-throttler.storage.ts): the counters in Redis that the guard uses.
--   Common: Boolean tests, lists as tables, and integers over the native numbers. Tests: a small
--   installation, and each theorem applied to it.
--
-- How they interact. An acceptance reads accounts, domains, credentials, suppressions and the
-- ledger, and writes a row, a debit, a job and two tasks. The worker takes the job and moves the
-- row from QUEUED to SENT, FAILED or SUPPRESSED; SNS events move it on, add suppressions, which
-- later acceptances read, and have the reputation evaluated, which may suspend the account, which
-- later acceptances read too. A review credits the ledger, and so does a grant. A task may send a
-- system email. The relay calls the acceptance once for each recipient, on the state that the one
-- before has left. An erasure takes the rows of an account from every table but the payments; a
-- deletion is denied where rows are left other than the system emails and the welcome bonus, which
-- it takes, and does not touch the suppressions.
--
-- How the code is modelled. An operation is a function from the state to an answer and a state. A
-- check is a function into `Result`, which is a value or what is thrown; `Exec` adds the state, and
-- what was written before a throw stays written. A database key is a number, a `DateTime` a number
-- of milliseconds, and all calls of `new Date()` within one operation give one instant. Generated
-- keys and public identifiers are arguments. A Prisma query is a search, a count or an update of a
-- list, `findFirst` and `findUnique` the first row that passes. Foreign keys are not checked: a row
-- is added for an account whether or not it is there, and what a deletion cascades to is written
-- out. An operation runs without others in between, save where `Billing.Reconciliation.Race` says
-- how two of them overlap. The database does not fail; the queue may be out of reach (`queue_up`).
-- Logs are left out. Rates are fractions compared by cross multiplication, and ages are compared in
-- milliseconds.
--
-- Bounds and fuel. The purge of the journal and the passage over the inactive accounts run on a
-- number of pages, and one more than the rows is enough; every other loop is over a list of the
-- state or of the request. The attempts of a job are a list of the driver's answers, five as the
-- queue is told.
--
-- Not modelled: login apart from its lockout and the sessions, sockets and TLS, domains and DNS,
-- the policy of the rate limits, the failed jobs that the queue keeps, the paginated reads, and all
-- that is HTTP, cryptography or a call of AWS. What the SES driver answers is an argument, and so
-- are the text of each message and the reason of an automatic suspension.
mod Common
pub mod Text
pub mod Schema
pub mod EmailAddress
pub mod Ledger
pub mod EmailHeaders
pub mod Emails
pub mod SmtpRelay
pub mod Billing
pub mod Reputation
pub mod Retention
pub mod RateLimit
pub mod Credentials
pub mod SendJob
pub mod SnsWebhook
pub mod LoginLockout
pub mod Sessions
pub mod Admin
pub mod AccountLifecycle
mod Tests
