-- ===== src/Emails/System/Exemption.antt =====
-- What the exemption of system emails bypasses, and what it does not.
use zendou_backend.Common.{
  ℕ, ◌≡◌, refl, ap, inl, inr, true, false, Option, none, some, [], ◌∷◌, ◌++◌, arith, Bool-cases,
  find, count, count-append,
}
use mathlib.Core.Path.{subst}
use zendou_backend.Schema.{Domain, World}
use zendou_backend.Text.{Text, is_blank}
use zendou_backend.EmailAddress.{ParsedAddress, parse_email_address, normalize_email_address}
use zendou_backend.Emails.Refusal.{Failure, queue_down, Result, ok, err, Result-cases}
use zendou_backend.Emails.Checks.{
  Env, configured, is_verified_domain, is_address_suppressed, sent_today, counts_today,
}
use zendou_backend.Emails.Accept.{Fresh, create_email}
use zendou_backend.Emails.System.{
  SystemEmailPayload, SystemSendResult, queued_as, suppressed, SystemChecked, check_system_domain,
  check_system_sender, check_system, system_row, system_job, queue_system, send_system,
}

module _ (env : Env) (fresh : Fresh) (payload : SystemEmailPayload) (w : World) where
  -- Every way in which a system send ends.
  pub data SystemOutcome : Result SystemSendResult → World → Type 0 where
    fails : {f : Failure} → SystemOutcome (err f) w
    skips :
        {c : SystemChecked}
        → check_system env payload w ≡ ok c
        → is_address_suppressed w payload.user_id c.to_address ≡ true
        → SystemOutcome (ok suppressed) w
    strands :
        {c : SystemChecked}
        → check_system env payload w ≡ ok c
        → SystemOutcome (err queue_down) (create_email (system_row env fresh payload c) w)
    queues :
        {c : SystemChecked}
        → check_system env payload w ≡ ok c
        → is_address_suppressed w payload.user_id c.to_address ≡ false
        → SystemOutcome (ok (queued_as fresh.public_id)) (record w {
          emails = w.emails ++ system_row env fresh payload c ∷ [];
          jobs = w.jobs ++ system_job fresh payload ∷ [];
        })

  queue_system-Outcome :
      (c : SystemChecked)
      → check_system env payload w ≡ ok c
      → is_address_suppressed w payload.user_id c.to_address ≡ false
      → SystemOutcome (queue_system env fresh payload c w).0 (queue_system env fresh payload c w).1
  unfolding queue_system
  queue_system-Outcome c e open_ = elim (Bool-cases fresh.queue_up) [
    | inl up ↦ simp up (queues e open_)
    | inr down ↦ simp down (strands e)
  ]

  pub send_system-Outcome :
      SystemOutcome (send_system env fresh payload w).0 (send_system env fresh payload w).1
  unfolding send_system
  send_system-Outcome = elim (Result-cases (check_system env payload w)) [
    | inr (f, e) ↦ rw e fails
    | inl (c, e) ↦ elim (Bool-cases (is_address_suppressed w payload.user_id c.to_address)) [
      | inl blocked ↦ rw (e, blocked) (skips e blocked)
      | inr open_ ↦ rw (e, open_) (queue_system-Outcome c e open_)
    ]
  ]

  -- The tables of accounts, credits and tasks are as before.
  pub record IsExempt (w' : World) : Type 0 where
    pub users_same : w'.users ≡ w.users
    pub entries_same : w'.credit_entries ≡ w.credit_entries
    pub requests_same : w'.topup_requests ≡ w.topup_requests
    pub suppressions_same : w'.suppressions ≡ w.suppressions
    pub tasks_same : w'.tasks ≡ w.tasks
    pub quota_same : (user : ℕ) → sent_today env user w' ≡ sent_today env user w

  not_counted :
      (c : SystemChecked) (user : ℕ)
      → count (counts_today env user) (w.emails ++ system_row env fresh payload c ∷ [])
        ≡ count (counts_today env user) w.emails
  not_counted c user =
      rw (count-append (counts_today env user) w.emails (system_row env fresh payload c ∷ []))
        (ground arith)

  Outcome-IsExempt : {r : Result SystemSendResult} {w' : World} → SystemOutcome r w' → IsExempt w'
  unfolding sent_today
  Outcome-IsExempt fails = record {
    users_same = refl;
    entries_same = refl;
    requests_same = refl;
    suppressions_same = refl;
    tasks_same = refl;
    quota_same = λ user. refl;
  }
  Outcome-IsExempt (skips _ _) = record {
    users_same = refl;
    entries_same = refl;
    requests_same = refl;
    suppressions_same = refl;
    tasks_same = refl;
    quota_same = λ user. refl;
  }
  Outcome-IsExempt (strands {c} _) = record {
    users_same = refl;
    entries_same = refl;
    requests_same = refl;
    suppressions_same = refl;
    tasks_same = refl;
    quota_same = not_counted c;
  }
  Outcome-IsExempt (queues {c} _ _) = record {
    users_same = refl;
    entries_same = refl;
    requests_same = refl;
    suppressions_same = refl;
    tasks_same = refl;
    quota_same = not_counted c;
  }

  -- Whatever it answers, a system send debits nobody and counts in nobody's quota of the day; it
  -- changes no account, no top-up request and no suppression, and starts no task.
  pub send_system-IsExempt : IsExempt (send_system env fresh payload w).1
  send_system-IsExempt = Outcome-IsExempt send_system-Outcome

  -- What is not bypassed.
  pub record IsGuarded (w' : World) : Type 0 where
    pub checked : SystemChecked
    pub sender : parse_email_address (configured env.system_email_from) ≡ some checked.from
    pub recipient : normalize_email_address payload.to ≡ some checked.to_address
    pub domain_verified :
        find (is_verified_domain checked.from.domain) w.domains ≡ some checked.domain
    pub not_blocked : is_address_suppressed w payload.user_id checked.to_address ≡ false
    pub row : w'.emails ≡ w.emails ++ system_row env fresh payload checked ∷ []
    pub job : w'.jobs ≡ w.jobs ++ system_job fresh payload ∷ []

  domain_parts :
      (c : SystemChecked) (p : ParsedAddress) (t : Text) (o : Option Domain)
      → o ≡ find (is_verified_domain p.domain) w.domains
      → check_system_domain p t o ≡ ok c
      → (p ≡ c.from)
        × (t ≡ c.to_address)
        × (find (is_verified_domain p.domain) w.domains ≡ some c.domain)
  domain_parts c p t none e h = cc
  domain_parts c p t (some d) e h = (cc, cc, cc)

  sender_parts :
      (c : SystemChecked) (p : Option ParsedAddress) (t : Option Text)
      → check_system_sender p t w ≡ ok c
      → (p ≡ some c.from)
        × (t ≡ some c.to_address)
        × (find (is_verified_domain c.from.domain) w.domains ≡ some c.domain)
  sender_parts c none t h = cc
  sender_parts c (some p) none h = cc
  sender_parts c (some p) (some t) h =
      let (from, to, domain) =
        domain_parts c p t (find (is_verified_domain p.domain) w.domains) refl h in
      (
        ap some from,
        ap some to,
        subst (λ (a : ParsedAddress). find (is_verified_domain a.domain) w.domains ≡ some c.domain)
            from domain,
      )

  check_system-parts :
      (c : SystemChecked)
      → check_system env payload w ≡ ok c
      → (parse_email_address (configured env.system_email_from) ≡ some c.from)
        × (normalize_email_address payload.to ≡ some c.to_address)
        × (find (is_verified_domain c.from.domain) w.domains ≡ some c.domain)
  unfolding check_system
  check_system-parts c h = elim (Bool-cases (is_blank (configured env.system_email_from))) [
    | inl blank ↦ absurd (blank_fails blank)
    | inr set ↦ sender_parts c _ _ (rw set at h)
  ]
    where
      blank_fails : is_blank (configured env.system_email_from) ≡ true → ⊥
      blank_fails blank = ground arith

  Outcome-IsGuarded :
      {r : Result SystemSendResult} {w' : World} (id : ℕ)
      → SystemOutcome r w'
      → r ≡ ok (queued_as id)
      → IsGuarded w'
  Outcome-IsGuarded id fails e = cc
  Outcome-IsGuarded id (strands _) e = cc
  Outcome-IsGuarded id (skips _ _) e = cc
  Outcome-IsGuarded id (queues {c} fine open_) e =
      let (sender, recipient, domain) = check_system-parts c fine in
      record {
        checked = c;
        sender = sender;
        recipient = recipient;
        domain_verified = domain;
        not_blocked = open_;
        row = refl;
        job = refl;
      }

  -- A system send that is queued still needs a sender whose domain is verified, and a recipient
  -- that parses and is not on the suppression list; it adds one row, marked as a system email, and
  -- one job.
  pub send_system-IsGuarded :
      (id : ℕ)
      → (send_system env fresh payload w).0 ≡ ok (queued_as id)
      → IsGuarded (send_system env fresh payload w).1
  send_system-IsGuarded id e = Outcome-IsGuarded id send_system-Outcome e
