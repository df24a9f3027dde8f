-- ===== src/Emails/Accept/Authority.antt =====
-- Who may send what: the account, the sender, the credential and the reply-to addresses.
use zendou_backend.Common.{
  ℕ, ◌≡◌, refl, ap, ◌∙◌, ◌⊎◌, inl, inr, Bool, true, false, Option, none, some, List, [], ◌∷◌, arith,
  Bool-cases, Option-cases, find, find_sound, All, is_some,
}
use mathlib.Core.Path.{subst}
use zendou_backend.Text.{Text, text_eq}
use zendou_backend.Text.Laws.{text_eq_sound}
use zendou_backend.Schema.{User, Domain, Credential, World, find_user, is_verified, is_suspended}
use zendou_backend.EmailAddress.{ParsedAddress, parse_email_address}
use zendou_backend.Emails.Refusal.{
  Refusal, domain_not_verified, reply_to_not_verified, ok, Result-cases,
}
use zendou_backend.Emails.Pure.{◌>>=◌, ◌>>◌, >>=-eq-ok}
use zendou_backend.Emails.Checks.{
  Env, AccountState, check_account, assert_account_may_send, is_owned_domain, id_or_refuse,
  require_verified_domain, CredentialRef, require_credential, find_credential, scope_allows,
  assert_domain_in_credential_scope, check_reply_to, require_verified_reply_to,
  is_test_sender_address, is_verified_domain, require_verified_test_sender_domain, own_address,
  require_own_address_as_recipient,
}
use zendou_backend.Emails.Accept.Request.{
  AcceptInput, Checked, check_address, check_body, check_sender, check_request,
}

-- The account, if the row exists, is not suspended and has confirmed its address.
abbrev pub MaySend : Option User → Type 0
MaySend none = Unit
MaySend (some u) = (is_suspended u.status ≡ false) × (is_some u.email_verified_at ≡ true)

check_account-MaySend : (u : Option User) (a : AccountState) → check_account u ≡ ok a → MaySend u
unfolding check_account
check_account-MaySend none a h = tt
check_account-MaySend (some u) a h = ground arith

-- A domain of the account, by its exact name and verified.
pub record Owns (w : World) (user : ℕ) (name : Text) : Type 0 where
  pub domain : Domain
  pub found : find (is_owned_domain user name) w.domains ≡ some domain
  pub named : domain.name ≡ name
  pub owned : domain.user_id ≡ user
  pub is_verified : is_verified domain.status ≡ true

owned_parts :
    (user : ℕ) (name : Text) (d : Domain)
    → is_owned_domain user name d ≡ true
    → (d.name ≡ name) × (d.user_id ≡ user) × (is_verified d.status ≡ true)
owned_parts user name d h = (text_eq_sound d.name name (ground arith), ground arith, ground arith)

pub require_verified_domain-Owns :
    (reason : Refusal) (user : ℕ) (name : Text) (w : World) (id : ℕ)
    → require_verified_domain reason user name w ≡ ok id
    → (o : Owns w user name) × (o.domain.id ≡ id)
unfolding require_verified_domain
require_verified_domain-Owns reason user name w id h =
    elim (Option-cases (find (is_owned_domain user name) w.domains)) [
      | inl e ↦ absurd (no_id (rw e at h))
      | inr (d, e) ↦
          let (named, owned, fine) =
            owned_parts user name d (find_sound (is_owned_domain user name) w.domains d e) in
          (
            record { domain = d; found = e; named = named; owned = owned; is_verified = fine },
            same_id d (rw e at h),
          )
    ]
  where
    no_id : id_or_refuse reason none ≡ ok id → ⊥
    no_id e = cc

    same_id : (d : Domain) → id_or_refuse reason (some d) ≡ ok id → d.id ≡ id
    same_id d e = cc

-- Sandbox mode: the sender is the test address, its domain is verified, and the recipient is the
-- account's own address.
pub record InSandbox (env : Env) (user : ℕ) (w : World) (c : Checked) : Type 0 where
  pub test_sender : is_test_sender_address env c.from.address ≡ true
  pub to_self : own_address (find_user w user) ≡ some c.to.address
  pub domain_verified : is_some (find (is_verified_domain c.from.domain) w.domains) ≡ true
  pub no_domain : c.domain_id ≡ none

-- The ordinary mode: a verified domain of the account, in the scope of the credential.
pub record FromOwnDomain (user : ℕ) (w : World) (input : AcceptInput) (c : Checked) : Type 0 where
  pub domain : Owns w user c.from.domain
  pub recorded : c.domain_id ≡ some domain.domain.id
  pub reference : CredentialRef
  pub presented :
      require_credential input.channel input.api_key_id input.smtp_credential_id ≡ ok reference
  pub credential : Credential
  pub found : find_credential w reference ≡ some credential
  pub in_scope : scope_allows credential.domain_scope credential.domains domain.domain.id ≡ true

-- The domain of a reply-to address is one that the account owns.
abbrev pub RepliesTo : World → ℕ → Text → Type 0
RepliesTo w user raw =
    (p : ParsedAddress) × (parse_email_address raw ≡ some p) × Owns w user p.domain

pub record IsAuthorised (env : Env) (user : ℕ) (input : AcceptInput) (w : World) (c : Checked)
    : Type 0 where
  pub account : MaySend (find_user w user)
  pub sender_parsed : parse_email_address input.from ≡ some c.from
  pub recipient_parsed : parse_email_address input.to ≡ some c.to
  pub sender : InSandbox env user w c ⊎ FromOwnDomain user w input c
  pub replies : All (RepliesTo w user) input.reply_to

scope_of :
    (r : CredentialRef) (id : ℕ) (w : World)
    → assert_domain_in_credential_scope r id w ≡ ok tt
    → (c : Credential) × (find_credential w r ≡ some c)
      × (scope_allows c.domain_scope c.domains id ≡ true)
unfolding assert_domain_in_credential_scope
scope_of r id w h = elim (Option-cases (find_credential w r)) [
  | inl e ↦ absurd (impossible e)
  | inr (c, e) ↦ (c, e, allowed c e)
]
  where
    impossible : find_credential w r ≡ none → ⊥
    impossible e = ground arith

    allowed :
        (c : Credential)
        → find_credential w r ≡ some c
        → scope_allows c.domain_scope c.domains id ≡ true
    allowed c e = ground arith

test_domain_of :
    (name : Text) (w : World) (u : Unit {0})
    → require_verified_test_sender_domain name w ≡ ok u
    → is_some (find (is_verified_domain name) w.domains) ≡ true
unfolding require_verified_test_sender_domain
test_domain_of name w u h = ground arith

own_recipient_of :
    (user : ℕ) (to_address : Text) (w : World) (d : Option ℕ)
    → require_own_address_as_recipient user to_address w ≡ ok d
    → (own_address (find_user w user) ≡ some to_address) × (d ≡ none)
unfolding require_own_address_as_recipient
own_recipient_of user to_address w d h = elim (Option-cases (own_address (find_user w user))) [
  | inl e ↦ absurd (missing e)
  | inr (own, e) ↦ (e ∙ ap some (text_eq_sound own to_address (matches own e)), ground arith)
]
  where
    missing : own_address (find_user w user) ≡ none → ⊥
    missing e = ground arith

    matches :
        (own : Text) → own_address (find_user w user) ≡ some own → text_eq own to_address ≡ true
    matches own e = ground arith

module _ (env : Env) (user : ℕ) (w : World) (input : AcceptInput) (c : Checked)
    (r : CredentialRef) where
  sandbox_of :
      (require_verified_test_sender_domain c.from.domain w
          >> require_own_address_as_recipient user c.to.address w)
        ≡ ok c.domain_id
      → is_test_sender_address env c.from.address ≡ true
      → InSandbox env user w c
  sandbox_of h test =
      let (u, domain_fine, rest) = >>=-eq-ok _ _ h in
      let (own, no_domain) = own_recipient_of user c.to.address w c.domain_id rest in
      record {
        test_sender = test;
        to_self = own;
        domain_verified = test_domain_of c.from.domain w u domain_fine;
        no_domain = no_domain;
      }

  own_domain_of :
      (require_verified_domain domain_not_verified user c.from.domain w >>= λ id.
      assert_domain_in_credential_scope r id w >> ok (some id))
        ≡ ok c.domain_id
      → require_credential input.channel input.api_key_id input.smtp_credential_id ≡ ok r
      → FromOwnDomain user w input c
  own_domain_of h presented =
      let (id, owned, rest) = >>=-eq-ok _ _ h in
      let (_, scoped, same) = >>=-eq-ok _ _ rest in
      let (o, same_id) =
        require_verified_domain-Owns domain_not_verified user c.from.domain w id owned in
      let (credential, found, allowed) = scope_of r id w scoped in
      record {
        domain = o;
        recorded = cc (same, same_id);
        reference = r;
        presented = presented;
        credential = credential;
        found = found;
        in_scope = rw same_id allowed;
      }

  -- What `check_sender` has established, in its two modes.
  check_sender_sound :
      require_credential input.channel input.api_key_id input.smtp_credential_id ≡ ok r
      → check_sender env user r c.from c.to.address w ≡ ok c.domain_id
      → InSandbox env user w c ⊎ FromOwnDomain user w input c
  unfolding check_sender
  check_sender_sound presented h = elim (Bool-cases (is_test_sender_address env c.from.address)) [
    | inl test ↦ inl (sandbox_of (rw test at h) test)
    | inr other ↦ inr (own_domain_of (rw other at h) presented)
  ]

pub check_address-eq :
    (reason : Refusal) (cap_names : Bool) (p : Option ParsedAddress) (a : ParsedAddress)
    → check_address reason cap_names p ≡ ok a
    → p ≡ some a
unfolding check_address
check_address-eq reason cap_names none a h = cc
check_address-eq reason cap_names (some p) a h = ground arith

reply_to_of :
    (user : ℕ) (cap_names : Bool) (p : Option ParsedAddress) (w : World) (t : Text)
    → check_reply_to user cap_names p w ≡ ok t
    → (a : ParsedAddress) × (p ≡ some a) × Owns w user a.domain
unfolding check_reply_to
reply_to_of user cap_names none w t h = cc
reply_to_of user cap_names (some p) w t h =
    elim (Result-cases (require_verified_domain reply_to_not_verified user p.domain w)) [
      | inl (id, e) ↦
          (p, refl, (require_verified_domain-Owns reply_to_not_verified user p.domain w id e).0)
      | inr (f, e) ↦ absurd (ground arith)
    ]

require_verified_reply_to-RepliesTo :
    (user : ℕ) (requested : List Text) (cap_names : Bool) (w : World) (out : List Text)
    → require_verified_reply_to user requested cap_names w ≡ ok out
    → All (RepliesTo w user) requested
unfolding require_verified_reply_to
require_verified_reply_to-RepliesTo user [] cap_names w out h = tt
require_verified_reply_to-RepliesTo user (raw ∷ rest) cap_names w out h =
    let (t, one, more) = >>=-eq-ok _ _ h in
    let (ts, others, _) = >>=-eq-ok _ _ more in
    (
      reply_to_of user cap_names (parse_email_address raw) w t one,
      require_verified_reply_to-RepliesTo user rest cap_names w ts others,
    )

-- What the checks that come before any write have established when they pass.
pub check_request-IsAuthorised :
    (env : Env) (user : ℕ) (input : AcceptInput) (w : World) (c : Checked)
    → check_request env user input w ≡ ok c
    → IsAuthorised env user input w c
unfolding check_request assert_account_may_send
check_request-IsAuthorised env user input w c h =
    let (r, presented, h₁) = >>=-eq-ok _ _ h in
    let (a, account, h₂) = >>=-eq-ok _ _ h₁ in
    let (from, from_ok, h₃) = >>=-eq-ok _ _ h₂ in
    let (to, to_ok, h₄) = >>=-eq-ok _ _ h₃ in
    let (bodies, _, h₅) = >>=-eq-ok (check_body input.content) _ h₄ in
    let (d, sender, h₆) = >>=-eq-ok _ _ h₅ in
    let (replies, reply_ok, last) = >>=-eq-ok _ _ h₆ in
    let checked : Checked = record {
      account = a;
      from = from;
      to = to;
      html = bodies.0;
      body = bodies.1;
      domain_id = d;
      reply_to = replies;
    } in
    let same : checked ≡ c = cc last in
    subst (IsAuthorised env user input w) same (record {
      account = check_account-MaySend (find_user w user) a account;
      sender_parsed = check_address-eq _ _ _ from from_ok;
      recipient_parsed = check_address-eq _ _ _ to to_ok;
      sender = check_sender_sound env user w input checked r presented sender;
      replies = require_verified_reply_to-RepliesTo user input.reply_to _ w replies reply_ok;
    })
