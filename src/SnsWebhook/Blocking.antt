-- ===== src/SnsWebhook/Blocking.antt =====
-- What a bounce or a complaint forbids from then on.
use mathlib.Core.List.{Memᴰ}
use zendou_backend.Common.{
  ℕ, ◌≡◌, refl, sym, ap, ◌∙◌, inl, inr, Bool, true, false, Option, none, some, List, [], ◌∷◌, ◌++◌,
  arith, Bool-cases, Option-cases, ==_refl, find, is_some,
}
use zendou_backend.Text.{Text, is_blank, trim, to_lower_case}
use zendou_backend.Text.Laws.{text_eq_refl}
use zendou_backend.Schema.{Email, Suppression, SuppressionReason, hard_bounce, complaint, World}
use zendou_backend.Emails.Checks.{blocks, is_address_suppressed}
use zendou_backend.Reputation.{Context}
use zendou_backend.Reputation.Neutral.{evaluate-suppressions}
use zendou_backend.SnsWebhook.{
  Recipient, Payload, is_permanent, is_entry, upsert, suppress, suppress_all, apply_bounce,
  apply_complaint,
}

abbrev pub normal : Text → Text
normal raw = to_lower_case (trim raw)

-- An appended table keeps what a search finds.
is_some-find-append :
    (p : Suppression → Bool) (xs ys : List Suppression)
    → is_some (find p xs) ≡ true
    → is_some (find p (xs ++ ys)) ≡ true
is_some-find-append p [] ys h = cc
is_some-find-append p (x ∷ xs) ys h = ground (arith, is_some-find-append p xs ys)

find-append_last :
    (p : Suppression → Bool) (xs : List Suppression) (x : Suppression)
    → p x ≡ true
    → is_some (find p (xs ++ x ∷ [])) ≡ true
find-append_last p [] x h = ground (arith)
find-append_last p (y ∷ ys) x h = ground (arith, find-append_last p ys x)

entry_blocks :
    (address : Text) (user : ℕ) (s : Suppression)
    → is_entry address user s ≡ true
    → blocks user address s ≡ true
entry_blocks address user s h = elim (Option-cases s.user_id) [
  | inl e ↦ ground (arith, e)
  | inr (owner, e) ↦ ground (arith, e)
]

found_blocks :
    (address : Text) (user : ℕ) (xs : List Suppression)
    → is_some (find (is_entry address user) xs) ≡ true
    → is_some (find (blocks user address) xs) ≡ true
found_blocks address user [] h = cc
found_blocks address user (x ∷ xs) h =
    ground (arith, entry_blocks address user x, found_blocks address user xs)

module _ (user : ℕ) (reason : SuppressionReason) where
  upsert_blocks :
      (address : Text) (w : World)
      → is_address_suppressed (upsert address user reason w) user address ≡ true
  unfolding is_address_suppressed
  upsert_blocks address w =
      elim (Bool-cases (is_some (find (is_entry address user) w.suppressions))) [
        | inl known ↦ rw known (found_blocks address user w.suppressions known)
        | inr new ↦ rw new (
            find-append_last (blocks user address) w.suppressions _
              (rw (text_eq_refl address, ==_refl user) refl))
      ]

  upsert_keeps :
      (address other : Text) (w : World)
      → is_address_suppressed w user other ≡ true
      → is_address_suppressed (upsert address user reason w) user other ≡ true
  unfolding is_address_suppressed
  upsert_keeps address other w h =
      elim (Bool-cases (is_some (find (is_entry address user) w.suppressions))) [
        | inl known ↦ rw known h
        | inr new ↦ rw new (is_some-find-append (blocks user other) w.suppressions _ h)
      ]

  suppress_keeps :
      (raw : Option Text) (other : Text) (w : World)
      → is_address_suppressed w user other ≡ true
      → is_address_suppressed (suppress raw user reason w) user other ≡ true
  unfolding suppress
  suppress_keeps none other w h = h
  suppress_keeps (some raw) other w h = elim (Bool-cases (is_blank (normal raw))) [
    | inl blank ↦ rw blank h
    | inr full ↦ rw full (upsert_keeps (normal raw) other w h)
  ]

  suppress_all_keeps :
      (rs : List Recipient) (other : Text) (w : World)
      → is_address_suppressed w user other ≡ true
      → is_address_suppressed (suppress_all rs user reason w) user other ≡ true
  unfolding suppress_all
  suppress_all_keeps [] other w h = h
  suppress_all_keeps (r ∷ rs) other w h =
      suppress_all_keeps rs other (suppress r.address user reason w)
        (suppress_keeps r.address other w h)

  suppress_named :
      (given : Option Text) (raw : Text) (w : World)
      → given ≡ some raw
      → is_blank (normal raw) ≡ false
      → is_address_suppressed (suppress given user reason w) user (normal raw) ≡ true
  unfolding suppress
  suppress_named given raw w e full = rw (e, suppress, full) (upsert_blocks (normal raw) w)

  suppress_all_blocks :
      (rs : List Recipient) (r : Recipient) (raw : Text) (w : World)
      → Memᴰ r rs
      → r.address ≡ some raw
      → is_blank (normal raw) ≡ false
      → is_address_suppressed (suppress_all rs user reason w) user (normal raw) ≡ true
  unfolding suppress_all
  suppress_all_blocks [] r raw w m e full = elim m [ ]
  suppress_all_blocks (x ∷ xs) r raw w (Memᴰ.head same) e full =
      suppress_all_keeps xs (normal raw) (suppress x.address user reason w)
        (suppress_named x.address raw w (ap Recipient.address (sym same) ∙ e) full)
  suppress_all_blocks (x ∷ xs) r raw w (Memᴰ.tail later) e full =
      suppress_all_blocks xs r raw (suppress x.address user reason w) later e full

-- Once a hard bounce has been applied, each recipient that it names by an address is on the
-- suppression list of the sender, under the trimmed address in lower case.
pub apply_bounce-blocks :
    (ctx : Context) (e : Email) (p : Payload) (w : World) (r : Recipient) (raw : Text)
    → is_permanent p ≡ true
    → Memᴰ r p.recipients
    → r.address ≡ some raw
    → is_blank (normal raw) ≡ false
    → is_address_suppressed (apply_bounce ctx e p w) e.user_id (normal raw) ≡ true
unfolding apply_bounce is_address_suppressed
apply_bounce-blocks ctx e p w r raw permanent member given full =
    ap (λ (table : List Suppression). is_some (find (blocks e.user_id (normal raw)) table))
      (evaluate-suppressions ctx e.user_id _)
    ∙ rw permanent
        (suppress_all_blocks e.user_id hard_bounce p.recipients r raw w member given full)

-- Once a complaint has been applied, each recipient that it names by an address is on the
-- suppression list of the sender, under the trimmed address in lower case.
pub apply_complaint-blocks :
    (ctx : Context) (e : Email) (p : Payload) (w : World) (r : Recipient) (raw : Text)
    → Memᴰ r p.recipients
    → r.address ≡ some raw
    → is_blank (normal raw) ≡ false
    → is_address_suppressed (apply_complaint ctx e p w) e.user_id (normal raw) ≡ true
unfolding apply_complaint is_address_suppressed
apply_complaint-blocks ctx e p w r raw member given full =
    ap (λ (table : List Suppression). is_some (find (blocks e.user_id (normal raw)) table))
      (evaluate-suppressions ctx e.user_id _)
    ∙ suppress_all_blocks e.user_id complaint p.recipients r raw w member given full
